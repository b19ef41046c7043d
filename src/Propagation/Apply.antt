-- ===== src/Propagation/Apply.antt =====
-- Propagator.Apply of pkg/lifecycle/propagation.go: what one call does, and what repeated calls do.
use greenhouse.Prelude.{
  String, true, false, not, ◌||◌, ◌==◌, eq_iff, ◌≡◌, ◌≢◌, refl, ◌∙◌, none, some, List, [], ◌∷◌,
  if◌then◌else◌, if_ind, contains, Map, IsMap, lookup, lookup-insert, lookup-remove, arith,
}
use greenhouse.Object.{ObjectMeta}
use greenhouse.Propagation.{
  AppliedPropagatorState, Json, JsonLaws, Progress, apply_labels, apply_annotations, is_nil,
  value_at, keys_to_propagate, propagate_labels_annotation, propagate_annotations_annotation,
  applied_propagator_annotation, get_applied_state, store_applied_state, remove_applied_state,
  apply, no_state,
}
use greenhouse.Propagation.Labels.{handed, lookup-apply_labels, contains-apply_labels}
use greenhouse.Propagation.Annotations
use greenhouse.Propagation.Annotations.{lookup-apply_annotations, contains-apply_annotations}

nil_of_is_nil : (l : List String) → is_nil l ≡ true → l ≡ []
unfolding is_nil
nil_of_is_nil [] h = refl
nil_of_is_nil (x ∷ xs) h = ground arith

both_nil :
    (l m : List String)
    → not (is_nil l) || not (is_nil m) ≡ false
    → no_state ≡ record { label_keys = l; annotation_keys = m }
unfolding is_nil
both_nil [] [] h = refl
both_nil (x ∷ l) m h = ground arith
both_nil [] (x ∷ m) h = ground arith

abbrev label_keys_of : ObjectMeta → List String
label_keys_of src = keys_to_propagate propagate_labels_annotation src

abbrev annotation_keys_of : ObjectMeta → List String
annotation_keys_of src = keys_to_propagate propagate_annotations_annotation src

module _ (json : Json) (laws : JsonLaws json) where
  value_at-store :
      (state : AppliedPropagatorState) (m : ObjectMeta)
      → value_at applied_propagator_annotation (store_applied_state json state m).annotations
        ≡ json.marshal state
  unfolding store_applied_state
  value_at-store state m = rw (
    lookup-insert applied_propagator_annotation applied_propagator_annotation (json.marshal state)
        m.annotations,
    value_at,
  )

  get_applied_state-store :
      (state : AppliedPropagatorState) (m : ObjectMeta)
      → get_applied_state json (store_applied_state json state m) ≡ state
  unfolding get_applied_state
  get_applied_state-store state m =
      rw (value_at-store state m, laws.marshal-ne_empty state, laws.unmarshal-marshal state)

  get_applied_state-remove :
      (m : ObjectMeta) → get_applied_state json (remove_applied_state json m) ≡ no_state
  unfolding get_applied_state remove_applied_state
  get_applied_state-remove m = rw (
    lookup-remove applied_propagator_annotation applied_propagator_annotation m.annotations,
    value_at,
  )

empty_value : (j : String) (m : Map String) → lookup j m ≡ some "" → (value_at j m == "") ≡ true
empty_value j m h = rw (h, value_at)

module _ (json : Json) (src dst : ObjectMeta) where
  -- What the call applies, by category.
  abbrev label_step : Progress
  label_step = apply_labels (get_applied_state json dst) (label_keys_of src) src.labels dst.labels

  abbrev annotation_step : Progress
  annotation_step =
      apply_annotations (get_applied_state json dst) (annotation_keys_of src) src.annotations
        dst.annotations

  labels-apply : (apply json src dst).labels ≡ label_step.0
  unfolding apply store_applied_state remove_applied_state
  labels-apply = ground arith

  lookup-annotations-apply :
      (j : String)
      → (applied_propagator_annotation == j) ≡ false
      → lookup j (apply json src dst).annotations ≡ lookup j annotation_step.0
  unfolding apply store_applied_state remove_applied_state
  lookup-annotations-apply j h = ground (
    arith,
    lookup-insert applied_propagator_annotation j
        (json.marshal (record { label_keys = label_step.1; annotation_keys = annotation_step.1 }))
        annotation_step.0,
    lookup-remove applied_propagator_annotation j annotation_step.0,
  )

  -- Apply records what it applied, where the next call finds it.
  get_applied_state-apply :
      JsonLaws json
      → get_applied_state json (apply json src dst)
        ≡ record { label_keys = label_step.1; annotation_keys = annotation_step.1 }
  unfolding apply
  get_applied_state-apply laws =
      if_ind
        (λ (m : ObjectMeta).
          get_applied_state json m
          ≡ record { label_keys = label_step.1; annotation_keys = annotation_step.1 })
        (not (is_nil label_step.1) || not (is_nil annotation_step.1))
        {x = store_applied_state json
          (record { label_keys = label_step.1; annotation_keys = annotation_step.1 })
          (record dst { labels = label_step.0; annotations = annotation_step.0 })}
        {y = remove_applied_state json
          (record dst { labels = label_step.0; annotations = annotation_step.0 })}
        (λ _. get_applied_state-store json laws _ _)
        (λ h. get_applied_state-remove json laws _ ∙ both_nil label_step.1 annotation_step.1 h)

module _ (json : Json) (src dst : ObjectMeta) where
  -- Apply gives the destination every label that the source declares and has, with the source's
  -- value; it removes the other labels that the destination's annotation records as applied
  -- before, and leaves the rest. It is assumed that no key occurs twice in the source's labels.
  pub lookup-labels-apply :
      IsMap src.labels
      → (j : String)
      → lookup j (apply json src dst).labels ≡ (
          if handed (label_keys_of src) src.labels j
          then lookup j src.labels
          else if contains (get_applied_state json dst).label_keys j
          then none
          else lookup j dst.labels)
  lookup-labels-apply m j = rw (labels-apply json src dst) (
      lookup-apply_labels (get_applied_state json dst) (label_keys_of src) src.labels dst.labels j
        m)

  recorded_labels :
      JsonLaws json
      → IsMap src.labels
      → (j : String)
      → contains (get_applied_state json (apply json src dst)).label_keys j
        ≡ handed (label_keys_of src) src.labels j
  recorded_labels laws m j = rw (get_applied_state-apply json src dst laws) (
      contains-apply_labels (get_applied_state json dst) (label_keys_of src) src.labels dst.labels j
        m)

  lookup-annotations-expected :
      (j : String)
      → (applied_propagator_annotation == j) ≡ false
      → lookup j (apply json src dst).annotations
        ≡ Annotations.expected
            (get_applied_state json dst)
            (annotation_keys_of src)
            src.annotations
            dst.annotations
            j
  lookup-annotations-expected j h =
      lookup-annotations-apply json src dst j h
      ∙ lookup-apply_annotations (get_applied_state json dst) (annotation_keys_of src)
          src.annotations dst.annotations j

  recorded_annotations :
      JsonLaws json
      → (j : String)
      → contains (get_applied_state json (apply json src dst)).annotation_keys j
        ≡ Annotations.handed (annotation_keys_of src) src.annotations j
  recorded_annotations laws j = rw (get_applied_state-apply json src dst laws) (
      contains-apply_annotations (get_applied_state json dst) (annotation_keys_of src)
        src.annotations dst.annotations j)

module _ (json : Json) (laws : JsonLaws json) (src dst : ObjectMeta) where
  -- A second Apply leaves the labels of the destination as they are after the first. It is assumed
  -- that no key occurs twice in the source's labels, and that JSON reads back what it wrote.
  pub labels-apply_idem :
      IsMap src.labels
      → (j : String)
      → lookup j (apply json src (apply json src dst)).labels ≡ lookup j (apply json src dst).labels
  labels-apply_idem m j = ground (
    arith,
    lookup-labels-apply json src (apply json src dst) m j,
    lookup-labels-apply json src dst m j,
    recorded_labels json src dst laws m j,
  )

  -- A label that one Apply handed down is gone after the next one, if the source by then no longer
  -- declares it or no longer has it. It is assumed that no key occurs twice in the labels of either
  -- source, and that JSON reads back what it wrote.
  pub labels-apply_retracts :
      (src' : ObjectMeta)
      → IsMap src.labels
      → IsMap src'.labels
      → (j : String) → handed (label_keys_of src) src.labels j ≡ true
      → handed (label_keys_of src') src'.labels j ≡ false
      → lookup j (apply json src' (apply json src dst)).labels ≡ none
  labels-apply_retracts src' m m' j h n = ground (
    arith,
    lookup-labels-apply json src' (apply json src dst) m' j,
    recorded_labels json src dst laws m j,
  )

  -- A second Apply leaves an annotation of the destination as the first did, if its value in the
  -- source is not the empty text and it is not the record of what was applied. It is assumed that
  -- JSON reads back what it wrote.
  pub annotations-apply_idem :
      (j : String)
      → (applied_propagator_annotation == j) ≡ false
      → lookup j src.annotations ≢ some ""
      → lookup j (apply json src (apply json src dst)).annotations
        ≡ lookup j (apply json src dst).annotations
  annotations-apply_idem j h n = ground (
    arith,
    lookup-annotations-expected json src (apply json src dst) j h,
    lookup-annotations-expected json src dst j h,
    recorded_annotations json src dst laws j,
    eq_iff (value_at j src.annotations) "",
  )

  -- An annotation that the source declares with the empty value, and that was not applied before,
  -- is set by the first Apply and removed by the second: Apply is not idempotent there. It is not
  -- the record of what was applied, and JSON is assumed to read back what it wrote.
  pub annotations-apply_flips :
      (j : String)
      → (applied_propagator_annotation == j) ≡ false
      → contains (annotation_keys_of src) j ≡ true
      → lookup j src.annotations ≡ some ""
      → contains (get_applied_state json dst).annotation_keys j ≡ false
      → (lookup j (apply json src dst).annotations ≡ some "")
        × (lookup j (apply json src (apply json src dst)).annotations ≡ none)
  annotations-apply_flips j h c e a = (
    ground (arith, lookup-annotations-expected json src dst j h),
    ground (
      arith,
      lookup-annotations-expected json src (apply json src dst) j h,
      recorded_annotations json src dst laws j,
      empty_value j src.annotations e,
    ),
  )
