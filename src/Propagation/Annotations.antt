-- ===== src/Propagation/Annotations.antt =====
-- applyAnnotations and syncTargetAnnotations of pkg/lifecycle/propagation.go, loop by loop.
use greenhouse.Prelude.{
  String, Bool, true, false, not, ◌&&◌, ◌||◌, ◌==◌, eq_iff, ◌≡◌, refl, sym, Option, none, List, [],
  ◌∷◌, if◌then◌else◌, if_ind, is_some, contains, Map, lookup, remove, lookup-remove, arith,
}
use greenhouse.Propagation.{
  AppliedPropagatorState, Progress, contains_annotation_to_propagate, apply_exact, remove_all,
  clean_annotations, sync_target_annotations, apply_annotations, is_nil, value_at,
}
use greenhouse.Propagation.Labels.{lookup-apply_exact, contains-apply_exact, lookup-remove_all}

lookup-clean_annotations :
    (prev keys : List String) (src dst : Map String) (j : String)
    → lookup j (clean_annotations prev keys src dst) ≡ (
        if contains prev j && (not (contains keys j) || value_at j src == "")
        then none
        else lookup j dst)
unfolding clean_annotations
lookup-clean_annotations [] keys src dst j = refl
lookup-clean_annotations (k ∷ prev) keys src dst j = ground (
  arith,
  eq_iff k j,
  lookup-remove k j dst,
  lookup-clean_annotations prev keys src dst j,
  lookup-clean_annotations prev keys src (remove k dst) j,
)

-- The source declares the annotation and has it.
abbrev pub handed : List String → Map String → String → Bool
handed keys src j = contains keys j && is_some (lookup j src)

handed-none :
    (keys : List String) (src : Map String) (j : String)
    → contains_annotation_to_propagate keys src ≡ false
    → handed keys src j ≡ false
unfolding contains_annotation_to_propagate
handed-none [] src j h = refl
handed-none (k ∷ ks) src j h = ground (arith, handed-none ks src j, eq_iff k j)

handed-skipped :
    (keys : List String) (src : Map String) (j : String)
    → is_nil keys || not (contains_annotation_to_propagate keys src) ≡ true
    → handed keys src j ≡ false
unfolding is_nil
handed-skipped [] src j h = refl
handed-skipped (k ∷ ks) src j h = ground (arith, handed-none (k ∷ ks) src j)

value_at-missing : (j : String) (m : Map String) → lookup j m ≡ none → (value_at j m == "") ≡ true
value_at-missing j m h = rw (h, value_at)

module _ (state : AppliedPropagatorState) (keys : List String) (src dst : Map String)
    (j : String) where
  abbrev pub expected : Option String
  expected =
      if contains state.annotation_keys j && (not (contains keys j) || value_at j src == "")
      then none
      else if handed keys src j
      then lookup j src
      else lookup j dst

  lookup-cleaned :
      handed keys src j ≡ false → lookup j (remove_all state.annotation_keys dst) ≡ expected
  lookup-cleaned h =
      ground (arith, lookup-remove_all state.annotation_keys dst j, value_at-missing j src)

  lookup-sync : lookup j (sync_target_annotations state keys src dst).0 ≡ expected
  unfolding sync_target_annotations
  lookup-sync =
      let (d, a) = apply_exact keys src (dst, []) in
      ground (
        arith,
        lookup-clean_annotations state.annotation_keys keys src d j,
        lookup-apply_exact keys src dst [] j,
      )

  contains-sync : contains (sync_target_annotations state keys src dst).1 j ≡ handed keys src j
  unfolding sync_target_annotations
  contains-sync = ground (arith, contains-apply_exact keys src dst [] j)

  -- An annotation that was applied the last time goes if it is no longer declared, or if its value
  -- in the source is missing or empty; otherwise a declared one that the source has gets the
  -- source's value, and the rest stay.
  pub lookup-apply_annotations : lookup j (apply_annotations state keys src dst).0 ≡ expected
  unfolding apply_annotations
  lookup-apply_annotations =
      if_ind (λ (p : Progress). lookup j p.0 ≡ expected)
        (is_nil keys || not (contains_annotation_to_propagate keys src))
        {x = (remove_all state.annotation_keys dst, [])}
        {y = sync_target_annotations state keys src dst}
        (λ h. lookup-cleaned (handed-skipped keys src j h)) (λ _. lookup-sync)

  pub contains-apply_annotations :
      contains (apply_annotations state keys src dst).1 j ≡ handed keys src j
  unfolding apply_annotations
  contains-apply_annotations =
      if_ind (λ (p : Progress). contains p.1 j ≡ handed keys src j)
        (is_nil keys || not (contains_annotation_to_propagate keys src))
        {x = (remove_all state.annotation_keys dst, [])}
        {y = sync_target_annotations state keys src dst} (λ h. sym (handed-skipped keys src j h))
        (λ _. contains-sync)
