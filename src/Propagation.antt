-- ===== src/Propagation.antt =====
-- pkg/lifecycle/propagation.go: labels and annotations that a source object hands down to a
-- destination. A map is an association list, and its order is the order in which Go happens to
-- iterate over it; a nil map is the empty one. JSON is an interface.
pub mod Labels
pub mod Annotations
pub mod Apply
mod Codec
mod Examples
use Prim.Native.String.{◌++◌ as append}
use greenhouse.Prelude.{
  ℕ, String, Bool, true, false, not, ◌&&◌, ◌||◌, ◌==◌, ◌≡◌, ◌≢◌, Option, none, some, List, [], ◌∷◌,
  ◌++◌, if◌then◌else◌, is_some, contains, contains_func, Map, lookup, insert, remove, trim_space,
  split_comma, cut_suffix, has_prefix, map, delete_func,
}
use greenhouse.Object.{ObjectMeta}

abbrev pub applied_propagator_annotation : String
applied_propagator_annotation = "greenhouse.sap/last-applied-propagator"

abbrev pub propagate_labels_annotation : String
propagate_labels_annotation = "greenhouse.sap/propagate-labels"

abbrev pub propagate_annotations_annotation : String
propagate_annotations_annotation = "greenhouse.sap/propagate-annotations"

pub record AppliedPropagatorState : Type 0 where
  pub label_keys : List String
  pub annotation_keys : List String

abbrev pub no_state : AppliedPropagatorState
no_state = record { label_keys = []; annotation_keys = [] }

-- encoding/json, at the type of the state. An error of Unmarshal is `none`.
pub record Json : Type 0 where
  pub marshal : AppliedPropagatorState → String
  pub unmarshal : String → Option AppliedPropagatorState

pub record JsonLaws (json : Json) : Type 0 where
  pub unmarshal-marshal : (s : AppliedPropagatorState) → json.unmarshal (json.marshal s) ≡ some s
  pub marshal-ne_empty : (s : AppliedPropagatorState) → (json.marshal s == "") ≡ false

-- m[k] of a map that may lack the key
abbrev pub value_at : String → Map String → String
value_at k m = elim (lookup k m) [ none ↦ "" | some v ↦ v ]

-- labelKeysToPropagate and annotationKeysToPropagate, which read different annotations
unfoldable pub keys_to_propagate : String → ObjectMeta → List String
keys_to_propagate name src =
    let annotation = trim_space (value_at name src.annotations) in
    if annotation == ""
    then []
    else delete_func (map trim_space (split_comma annotation)) (λ k. k == "")

-- The keys that end in "/*" are prefixes, the others are exact.
unfoldable pub exact_keys : List String → List String
exact_keys [] = []
exact_keys (k ∷ ks) =
    let rest = exact_keys ks in elim (cut_suffix k "/*") [ none ↦ k ∷ rest | some before ↦ rest ]

unfoldable pub wild_prefixes : List String → List String
wild_prefixes [] = []
wild_prefixes (k ∷ ks) =
    let rest = wild_prefixes ks in
    elim (cut_suffix k "/*") [ none ↦ rest | some before ↦ append before "/" ∷ rest ]

abbrev pub matches_any : String → List String → Bool
matches_any k prefixes = contains_func prefixes (λ p. has_prefix k p)

any_exact : List String → Map String → Bool
any_exact [] src_labels = false
any_exact (k ∷ ks) src_labels =
    let rest = any_exact ks src_labels in
    elim (cut_suffix k "/*") [
      | none ↦ if is_some (lookup k src_labels) then true else rest
      | some before ↦ rest
    ]

any_wild : List String → Map String → Bool
any_wild prefixes [] = false
any_wild prefixes ((k, v) ∷ rest) = matches_any k prefixes || any_wild prefixes rest

is_nil {ℓ} : {A : Type ℓ} → List A → Bool
is_nil [] = true
is_nil (x ∷ xs) = false

unfoldable pub contains_label_to_propagate : List String → Map String → Bool
unfolding any_exact any_wild is_nil
contains_label_to_propagate keys src_labels =
    if is_nil keys || is_nil src_labels
    then false
    else if any_exact keys src_labels
    then true
    else if is_nil (wild_prefixes keys)
    then false
    else any_wild (wild_prefixes keys) src_labels

unfoldable pub contains_annotation_to_propagate : List String → Map String → Bool
contains_annotation_to_propagate [] src = false
contains_annotation_to_propagate (k ∷ ks) src =
    if is_some (lookup k src) then true else contains_annotation_to_propagate ks src

-- A map that is written, and the keys written so far.
abbrev pub Progress : Type 0
Progress = Map String × List String

unfoldable pub apply_exact : List String → Map String → Progress → Progress
apply_exact [] src s = s
apply_exact (k ∷ ks) src (dst, applied) =
    apply_exact ks src
      (elim (lookup k src) [ none ↦ (dst, applied) | some v ↦ (insert k v dst, applied ++ k ∷ []) ])

unfoldable pub apply_wild : List String → List String → Map String → Progress → Progress
apply_wild exact prefixes [] s = s
apply_wild exact prefixes ((k, v) ∷ rest) (dst, applied) = apply_wild exact prefixes rest (
    if matches_any k prefixes
    then (insert k v dst, if contains exact k then applied else applied ++ k ∷ [])
    else (dst, applied))

-- The last loop of syncTargetLabels; with nothing applied it is the one of cleanupTargetLabels.
unfoldable pub clean : List String → List String → Map String → Map String
clean [] applied dst = dst
clean (prev ∷ rest) applied dst =
    clean rest applied (if contains applied prev then dst else remove prev dst)

unfoldable pub remove_all : List String → Map String → Map String
remove_all [] dst = dst
remove_all (k ∷ ks) dst = remove_all ks (remove k dst)

unfoldable pub sync_target_labels :
    AppliedPropagatorState → List String → Map String → Map String → Progress
sync_target_labels state keys src_labels dst_labels =
    let exact = exact_keys keys in
    let (dst, applied) =
      apply_wild exact (wild_prefixes keys) src_labels
        (apply_exact exact src_labels (dst_labels, [])) in
    (clean state.label_keys applied dst, applied)

unfoldable pub apply_labels :
    AppliedPropagatorState → List String → Map String → Map String → Progress
unfolding is_nil
apply_labels state keys src_labels dst_labels =
    if is_nil keys || not (contains_label_to_propagate keys src_labels)
    then (remove_all state.label_keys dst_labels, [])
    else sync_target_labels state keys src_labels dst_labels

unfoldable pub clean_annotations : List String → List String → Map String → Map String → Map String
clean_annotations [] keys src dst = dst
clean_annotations (k ∷ rest) keys src dst =
    clean_annotations rest keys src
      (if not (contains keys k) || value_at k src == "" then remove k dst else dst)

unfoldable pub sync_target_annotations :
    AppliedPropagatorState → List String → Map String → Map String → Progress
sync_target_annotations state keys src dst_annotations =
    let (dst, applied) = apply_exact keys src (dst_annotations, []) in
    (clean_annotations state.annotation_keys keys src dst, applied)

unfoldable pub apply_annotations :
    AppliedPropagatorState → List String → Map String → Map String → Progress
unfolding is_nil
apply_annotations state keys src dst =
    if is_nil keys || not (contains_annotation_to_propagate keys src)
    then (remove_all state.annotation_keys dst, [])
    else sync_target_annotations state keys src dst

module _ (json : Json) where
  unfoldable pub get_applied_state : ObjectMeta → AppliedPropagatorState
  get_applied_state dst =
      let raw = value_at applied_propagator_annotation dst.annotations in
      if raw == ""
      then no_state
      else elim (json.unmarshal raw) [ none ↦ no_state | some state ↦ state ]

  unfoldable pub store_applied_state : AppliedPropagatorState → ObjectMeta → ObjectMeta
  store_applied_state state dst = record dst {
    annotations = insert applied_propagator_annotation (json.marshal state) dst.annotations;
  }

  unfoldable pub remove_applied_state : ObjectMeta → ObjectMeta
  remove_applied_state dst = record dst {
    annotations = remove applied_propagator_annotation dst.annotations;
  }

  -- Propagator.Apply, on the metadata of source and destination
  unfoldable pub apply : ObjectMeta → ObjectMeta → ObjectMeta
  unfolding is_nil
  apply src dst =
      let state = get_applied_state dst in
      let (labels, label_keys) =
        apply_labels state (keys_to_propagate propagate_labels_annotation src) src.labels
          dst.labels in
      let (annotations, annotation_keys) =
        apply_annotations state (keys_to_propagate propagate_annotations_annotation src)
          src.annotations dst.annotations in
      let dst' : ObjectMeta = record dst { labels = labels; annotations = annotations } in
      if not (is_nil label_keys) || not (is_nil annotation_keys)
      then store_applied_state
          (record { label_keys = label_keys; annotation_keys = annotation_keys }) dst'
      else remove_applied_state dst'

unfoldable pub copy_exact : List String → Map String → Map String → Map String
copy_exact [] src dst = dst
copy_exact (k ∷ ks) src dst =
    copy_exact ks src (elim (lookup k src) [ none ↦ dst | some v ↦ insert k v dst ])

unfoldable pub copy_wild : List String → Map String → Map String → Map String
copy_wild prefixes [] dst = dst
copy_wild prefixes ((k, v) ∷ rest) dst =
    copy_wild prefixes rest (if matches_any k prefixes then insert k v dst else dst)

-- Propagator.CopyLabels
unfoldable pub copy_labels : List String → ObjectMeta → ObjectMeta → ObjectMeta
unfolding is_nil
copy_labels keys src dst = if is_nil keys then dst else record dst {
  labels =
      copy_wild (wild_prefixes keys) src.labels
        (copy_exact (exact_keys keys) src.labels dst.labels);
}
