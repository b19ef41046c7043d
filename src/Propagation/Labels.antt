-- ===== src/Propagation/Labels.antt =====
-- applyLabels, syncTargetLabels and CopyLabels of pkg/lifecycle/propagation.go, loop by loop.
use Prim.Native.String.{◌++◌ as glue}
use greenhouse.Prelude.{
  String, Bool, true, false, not, ◌&&◌, ◌||◌, eq_iff, ◌≡◌, refl, Option, none, List, [], ◌∷◌,
  if◌then◌else◌, is_some, contains, contains-append, Map, IsMap, lookup, insert, remove,
  lookup-insert, lookup-remove, arith, Option-cases, sym, if_ind, ◌++◌, inl, inr, ◌==◌, some,
  cut_suffix, has_prefix, contains_func,
}
use greenhouse.Propagation.{
  AppliedPropagatorState, Progress, exact_keys, wild_prefixes, matches_any, any_exact, any_wild,
  contains_label_to_propagate, apply_exact, apply_wild, clean, remove_all, sync_target_labels,
  apply_labels, copy_exact, copy_wild, copy_labels, is_nil,
}
use greenhouse.Object.{ObjectMeta}

pub lookup-apply_exact :
    (ks : List String) (src dst : Map String) (applied : List String) (j : String)
    → lookup j (apply_exact ks src (dst, applied)).0
      ≡ (if contains ks j && is_some (lookup j src) then lookup j src else lookup j dst)
unfolding apply_exact
lookup-apply_exact [] src dst applied j = refl
lookup-apply_exact (k ∷ ks) src dst applied j = elim (Option-cases (lookup k src)) [
  | inl e ↦ ground (arith, lookup-apply_exact ks src dst applied j, eq_iff k j)
  | inr (v, e) ↦ ground (
    arith,
    lookup-apply_exact ks src (insert k v dst) (applied ++ k ∷ []) j,
    lookup-insert k j v dst,
    eq_iff k j,
  )
]

pub contains-apply_exact :
    (ks : List String) (src dst : Map String) (applied : List String) (j : String)
    → contains (apply_exact ks src (dst, applied)).1 j
      ≡ (contains applied j || contains ks j && is_some (lookup j src))
unfolding apply_exact
contains-apply_exact [] src dst applied j = ground arith
contains-apply_exact (k ∷ ks) src dst applied j = elim (Option-cases (lookup k src)) [
  | inl e ↦ ground (arith, contains-apply_exact ks src dst applied j, eq_iff k j)
  | inr (v, e) ↦ ground (
    arith,
    contains-apply_exact ks src (insert k v dst) (applied ++ k ∷ []) j,
    contains-append applied (k ∷ []) j,
    eq_iff k j,
  )
]

pub lookup-apply_wild :
    (exact prefixes : List String) (es dst : Map String) (applied : List String) (j : String)
    → IsMap es
    → lookup j (apply_wild exact prefixes es (dst, applied)).0
      ≡ (if matches_any j prefixes && is_some (lookup j es) then lookup j es else lookup j dst)
unfolding apply_wild lookup
lookup-apply_wild exact prefixes [] dst applied j m = ground arith
lookup-apply_wild exact prefixes ((k, v) ∷ es) dst applied j m = ground (
  arith,
  eq_iff k j,
  lookup-insert k j v dst,
  lookup-apply_wild exact prefixes es (insert k v dst) applied j m.1,
  lookup-apply_wild exact prefixes es (insert k v dst) (applied ++ k ∷ []) j m.1,
  lookup-apply_wild exact prefixes es dst applied j m.1,
)

pub contains-apply_wild :
    (exact prefixes : List String) (es dst : Map String) (applied : List String) (j : String)
    → contains (apply_wild exact prefixes es (dst, applied)).1 j ≡ (
        contains applied j
        || matches_any j prefixes && is_some (lookup j es) && not (contains exact j))
unfolding apply_wild lookup
contains-apply_wild exact prefixes [] dst applied j = ground arith
contains-apply_wild exact prefixes ((k, v) ∷ es) dst applied j = ground (
  arith,
  eq_iff k j,
  contains-append applied (k ∷ []) j,
  contains-apply_wild exact prefixes es (insert k v dst) applied j,
  contains-apply_wild exact prefixes es (insert k v dst) (applied ++ k ∷ []) j,
  contains-apply_wild exact prefixes es dst applied j,
)

pub lookup-clean :
    (prev applied : List String) (dst : Map String) (j : String)
    → lookup j (clean prev applied dst)
      ≡ (if contains prev j && not (contains applied j) then none else lookup j dst)
unfolding clean
lookup-clean [] applied dst j = refl
lookup-clean (k ∷ prev) applied dst j = ground (
  arith,
  eq_iff k j,
  lookup-remove k j dst,
  lookup-clean prev applied dst j,
  lookup-clean prev applied (remove k dst) j,
)

pub lookup-remove_all :
    (ks : List String) (dst : Map String) (j : String)
    → lookup j (remove_all ks dst) ≡ (if contains ks j then none else lookup j dst)
unfolding remove_all
lookup-remove_all [] dst j = refl
lookup-remove_all (k ∷ ks) dst j =
    ground (arith, eq_iff k j, lookup-remove k j dst, lookup-remove_all ks (remove k dst) j)

-- What one entry of a list of keys names: the keys below what stands before its final "/*", or, if it
-- does not end so, itself.
abbrev pub names : String → String → Bool
names entry j = elim (cut_suffix entry "/*") [
  | none ↦ entry == j
  | some before ↦ has_prefix j (glue before "/")
]

abbrev pub selected : List String → String → Bool
selected entries j = contains_func entries (λ entry. names entry j)

-- The parts that the code makes of the entries name the same keys.
split-selected :
    (keys : List String) (j : String)
    → (contains (exact_keys keys) j || matches_any j (wild_prefixes keys)) ≡ selected keys j
unfolding exact_keys wild_prefixes
split-selected [] j = refl
split-selected (k ∷ ks) j = elim (Option-cases (cut_suffix k "/*")) [
  | inl e ↦ rw (exact_keys, wild_prefixes, e) (ground (arith, split-selected ks j))
  | inr (before, e) ↦ rw (exact_keys, wild_prefixes, e) (ground (arith, split-selected ks j))
]

-- The source declares the key and has it.
abbrev pub handed : List String → Map String → String → Bool
handed keys src j = selected keys j && is_some (lookup j src)

any_exact-false :
    (keys : List String) (src : Map String) (j : String)
    → any_exact keys src ≡ false
    → contains (exact_keys keys) j && is_some (lookup j src) ≡ false
unfolding any_exact exact_keys
any_exact-false [] src j h = refl
any_exact-false (k ∷ ks) src j h = ground (arith, any_exact-false ks src j, eq_iff k j)

any_wild-false :
    (prefixes : List String) (es : Map String) (j : String)
    → any_wild prefixes es ≡ false
    → matches_any j prefixes && is_some (lookup j es) ≡ false
unfolding any_wild lookup
any_wild-false prefixes [] j h = ground arith
any_wild-false prefixes ((k, v) ∷ es) j h = ground (arith, any_wild-false prefixes es j, eq_iff k j)

-- Where the test of the source finds no declared label, no label is handed down.
handed-none :
    (keys : List String) (src : Map String) (j : String)
    → contains_label_to_propagate keys src ≡ false
    → handed keys src j ≡ false
unfolding contains_label_to_propagate exact_keys wild_prefixes lookup
handed-none [] src j h = refl
handed-none (k ∷ ks) [] j h = ground arith
handed-none (k ∷ ks) ((i, v) ∷ es) j h = ground (
  arith,
  any_exact-false (k ∷ ks) ((i, v) ∷ es) j,
  any_wild-false (wild_prefixes (k ∷ ks)) ((i, v) ∷ es) j,
  split-selected (k ∷ ks) j,
)

handed-skipped :
    (keys : List String) (src : Map String) (j : String)
    → is_nil keys || not (contains_label_to_propagate keys src) ≡ true
    → handed keys src j ≡ false
unfolding is_nil exact_keys wild_prefixes
handed-skipped [] src j h = refl
handed-skipped (k ∷ ks) src j h = ground (arith, handed-none (k ∷ ks) src j)

module _ (state : AppliedPropagatorState) (keys : List String) (src dst : Map String) (j : String)
    (m : IsMap src) where
  abbrev expected : Option String
  expected =
      if handed keys src j
      then lookup j src
      else if contains state.label_keys j
      then none
      else lookup j dst

  contains-sync : contains (sync_target_labels state keys src dst).1 j ≡ handed keys src j
  unfolding sync_target_labels
  contains-sync =
      let (d, a) = apply_exact (exact_keys keys) src (dst, []) in
      ground (
        arith,
        contains-apply_wild (exact_keys keys) (wild_prefixes keys) src d a j,
        contains-apply_exact (exact_keys keys) src dst [] j,
        split-selected keys j,
      )

  lookup-sync : lookup j (sync_target_labels state keys src dst).0 ≡ expected
  unfolding sync_target_labels
  lookup-sync =
      let (d, a) = apply_exact (exact_keys keys) src (dst, []) in
      let (d', a') = apply_wild (exact_keys keys) (wild_prefixes keys) src (d, a) in
      ground (
        arith,
        lookup-clean state.label_keys a' d' j,
        contains-sync,
        lookup-apply_wild (exact_keys keys) (wild_prefixes keys) src d a j m,
        lookup-apply_exact (exact_keys keys) src dst [] j,
        split-selected keys j,
      )

  -- A label that is declared and present in the source gets the source's value; any other label
  -- that was applied the last time goes; the rest stay.
  pub lookup-apply_labels : lookup j (apply_labels state keys src dst).0 ≡ expected
  unfolding apply_labels
  lookup-apply_labels =
      if_ind (λ (p : Progress). lookup j p.0 ≡ expected)
        (is_nil keys || not (contains_label_to_propagate keys src))
        {x = (remove_all state.label_keys dst, [])} {y = sync_target_labels state keys src dst}
        (λ h. ground (arith, lookup-remove_all state.label_keys dst j, handed-skipped keys src j))
        (λ _. lookup-sync)

  -- The labels that are reported as applied are those that were handed down.
  pub contains-apply_labels : contains (apply_labels state keys src dst).1 j ≡ handed keys src j
  unfolding apply_labels
  contains-apply_labels =
      if_ind (λ (p : Progress). contains p.1 j ≡ handed keys src j)
        (is_nil keys || not (contains_label_to_propagate keys src))
        {x = (remove_all state.label_keys dst, [])} {y = sync_target_labels state keys src dst}
        (λ h. sym (handed-skipped keys src j h)) (λ _. contains-sync)

lookup-copy_exact :
    (ks : List String) (src dst : Map String) (j : String)
    → lookup j (copy_exact ks src dst)
      ≡ (if contains ks j && is_some (lookup j src) then lookup j src else lookup j dst)
unfolding copy_exact
lookup-copy_exact [] src dst j = refl
lookup-copy_exact (k ∷ ks) src dst j = elim (Option-cases (lookup k src)) [
  | inl e ↦ ground (arith, lookup-copy_exact ks src dst j, eq_iff k j)
  | inr (v, e) ↦
      ground
        (arith, lookup-copy_exact ks src (insert k v dst) j, lookup-insert k j v dst, eq_iff k j)
]

lookup-copy_wild :
    (prefixes : List String) (es dst : Map String) (j : String)
    → IsMap es
    → lookup j (copy_wild prefixes es dst)
      ≡ (if matches_any j prefixes && is_some (lookup j es) then lookup j es else lookup j dst)
unfolding copy_wild lookup
lookup-copy_wild prefixes [] dst j m = ground arith
lookup-copy_wild prefixes ((k, v) ∷ es) dst j m = ground (
  arith,
  eq_iff k j,
  lookup-insert k j v dst,
  lookup-copy_wild prefixes es (insert k v dst) j m.1,
  lookup-copy_wild prefixes es dst j m.1,
)

-- CopyLabels gives the destination each label of the source whose key is named, exactly or by a
-- prefix, with the source's value, and leaves every other label of the destination. It is assumed
-- that no key occurs twice in the source's labels.
pub lookup-copy_labels :
    (keys : List String) (src dst : ObjectMeta) (j : String)
    → IsMap src.labels
    → lookup j (copy_labels keys src dst).labels
      ≡ (if handed keys src.labels j then lookup j src.labels else lookup j dst.labels)
unfolding copy_labels exact_keys wild_prefixes
lookup-copy_labels [] src dst j m = refl
lookup-copy_labels (k ∷ ks) src dst j m = ground (
  arith,
  lookup-copy_exact (exact_keys (k ∷ ks)) src.labels dst.labels j,
  lookup-copy_wild (wild_prefixes (k ∷ ks)) src.labels
      (copy_exact (exact_keys (k ∷ ks)) src.labels dst.labels) j m,
  split-selected (k ∷ ks) j,
)
