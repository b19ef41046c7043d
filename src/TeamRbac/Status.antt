-- ===== src/TeamRbac/Status.antt =====
-- SetPropagationStatus and RemovePropagationStatus of api/v1alpha2/teamrolebinding_types.go, as maps
-- from clusters to conditions.
use greenhouse.Prelude.{
  ℕ, String, ◌≡◌, refl, true, false, ◌==◌, eq_iff, Option, none, some, List, [], ◌∷◌, ◌++◌, arith,
  if◌then◌else◌, if_ind, length, delete_func, Slice, visible, slice_update, slice_append,
}
use greenhouse.Prelude.SliceLaws.{
  IsSlice, visible-delete_func, visible-append, visible-update, delete_func-IsSlice, append-IsSlice,
  update-IsSlice,
}
use greenhouse.Conditions.{ConditionStatus, Condition, new_condition, status_eq}
use greenhouse.TeamRbac.{
  TeamRoleBinding, PropagationStatus, zero_propagation_status, overwrite, has_cluster, rbac_ready,
  set_propagation_status, remove_propagation_status,
}

-- The condition that is reported for a cluster.
unfoldable pub propagation_of : List PropagationStatus → String → Option Condition
propagation_of [] cluster = none
propagation_of (ps ∷ rest) cluster =
    if ps.cluster_name == cluster then some ps.condition else propagation_of rest cluster

length-overwrite :
    (n : String) (c : Condition) (l : List PropagationStatus) → length (overwrite n c l) ≡ length l
unfolding overwrite
length-overwrite n c [] = refl
length-overwrite n c (ps ∷ rest) = ground (arith, length-overwrite n c rest)

abbrev pub kept_time : Option Condition → Condition → Condition
kept_time none c = c
kept_time (some old) c =
    if status_eq old.status c.status
    then record c { last_transition_time = old.last_transition_time }
    else c

propagation-overwrite :
    (n : String) (c : Condition) (l : List PropagationStatus) (m : String)
    → has_cluster l n ≡ true
    → propagation_of (overwrite n c l) m
      ≡ (if n == m then some (kept_time (propagation_of l n) c) else propagation_of l m)
unfolding overwrite propagation_of
propagation-overwrite n c [] m h = ground arith
propagation-overwrite n c (ps ∷ rest) m h = ground (
  arith,
  propagation-overwrite n c rest m,
  eq_iff ps.cluster_name n,
  eq_iff n m,
  eq_iff ps.cluster_name m,
)

propagation-snoc :
    (n : String) (c : Condition) (l : List PropagationStatus) (m : String)
    → has_cluster l n ≡ false
    → propagation_of (l ++ record { cluster_name = n; condition = c } ∷ []) m
      ≡ (if n == m then some (kept_time (propagation_of l n) c) else propagation_of l m)
unfolding propagation_of
propagation-snoc n c [] m h = refl
propagation-snoc n c (ps ∷ rest) m h = ground (
  arith,
  propagation-snoc n c rest m,
  eq_iff ps.cluster_name n,
  eq_iff n m,
  eq_iff ps.cluster_name m,
)

propagation-delete :
    (n : String) (l : List PropagationStatus) (m : String)
    → propagation_of (delete_func l (λ ps. ps.cluster_name == n)) m
      ≡ (if n == m then none else propagation_of l m)
unfolding propagation_of
propagation-delete n [] m = ground arith
propagation-delete n (ps ∷ rest) m = ground (
  arith,
  propagation-delete n rest m,
  eq_iff ps.cluster_name n,
  eq_iff n m,
  eq_iff ps.cluster_name m,
)

module _ {L : Type 0} where
  -- The statuses of a binding, by cluster.
  abbrev pub reported : TeamRoleBinding L → String → Option Condition
  reported trb cluster = propagation_of (visible trb.status) cluster

  module _ (now : ℕ) (n : String) (status : ConditionStatus) (reason message : String)
      (trb : TeamRoleBinding L) (h : IsSlice trb.status) where
    -- SetPropagationStatus reports the condition for that cluster, with the time of the last report if
    -- that had the same status, and leaves what is reported for every other cluster.
    pub reported-set :
        (m : String)
        → reported (set_propagation_status now n status reason message trb) m ≡ (
            if n == m
            then some
                (kept_time (reported trb n) (new_condition now rbac_ready status reason message))
            else reported trb m)
    unfolding set_propagation_status
    reported-set m =
        if_ind
          (λ (s : Slice PropagationStatus).
            propagation_of (visible s) m
            ≡ (if n == m then some (kept_time (reported trb n) c) else reported trb m))
          (has_cluster (visible trb.status) n) {x = slice_update (overwrite n c) trb.status}
          {y = slice_append (record { cluster_name = n; condition = c }) trb.status}
          (λ e.
            rw
              (visible-update (overwrite n c) trb.status h
                (length-overwrite n c (visible trb.status)))
              (propagation-overwrite n c (visible trb.status) m e))
          (λ e.
            rw (visible-append (record { cluster_name = n; condition = c }) trb.status h)
              (propagation-snoc n c (visible trb.status) m e))
      where
        c : Condition
        c = new_condition now rbac_ready status reason message

    pub set-IsSlice : IsSlice (set_propagation_status now n status reason message trb).status
    unfolding set_propagation_status
    set-IsSlice =
        if_ind (λ (s : Slice PropagationStatus). IsSlice s) (has_cluster (visible trb.status) n)
          {x = slice_update (overwrite n c) trb.status}
          {y = slice_append (record { cluster_name = n; condition = c }) trb.status}
          (λ e.
            update-IsSlice (overwrite n c) trb.status h (length-overwrite n c (visible trb.status)))
          (λ e. append-IsSlice (record { cluster_name = n; condition = c }) trb.status h)
      where
        c : Condition
        c = new_condition now rbac_ready status reason message

  -- RemovePropagationStatus leaves nothing reported for that cluster, and the rest as it is.
  pub reported-remove :
      (n : String) (trb : TeamRoleBinding L) (m : String)
      → reported (remove_propagation_status n trb) m ≡ (if n == m then none else reported trb m)
  unfolding remove_propagation_status
  reported-remove n trb m =
      rw
        (visible-delete_func zero_propagation_status
          (λ (ps : PropagationStatus). ps.cluster_name == n) trb.status)
        (propagation-delete n (visible trb.status) m)

  pub remove-IsSlice :
      (n : String) (trb : TeamRoleBinding L) → IsSlice (remove_propagation_status n trb).status
  unfolding remove_propagation_status
  remove-IsSlice n trb = delete_func-IsSlice zero_propagation_status _ trb.status
