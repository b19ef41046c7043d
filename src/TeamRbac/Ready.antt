-- ===== src/TeamRbac/Ready.antt =====
-- The Ready condition of a TeamRoleBinding, which computeReadyCondition of teamrolebinding_controller.go
-- (internal/controller/teamrbac) dereferences without a test.
use greenhouse.Prelude.{
  subst, sym, ℕ, ◌≡◌, refl, ◌∙◌, ap, true, false, ◌==◌, Option, none, some, List, [], ◌∷◌, arith,
  if◌then◌else◌, is_some, visible, Bool-cases, Option-cases, inl, inr, All, ◌↔◌,
}
use greenhouse.Platform.{Errors}
use greenhouse.Conditions.Stable.{type-get_condition_by_type, merged-Transition}
use greenhouse.Conditions.{
  stamp, replace, equal, Condition, is_true, condition_true, condition_false, status_eq,
  get_condition_by_type, set_conditions, ready_condition,
}
use greenhouse.Conditions.Laws.{get-set_conditions, updated, merged}
use greenhouse.TeamRbac.{
  TeamRoleBinding, PropagationStatus, all_propagated, compute_ready_condition,
}
use greenhouse.TeamRbac.Cleanup.{Hub}
use greenhouse.TeamRbac.Success.{says_true}
use greenhouse.TeamRbac.Controller.{ensure_created, status_of}
use greenhouse.TeamRbac.Presence.{Ready-ensure_created}

all_propagated-true :
    (statuses : List PropagationStatus)
    → (all_propagated statuses ≡ true) ↔ All (λ ps. is_true ps.condition ≡ true) statuses
unfolding all_propagated
all_propagated-true [] = ((λ h. tt), (λ h. refl))
all_propagated-true (ps ∷ rest) =
    let (to, from) = all_propagated-true rest in
    elim (Bool-cases (is_true ps.condition)) [
      | inl e ↦ rw e ((λ h. (refl, to h)), (λ h. from h.1))
      | inr e ↦ rw e ((λ h. ground (arith, h)), (λ h. ground (arith, h.0)))
    ]

-- What computeReadyCondition makes of the Ready condition.
abbrev computed : Condition → List PropagationStatus → Condition
computed ready statuses =
    if all_propagated statuses
    then record ready { status = condition_true; message = "ready" }
    else record ready { status = condition_false; message = "Team RBAC reconciliation failed" }

-- The conditions that the status function sets: the Ready condition stands with its status.
says_true-ready :
    (now : ℕ) (ready owner_label : Condition) (sc : List Condition)
    → ready.type ≡ ready_condition
    → (owner_label.type == ready_condition) ≡ false
    → says_true
        (get_condition_by_type (set_conditions now sc (ready ∷ owner_label ∷ [])) ready_condition)
      ≡ is_true ready
unfolding updated merged stamp replace equal
says_true-ready now ready owner_label sc t o =
    rw (get-set_conditions now (ready ∷ owner_label ∷ []) sc ready_condition, o, t)
      (elim (Option-cases (get_condition_by_type sc ready_condition)) [
        | inl e ↦ rw e (ground arith)
        | inr (c, e) ↦
            (let set : Condition = record ready { type = ready_condition } in
              rw e (
                ap (λ s. status_eq s condition_true)
                  (merged-Transition now c set
                    (type-get_condition_by_type sc ready_condition c e)).same_status))
      ])

module _ {L Sel P A W E : Type 0} (errors : Errors E) (hub : Hub L Sel P A W E) (now : ℕ) where
  -- After EnsureCreated, whatever the API server and the clusters answer, the status function of the
  -- controller does not dereference nil: it computes a status.
  pub status_of-ensure_created :
      (owner_label : TeamRoleBinding L → W → Condition) (trb : TeamRoleBinding L) (v w : W)
      → is_some (status_of errors hub now owner_label (ensure_created errors hub now trb w).1 v)
        ≡ true
  unfolding status_of compute_ready_condition
  status_of-ensure_created owner_label trb v w =
      elim (Option-cases (
        get_condition_by_type (ensure_created errors hub now trb w).1.conditions ready_condition)) [
          | inl e ↦ ground (arith, Ready-ensure_created errors hub now trb w)
          | inr (c, e) ↦ rw (is_some, status_of, compute_ready_condition, e) refl
        ]

  -- The condition Ready of the status, if there is one, says what the statuses of the clusters say.
  abbrev Right : TeamRoleBinding L → Option (TeamRoleBinding L) → Type 0
  Right trb none = Unit
  Right trb (some s) =
      (says_true (get_condition_by_type s.conditions ready_condition) ≡ true)
      ↔ All (λ ps. is_true ps.condition ≡ true) (visible trb.status)

  agree :
      (owner_label c : Condition) (sc : List Condition) (statuses : List PropagationStatus)
      → (owner_label.type == ready_condition) ≡ false
      → c.type ≡ ready_condition
      → (says_true (
            get_condition_by_type
              (set_conditions now sc (computed c statuses ∷ owner_label ∷ []))
              ready_condition)
          ≡ true)
        ↔ All (λ ps. is_true ps.condition ≡ true) statuses
  agree owner_label c sc statuses o t =
      let (to, from) = all_propagated-true statuses in
      let type : (computed c statuses).type ≡ ready_condition = ground (arith, t) in
      let status : is_true (computed c statuses) ≡ all_propagated statuses = ground arith in
      let all = says_true-ready now (computed c statuses) owner_label sc type o ∙ status in
      ((λ h. to (sym all ∙ h)), (λ h. all ∙ from h))

  Right-status_of :
      (owner_label : TeamRoleBinding L → W → Condition) (trb : TeamRoleBinding L) (w : W)
      → ((owner_label trb w).type == ready_condition) ≡ false
      → Right trb (status_of errors hub now owner_label trb w)
  unfolding status_of compute_ready_condition
  Right-status_of owner_label trb w o =
      elim (Option-cases (get_condition_by_type trb.conditions ready_condition)) [
        | inl e ↦ rw (status_of, compute_ready_condition, e) tt
        | inr (c, e) ↦
            rw (status_of, compute_ready_condition, e)
              (agree (owner_label trb w) c trb.conditions (visible trb.status) o
                (type-get_condition_by_type trb.conditions ready_condition c e))
      ]

  -- In a status that the status function computes, the condition Ready is true exactly if the status
  -- of every cluster is true. The condition on the owner label is assumed not to be a Ready
  -- condition.
  pub status_of-Ready :
      (owner_label : TeamRoleBinding L → W → Condition) (trb s : TeamRoleBinding L) (w : W)
      → ((owner_label trb w).type == ready_condition) ≡ false
      → status_of errors hub now owner_label trb w ≡ some s
      → (says_true (get_condition_by_type s.conditions ready_condition) ≡ true)
        ↔ All (λ ps. is_true ps.condition ≡ true) (visible trb.status)
  status_of-Ready owner_label trb s w o h =
      subst (λ (r : Option (TeamRoleBinding L)). Right trb r) h
        (Right-status_of owner_label trb w o)
