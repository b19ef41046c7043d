-- ===== src/Owner/Agreement.antt =====
-- ComputeOwnerLabelCondition (internal/util/conditions.go) and ValidateLabelOwnedBy
-- (internal/webhook/utils.go) agree.
use greenhouse.Prelude.{ℕ, String, ◌≡◌, refl, ◌==◌, Map, lookup, Option-cases, Bool-cases, inl, inr}
use greenhouse.Platform.{Errors, Fetched, Fetched-cases}
use greenhouse.Object.{ObjectMeta}
use greenhouse.Conditions.{is_true}
use greenhouse.Owner.{
  label_key_owned_by, is_support_group, FieldErrors, FieldErrorsLaws, compute_owner_label_condition,
  validate_label_owned_by, validate_owner, condition_of_owner,
}

module _ {E : Type 0} (errors : Errors E) (get_team : String → String → Fetched (Map String) E)
    (field : FieldErrors) where
  validate-condition :
      FieldErrorsLaws field
      → (now : ℕ) (namespace owner : String)
      → (validate_owner errors get_team field namespace owner == "")
        ≡ is_true (condition_of_owner errors get_team now namespace owner)
  unfolding validate_owner condition_of_owner
  validate-condition laws now namespace owner = elim (Fetched-cases (get_team namespace owner)) [
    | inr (x, g) ↦ rw (validate_owner, condition_of_owner, g) (laws.invalid-ne_empty _ _ _)
    | inl (labels, g) ↦ elim (Bool-cases (is_support_group labels)) [
      | inl s ↦ rw (validate_owner, condition_of_owner, g, s) refl
      | inr s ↦ rw (validate_owner, condition_of_owner, g, s) (laws.invalid-ne_empty _ _ _)
    ]
  ]

  -- The webhook has no warning on the owner of a resource exactly if the controllers report its
  -- OwnerLabelSet condition as true. It is assumed that no field error is the empty text.
  pub validate-compute :
      FieldErrorsLaws field
      → (now : ℕ) (o : ObjectMeta)
      → (validate_label_owned_by errors get_team field o == "")
        ≡ is_true (compute_owner_label_condition errors get_team now o)
  unfolding validate_label_owned_by compute_owner_label_condition
  validate-compute laws now o = elim (Bool-cases (o.namespace == "")) [
    | inl e ↦
        rw (validate_label_owned_by, compute_owner_label_condition, e) (laws.required-ne_empty _ _)
    | inr e ↦ elim (Option-cases (lookup label_key_owned_by o.labels)) [
      | inl e' ↦
          rw (validate_label_owned_by, compute_owner_label_condition, e, e')
            (laws.required-ne_empty _ _)
      | inr (owner, e') ↦ elim (Bool-cases (owner == "")) [
        | inl e'' ↦
            rw (validate_label_owned_by, compute_owner_label_condition, e, e', e'')
              (laws.required-ne_empty _ _)
        | inr e'' ↦
            rw (validate_label_owned_by, compute_owner_label_condition, e, e', e'')
              (validate-condition laws now o.namespace owner)
      ]
    ]
  ]
