-- ===== src/Owner.antt =====
-- The owner of a resource: ComputeOwnerLabelCondition (internal/util/conditions.go) and
-- ValidateLabelOwnedBy (internal/webhook/utils.go). What is proved of them is in Owner/Agreement.
pub mod Agreement
mod Examples
use Prim.Native.String.{◌++◌}
use greenhouse.Prelude.{
  ℕ, String, Bool, true, false, ◌≡◌, ◌==◌, Option, none, some, List, [], ◌∷◌, if◌then◌else◌, Map,
  lookup,
}
use greenhouse.Platform.{Errors, Fetched, found, failed}
use greenhouse.Object.{ObjectMeta}
use greenhouse.Conditions.{Condition, true_condition, false_condition, owner_label_set_condition}

abbrev pub label_key_owned_by : String
label_key_owned_by = "greenhouse.sap/owned-by"

abbrev pub label_key_support_group : String
label_key_support_group = "greenhouse.sap/support-group"

-- The test of a Team's labels.
unfoldable pub is_support_group : Map String → Bool
is_support_group labels = elim (lookup label_key_support_group labels) [
  | none ↦ false
  | some v ↦ v == "true"
]

-- Required and Invalid of apimachinery's package field, as texts, by the parts of the path.
pub record FieldErrors : Type 0 where
  pub required : List String → String → String
  pub invalid : List String → String → String → String

-- An error is not the empty text.
pub record FieldErrorsLaws (field : FieldErrors) : Type 0 where
  pub required-ne_empty :
      (path : List String) (detail : String) → (field.required path detail == "") ≡ false
  pub invalid-ne_empty :
      (path : List String) (value detail : String) → (field.invalid path value detail == "") ≡ false

-- `get_team` gets the labels of a Team by namespace and name.
module _ {E : Type 0} (errors : Errors E)
    (get_team : String → String → Fetched (Map String) E) where
  -- ComputeOwnerLabelCondition, once the label is known
  unfoldable pub condition_of_owner : ℕ → String → String → Condition
  condition_of_owner now namespace owner = elim (get_team namespace owner) [
    | failed e ↦ false_condition now owner_label_set_condition "OwnerLabelNotExistingTeam" (
        if errors.is_not_found e
        then "team " ++ (owner ++ " does not exist in resource namespace")
        else "team " ++ (owner ++ " could not be retrieved"))
    | found labels ↦
        if is_support_group labels
        then true_condition now owner_label_set_condition "" ""
        else false_condition now owner_label_set_condition "OwnerLabelSetToNonSupportGroupTeam"
            ("owner team " ++ (owner ++ " should be a support group"))
  ]

  unfoldable pub compute_owner_label_condition : ℕ → ObjectMeta → Condition
  unfolding condition_of_owner
  compute_owner_label_condition now o =
      let missing =
        false_condition now owner_label_set_condition "OwnerLabelMissing"
          ("Label " ++ (label_key_owned_by ++ " is missing")) in
      if o.namespace == ""
      then false_condition now owner_label_set_condition ""
          "Resource namespace is required to validate the owner"
      else elim (lookup label_key_owned_by o.labels) [
        | none ↦ missing
        | some owner ↦ if owner == "" then missing else condition_of_owner now o.namespace owner
      ]

  module _ (field : FieldErrors) where
    abbrev label_path : List String
    label_path = "metadata" ∷ "labels" ∷ label_key_owned_by ∷ []

    -- ValidateLabelOwnedBy, once the label is known
    unfoldable pub validate_owner : String → String → String
    validate_owner namespace owner = elim (get_team namespace owner) [
      | failed e ↦ field.invalid label_path owner (
          if errors.is_not_found e
          then "team " ++ (owner ++ " does not exist in the resource namespace")
          else "team " ++ (owner ++ (" could not be retrieved: " ++ errors.text e)))
      | found labels ↦
          if is_support_group labels
          then ""
          else field.invalid label_path owner
              ("owner team " ++ (owner ++ " should be a support group"))
    ]

    -- ValidateLabelOwnedBy: a warning, or the empty text
    unfoldable pub validate_label_owned_by : ObjectMeta → String
    unfolding validate_owner
    validate_label_owned_by o =
        if o.namespace == ""
        then field.required ("metadata" ∷ "namespace" ∷ [])
            "namespace is required to validate the owner"
        else elim (lookup label_key_owned_by o.labels) [
          | none ↦ field.required label_path ("label " ++ (label_key_owned_by ++ " is required"))
          | some owner ↦
              if owner == ""
              then field.required label_path
                  ("label " ++ (label_key_owned_by ++ " value is required"))
              else validate_owner o.namespace owner
        ]
