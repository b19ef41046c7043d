-- ===== src/Owner/Examples.antt =====
-- A namespace with one Team, a support group.
use Prim.Native.Char.{Char}
use Prim.Native.String.{String, ◌++◌}
use Prim.Native.String.compare
use text.Mathlib.Text.{is_eq}
use greenhouse.Prelude.{◌≡◌, ap, false, ◌==◌, none, [], ◌∷◌, Map, if◌then◌else◌}
use greenhouse.Platform.{Fetched, found, failed}
use greenhouse.Platform.Examples.{plain_errors, not_found}
use greenhouse.Object.{ObjectMeta}
use greenhouse.Conditions.{is_true}
use greenhouse.Owner.{
  label_key_owned_by, label_key_support_group, FieldErrors, FieldErrorsLaws,
  compute_owner_label_condition, validate_label_owned_by,
}
use greenhouse.Owner.Agreement.{validate-compute}

abbrev fields : FieldErrors
fields = record {
  required = λ path detail. String.◌∷◌ "R" detail;
  invalid = λ path value detail. String.◌∷◌ "I" (value ++ detail);
}

not_empty : (c : Char) (s : String) → (String.◌∷◌ c s == "") ≡ false
not_empty c s = ap (λ o. is_eq o) (λ i. compare.cons-nil c s i)

fields-FieldErrorsLaws : FieldErrorsLaws fields
fields-FieldErrorsLaws = record {
  required-ne_empty = λ path detail. not_empty _ _;
  invalid-ne_empty = λ path value detail. not_empty _ _;
}

abbrev teams : String → String → Fetched (Map String) String
teams namespace name =
    if name == "core" then found ((label_key_support_group, "true") ∷ []) else failed not_found

abbrev owned : ObjectMeta
owned = record {
  name = "o";
  namespace = "org";
  labels = (label_key_owned_by, "core") ∷ [];
  annotations = [];
  finalizers = [];
  deletion_timestamp = none;
}

validate-compute_example :
    (validate_label_owned_by plain_errors teams fields owned == "")
    ≡ is_true (compute_owner_label_condition plain_errors teams 5 owned)
validate-compute_example = validate-compute plain_errors teams fields fields-FieldErrorsLaws 5 owned
