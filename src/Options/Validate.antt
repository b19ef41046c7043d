-- ===== src/Options/Validate.antt =====
-- The checks of option values: IsValid and IsValidValue of api/v1alpha1/plugindefinition_types.go,
-- hasExactlyOneValueSource and validatePluginOptionValues of
-- internal/webhook/v1alpha1/plugin_webhook.go.
use Prim.Native.String.{◌++◌}
use greenhouse.Prelude.{
  ℕ, ◌+◌, nat_eq, String, Bool, true, false, not, ◌&&◌, ◌==◌, Option, none, some, List, [], ◌∷◌,
  if◌then◌else◌, is_some, has_substring,
}
use mathlib.Core.List.{◌++◌ as append}
use greenhouse.Platform.{Errors, Fetched, found, failed}
use greenhouse.Options.{
  PluginOption, PluginOptionValue, SecretKeyReference, JsonType, JsonCodec, json_null, json_bool,
  json_number, json_string, json_list, json_map, type_string, type_secret, type_bool, type_int,
  type_list, type_map,
}

abbrev pub vault_prefix : String
vault_prefix = "vault+kvv2:///"

-- field.Path and field.Error of apimachinery: the bad value is the raw text, and left out for a
-- missing one.
pub data PathPart : Type 0 where
  child : String → PathPart
  index : ℕ → PathPart

pub data FieldErrorType : Type 0 where
  field_required field_invalid field_type_invalid : FieldErrorType

pub record FieldError : Type 0 where
  pub type : FieldErrorType
  pub path : List PathPart
  pub bad_value : String
  pub detail : String

abbrev pub field_error : FieldErrorType → List PathPart → String → String → FieldError
field_error type path bad_value detail = record {
  type = type;
  path = path;
  bad_value = bad_value;
  detail = detail;
}

-- %T of a decoded value
abbrev pub type_name : JsonType → String
type_name json_null = "<nil>"
type_name json_bool = "bool"
type_name json_number = "float64"
type_name json_string = "string"
type_name json_list = "[]interface {}"
type_name json_map = "map[string]interface {}"

abbrev pub json_eq : JsonType → JsonType → Bool
json_eq json_null json_null = true
json_eq json_bool json_bool = true
json_eq json_number json_number = true
json_eq json_string json_string = true
json_eq json_list json_list = true
json_eq json_map json_map = true
json_eq _ _ = false

-- one case of IsValidValue: the type that is wanted, and how it is named
abbrev pub demand : JsonType → String → String → JsonType → Option String
demand wanted named name json =
    if json_eq wanted json
    then none
    else some ("option " ++ (name ++ (" is " ++ (named ++ (" value, got " ++ type_name json)))))

-- the switch of IsValidValue
unfoldable pub check_type : PluginOption → JsonType → Option String
check_type p json =
    if p.type == type_bool
    then demand json_bool "a bool" p.name json
    else if p.type == type_int
    then demand json_number "an int" p.name json
    else if p.type == type_string
    then demand json_string "a string" p.name json
    else if p.type == type_list
    then demand json_list "a list" p.name json
    else if p.type == type_map
    then demand json_map "a map" p.name json
    else if p.type == type_secret
    then some (
        "option "
        ++ (p.name ++ " is a secret value, that should be derived from a secret reference"))
    else some ("option " ++ (p.name ++ (" has unknown type, got " ++ type_name json)))

abbrev pub join : Option (List FieldError) → Option (List FieldError) → Option (List FieldError)
join (some errs) (some rest) = some (append errs rest)
join (some errs) none = none
join none rest = none

module _ {L : Type 0} where
  -- the count of the sources that are set
  abbrev pub sources : PluginOptionValue L → ℕ
  sources val =
      (if is_some val.value then 1 else 0)
      + (if is_some val.value_from then 1 else 0)
      + (if is_some val.expression then 1 else 0)

  unfoldable pub has_exactly_one_value_source : PluginOptionValue L → Bool
  has_exactly_one_value_source val = nat_eq (sources val) 1

  -- isOptionValueSet after the inner loop
  abbrev pub is_option_value_set : PluginOption → List (PluginOptionValue L) → Bool
  is_option_value_set option [] = false
  is_option_value_set option (val ∷ vals) =
      if option.name == val.name then true else is_option_value_set option vals

  unfoldable pub missing_required :
      PluginOption → List (PluginOptionValue L) → String → Bool → List PathPart → List FieldError
  missing_required option values definition check_required path =
      if check_required && option.required && not (is_option_value_set option values)
      then field_error field_required path "" (
          "Option '"
          ++ (option.name ++ ("' is required by PluginDefinition '" ++ (definition ++ "'"))))
        ∷ []
      else []

module _ {E : Type 0} (errors : Errors E) (json : JsonCodec E) where
  -- IsValidValue: the text of the error
  unfoldable pub is_valid_value : PluginOption → String → Option String
  unfolding check_type
  is_valid_value p val = elim (json.decode_any val) [
    | failed e ↦ some (errors.text e)
    | found decoded ↦ check_type p decoded
  ]

  -- IsValid: the error
  unfoldable pub is_valid : PluginOption → Option E
  is_valid p = elim p.default [
    | none ↦ none
    | some default ↦
        if p.type == type_bool
        then json.decode_bool default
        else if p.type == type_int
        then json.decode_int default
        else if p.type == type_string
        then elim (json.decode_string default) [ found s ↦ none | failed e ↦ some e ]
        else if p.type == type_list
        then json.decode_list default
        else if p.type == type_map
        then json.decode_map default
        else if p.type == type_secret
        then elim (json.decode_string default) [
          | failed e ↦ some e
          | found s ↦
              if s == ""
              then none
              else some (
                  errors.new ("option " ++ (p.name ++ " is a secret value, no default is allowed")))
        ]
        else some (errors.new ("unknown type " ++ p.type))
  ]

module _ {L E : Type 0} (errors : Errors E) (json : JsonCodec E) where
  -- the case of a secret with a value: the text is empty if it is not decoded
  unfoldable pub check_vault_reference :
      PluginOptionValue L → List PathPart → Fetched String E → List FieldError
  check_vault_reference val path decoded =
      let at = append path (child "value" ∷ []) in
      let missing = field_error field_type_invalid at "*****" (
        "optionValue "
        ++ (val.name
            ++ (" of type secret without secret reference must use value with vault reference"
                ++ (" prefixed by schema \"" ++ (vault_prefix ++ "\""))))) in
      elim decoded [
        | failed e ↦ field_error field_type_invalid at "*****" (errors.text e) ∷ missing ∷ []
        | found s ↦ if has_substring s vault_prefix then [] else missing ∷ []
      ]

  -- the case of a secret with a reference to a Secret
  unfoldable pub check_reference :
      PluginOptionValue L → List PathPart → SecretKeyReference → List FieldError
  check_reference val path reference =
      let at = append path (child "valueFrom" ∷ []) in
      if reference.name == ""
      then field_error field_required (append at (child "name" ∷ [])) ""
          ("optionValue " ++ (val.name ++ " of type secret must reference a secret by name"))
        ∷ []
      else if reference.key == ""
      then field_error field_required (append at (child "key" ∷ [])) ""
          ("optionValue " ++ (val.name ++ " of type secret must reference a key in a secret"))
        ∷ []
      else []

  -- the switch of a secret; none is the nil dereference of a ValueFrom without a Secret
  unfoldable pub check_secret : PluginOptionValue L → List PathPart → Option (List FieldError)
  unfolding check_vault_reference check_reference
  check_secret val path = elim val.value [
    | some raw ↦ some (check_vault_reference val path (json.decode_string raw))
    | none ↦ elim val.value_from [
      | none ↦ some []
      | some from ↦ elim from.secret [
        | none ↦ none
        | some reference ↦ some (check_reference val path reference)
      ]
    ]
  ]

  -- the check of a value that is not for a secret
  unfoldable pub check_value : PluginOption → PluginOptionValue L → List PathPart → List FieldError
  unfolding is_valid_value
  check_value option val path = elim val.value [
    | none ↦ []
    | some raw ↦ elim (is_valid_value errors json option raw) [
      | none ↦ []
      | some e ↦ field_error field_invalid (append path (child "value" ∷ [])) raw e ∷ []
    ]
  ]

  -- the body of the inner loop for a value of the option
  unfoldable pub check_option_value :
      PluginOption → PluginOptionValue L → List PathPart → Option (List FieldError)
  unfolding has_exactly_one_value_source check_secret check_value
  check_option_value option val path =
      if not (has_exactly_one_value_source val)
      then some (
          field_error field_required path ""
            ("must provide exactly one of value, valueFrom, or expression for value " ++ val.name)
          ∷ [])
      else if option.type == type_secret
      then check_secret val path
      else some (check_value option val path)

  -- the inner loop from an index on
  unfoldable pub check_option_values :
      PluginOption → List (PluginOptionValue L) → ℕ → List PathPart → Option (List FieldError)
  unfolding check_option_value
  check_option_values option [] idx path = some []
  check_option_values option (val ∷ vals) idx path =
      let rest = check_option_values option vals (idx + 1) path in
      if option.name == val.name
      then join (check_option_value option val (append path (index idx ∷ []))) rest
      else rest

  unfoldable pub validate_plugin_option_values :
      List (PluginOptionValue L)
      → String
      → List PluginOption
      → Bool
      → List PathPart
      → Option (List FieldError)
  unfolding check_option_values missing_required
  validate_plugin_option_values values definition [] check_required path = some []
  validate_plugin_option_values values definition (option ∷ options) check_required path =
      let rest = validate_plugin_option_values values definition options check_required path in
      join (check_option_values option values 0 path)
        (join (some (missing_required option values definition check_required path)) rest)
