-- ===== src/Options/Sound.antt =====
-- What validatePluginOptionValues (internal/webhook/v1alpha1/plugin_webhook.go) admits.
use greenhouse.Prelude.{
  ℕ, ◌+◌, nat_eq, String, Bool, true, false, not, ◌&&◌, ◌||◌, ◌==◌, ◌≡◌, refl, ap₂, ◌∙◌, eq_iff,
  Option, none, some, List, [], ◌∷◌, ◌++◌, arith, if◌then◌else◌, is_some, has_substring, Map,
  lookup, Option-cases, Bool-cases, inl, inr,
}
use greenhouse.Platform.{Errors, found, failed, Fetched-cases}
use greenhouse.Options.{
  PluginOption, PluginOptionValue, PluginValueFromSource, SecretKeyReference, JsonType, JsonCodec,
  json_bool, json_number, json_string, json_list, json_map, type_secret,
}
use greenhouse.Options.Validate.{
  FieldError, PathPart, index, json_eq, check_type, sources, has_exactly_one_value_source,
  is_valid_value, check_vault_reference, check_reference, check_secret, check_value,
  check_option_value, join, check_option_values, is_option_value_set, missing_required,
  validate_plugin_option_values, vault_prefix,
}

eq_comm : (s t : String) → (s == t) ≡ (t == s)
eq_comm s t = ground (arith, eq_iff s t, eq_iff t s)

-- The types of options, but for secrets, and the JSON that belongs to them.
abbrev pub json_types : Map JsonType
json_types =
    ("bool", json_bool)
    ∷ ("int", json_number)
    ∷ ("string", json_string)
    ∷ ("list", json_list)
    ∷ ("map", json_map)
    ∷ []

abbrev pub belongs : String → JsonType → Bool
belongs type json = elim (lookup type json_types) [
  | none ↦ false
  | some wanted ↦ json_eq wanted json
]

-- No errors, and no nil dereference.
abbrev pub clean : Option (List FieldError) → Bool
clean none = false
clean (some []) = true
clean (some (e ∷ errs)) = false

clean-join : (a b : Option (List FieldError)) → clean (join a b) ≡ (clean a && clean b)
clean-join none b = refl
clean-join (some []) none = refl
clean-join (some (e ∷ errs)) none = refl
clean-join (some []) (some rest) = refl
clean-join (some (e ∷ errs)) (some rest) = refl

check_type-belongs :
    (p : PluginOption) (json : JsonType) → is_some (check_type p json) ≡ not (belongs p.type json)
unfolding check_type lookup
check_type-belongs p json = ground (
  arith,
  eq_comm "bool" p.type,
  eq_comm "int" p.type,
  eq_comm "string" p.type,
  eq_comm "list" p.type,
  eq_comm "map" p.type,
  eq_iff p.type type_secret,
)

-- A value that belongs to the type of an option that is not a secret.
module _ {E : Type 0} (json : JsonCodec E) where
  abbrev pub typed : PluginOption → String → Bool
  typed option raw = elim (json.decode_any raw) [
    | failed e ↦ false
    | found decoded ↦ belongs option.type decoded
  ]

  abbrev pub typed_if_any : PluginOption → Option String → Bool
  typed_if_any option none = true
  typed_if_any option (some raw) = typed option raw

  -- A text that refers to a vault.
  abbrev pub in_vault : String → Bool
  in_vault raw = elim (json.decode_string raw) [
    | failed e ↦ false
    | found s ↦ has_substring s vault_prefix
  ]

  abbrev pub names_key : Option SecretKeyReference → Bool
  names_key none = false
  names_key (some r) = not (r.name == "") && not (r.key == "")

  module _ {L : Type 0} where
    abbrev pub names_secret : Option (PluginValueFromSource L) → Bool
    names_secret none = true
    names_secret (some from) = names_key from.secret

    -- A value that is no plain text: a reference to a vault or to a Secret, or an expression.
    abbrev pub hidden : PluginOptionValue L → Bool
    hidden val = elim val.value [ some raw ↦ in_vault raw | none ↦ names_secret val.value_from ]

    abbrev pub fits : PluginOption → PluginOptionValue L → Bool
    fits option val =
        nat_eq (sources val) 1
        && (if option.type == type_secret then hidden val else typed_if_any option val.value)

    -- Every value with the name of the option fits it.
    abbrev pub all_fit : PluginOption → List (PluginOptionValue L) → Bool
    all_fit option [] = true
    all_fit option (val ∷ vals) =
        let rest = all_fit option vals in
        if option.name == val.name then fits option val && rest else rest

    abbrev pub satisfied : Bool → PluginOption → List (PluginOptionValue L) → Bool
    satisfied check_required option values =
        not (check_required && option.required) || is_option_value_set option values

    -- What the webhook asks of the values, for all options.
    abbrev pub admissible : List (PluginOptionValue L) → List PluginOption → Bool → Bool
    admissible values [] check_required = true
    admissible values (option ∷ options) check_required =
        all_fit option values
        && (satisfied check_required option values && admissible values options check_required)

module _ {E : Type 0} (errors : Errors E) (json : JsonCodec E) where
  is_valid-typed :
      (option : PluginOption) (raw : String)
      → is_some (is_valid_value errors json option raw) ≡ not (typed json option raw)
  unfolding is_valid_value
  is_valid-typed option raw = elim (Fetched-cases (json.decode_any raw)) [
    | inl (j, e) ↦ rw (is_valid_value, typed, e) (check_type-belongs option j)
    | inr (x, e) ↦ rw (is_valid_value, typed, e) refl
  ]

module _ {L E : Type 0} (errors : Errors E) (json : JsonCodec E) where
  clean-value :
      (option : PluginOption) (val : PluginOptionValue L) (path : List PathPart)
      → clean (some (check_value errors json option val path)) ≡ typed_if_any json option val.value
  unfolding check_value
  clean-value option val path = elim (Option-cases val.value) [
    | inl e ↦ rw (check_value, e) refl
    | inr (raw, e) ↦ elim (Option-cases (is_valid_value errors json option raw)) [
      | inl v ↦ rw (check_value, e, v) (ground (arith, is_valid-typed errors json option raw))
      | inr (x, v) ↦ rw (check_value, e, v) (ground (arith, is_valid-typed errors json option raw))
    ]
  ]

  clean-vault :
      (val : PluginOptionValue L) (path : List PathPart) (raw : String)
      → clean (some (check_vault_reference errors json val path (json.decode_string raw)))
        ≡ in_vault json raw
  unfolding check_vault_reference
  clean-vault val path raw = elim (Fetched-cases (json.decode_string raw)) [
    | inl (s, e) ↦ rw (in_vault, e) (ground arith)
    | inr (x, e) ↦ rw (in_vault, e) refl
  ]

  clean-reference :
      (val : PluginOptionValue L) (path : List PathPart) (r : SecretKeyReference)
      → clean (some (check_reference errors json val path r)) ≡ names_key json (some r)
  unfolding check_reference
  clean-reference val path r = ground arith

  clean-secret :
      (val : PluginOptionValue L) (path : List PathPart)
      → clean (check_secret errors json val path) ≡ hidden json val
  unfolding check_secret check_vault_reference
  clean-secret val path = elim (Option-cases val.value) [
    | inr (raw, e) ↦ rw (check_secret, hidden, e) (clean-vault val path raw)
    | inl e ↦ elim (Option-cases val.value_from) [
      | inl f ↦ rw (check_secret, hidden, e, f) refl
      | inr (from, f) ↦ elim (Option-cases from.secret) [
        | inl g ↦ rw (check_secret, hidden, names_secret, e, f, g) refl
        | inr (r, g) ↦ rw (check_secret, hidden, names_secret, e, f, g) (clean-reference val path r)
      ]
    ]
  ]

  clean-option_value :
      (option : PluginOption) (val : PluginOptionValue L) (path : List PathPart)
      → clean (check_option_value errors json option val path) ≡ fits json option val
  unfolding check_option_value has_exactly_one_value_source
  clean-option_value option val path =
      ground (arith, clean-value option val path, clean-secret val path)

  clean-option_values :
      (option : PluginOption) (vals : List (PluginOptionValue L)) (idx : ℕ) (path : List PathPart)
      → clean (check_option_values errors json option vals idx path) ≡ all_fit json option vals
  unfolding check_option_values
  clean-option_values option [] idx path = refl
  clean-option_values option (val ∷ vals) idx path = elim (Bool-cases (option.name == val.name)) [
    | inl e ↦ rw e (
        clean-join _ _
        ∙ ap₂ ◌&&◌ (clean-option_value option val (path ++ index idx ∷ []))
            (clean-option_values option vals (idx + 1) path))
    | inr e ↦ rw e (clean-option_values option vals (idx + 1) path)
  ]

  clean-missing :
      (option : PluginOption) (values : List (PluginOptionValue L)) (definition : String)
      (check_required : Bool) (path : List PathPart)
      → clean (some (missing_required option values definition check_required path))
        ≡ satisfied json check_required option values
  unfolding missing_required
  clean-missing option values definition check_required path = ground arith

  -- The webhook admits the option values, without an error and without dereferencing nil, exactly
  -- if every value of an option has one source; the value of an option for a secret refers to a
  -- vault or names a Secret and a key, or is an expression; any other plain value has the JSON
  -- type of the option; and, if that is checked, every required option has a value.
  pub validate-admissible :
      (values : List (PluginOptionValue L)) (definition : String) (options : List PluginOption)
      (check_required : Bool) (path : List PathPart)
      → clean
          (validate_plugin_option_values errors json values definition options check_required path)
        ≡ admissible json values options check_required
  unfolding validate_plugin_option_values
  validate-admissible values definition [] check_required path = refl
  validate-admissible values definition (option ∷ options) check_required path =
      let rest =
        validate_plugin_option_values errors json values definition options check_required path in
      let missing = some (missing_required option values definition check_required path) in
      clean-join (check_option_values errors json option values 0 path) (join missing rest)
      ∙ ap₂ ◌&&◌ (clean-option_values option values 0 path) (
          clean-join missing rest
          ∙ ap₂ ◌&&◌ (clean-missing option values definition check_required path)
              (validate-admissible values definition options check_required path))
