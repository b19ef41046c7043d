-- ===== src/Options/Examples.antt =====
-- A definition with a required option that has a default, and values for it.
use mathlib.Core.List.{Permᴰ}
use greenhouse.Prelude.{
  ℕ, String, ◌≡◌, refl, true, ◌==◌, Option, none, some, List, [], ◌∷◌, if◌then◌else◌, if_ind,
  sort_by, insert_sorted, text_lt,
}
use greenhouse.Platform.{found, failed}
use greenhouse.Platform.Examples.{plain_errors}
use greenhouse.Options.{PluginOption, PluginOptionValue, JsonCodec, json_string, json_bool}
use greenhouse.Options.Merge.{
  merge_plugin_and_plugin_option_value_slice, merge_plugin_option_values, defaults,
  set_or_append_name_value,
}
use greenhouse.Options.Validate.{validate_plugin_option_values, sources}
use greenhouse.Options.Override.{find, over, default_of, find-merge_plugin, merge-loses_reference}
use greenhouse.Options.Sound.{admissible, clean, validate-admissible}

-- Every text is a string but for two; a string is encoded as it is.
abbrev json : JsonCodec String
json = record {
  decode_any = λ s. if s == "true" then found json_bool else found json_string;
  decode_string = λ s. if s == "true" then failed "not a string" else found s;
  decode_bool = λ s. if s == "true" then none else some "not a bool";
  decode_int = λ s. some "not an int";
  decode_list = λ s. some "not a list";
  decode_map = λ s. some "not a map";
  encode_string = λ s. found s;
}

abbrev option : String → Option String → String → PluginOption
option name default type = record {
  name = name;
  default = default;
  required = true;
  type = type;
  regex = "";
}

abbrev options : List PluginOption
options = option "user" (some "admin") "string" ∷ option "debug" none "bool" ∷ []

abbrev plain : String → String → PluginOptionValue ℕ
plain name value = record { name = name; value = some value; value_from = none; expression = none }

abbrev from_secret : String → PluginOptionValue ℕ
from_secret name = record {
  name = name;
  value = none;
  value_from = some (record { secret = some (record { name = "s"; key = "k" }); ref = none });
  expression = none;
}

abbrev given : List (PluginOptionValue ℕ)
given = from_secret "user" ∷ plain "debug" "true" ∷ []

abbrev by_name : List (PluginOptionValue ℕ) → List (PluginOptionValue ℕ)
by_name l = sort_by (λ v. v.name) l

inserted :
    (v : PluginOptionValue ℕ) (l : List (PluginOptionValue ℕ))
    → Permᴰ (v ∷ l) (insert_sorted (λ v. v.name) v l)
inserted v [] = Permᴰ.cons refl Permᴰ.nil
inserted v (x ∷ l) =
    if_ind (λ m. Permᴰ (v ∷ x ∷ l) m) (text_lt x.name v.name)
      (λ _. Permᴰ.trans (Permᴰ.swap refl refl) (Permᴰ.cons refl (inserted v l)))
      (λ _. same (v ∷ x ∷ l))
  where
    same : (l : List (PluginOptionValue ℕ)) → Permᴰ l l
    same [] = Permᴰ.nil
    same (x ∷ l) = Permᴰ.cons refl (same l)

permutes : (l : List (PluginOptionValue ℕ)) → Permᴰ l (by_name l)
permutes [] = Permᴰ.nil
permutes (v ∷ l) = Permᴰ.trans (Permᴰ.cons refl (permutes l)) (inserted v (by_name l))

merge_test :
    merge_plugin_and_plugin_option_value_slice by_name (some options) (plain "debug" "true" ∷ [])
    ≡ plain "debug" "true" ∷ plain "user" "admin" ∷ []
unfolding merge_plugin_and_plugin_option_value_slice merge_plugin_option_values defaults
    set_or_append_name_value text_lt
merge_test = refl

find-merge_plugin_example :
    find "debug" (merge_plugin_and_plugin_option_value_slice by_name (some options) given)
    ≡ over (default_of "debug" options) (find "debug" given)
find-merge_plugin_example =
    find-merge_plugin by_name options given "debug" permutes (refl, (refl, tt)) (refl, (refl, tt))

merge-loses_reference_example :
    (merged : PluginOptionValue ℕ) × (find "user"
        (merge_plugin_and_plugin_option_value_slice by_name (some options) given)
      ≡ some merged)
    × (sources merged ≡ 0)
merge-loses_reference_example =
    merge-loses_reference by_name options given "user" (plain "user" "admin") (from_secret "user")
      permutes (refl, (refl, tt)) (refl, (refl, tt)) refl refl refl

validate-admissible_example :
    clean (validate_plugin_option_values plain_errors json given "d" options true [])
    ≡ admissible json given options true
validate-admissible_example = validate-admissible plain_errors json given "d" options true []
