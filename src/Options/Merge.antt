-- ===== src/Options/Merge.antt =====
-- MergePluginAndPluginOptionValueSlice and MergePluginOptionValues (internal/helm/utils.go), and
-- setOrAppendNameValue (internal/helm/values.go), which they call.
use greenhouse.Prelude.{◌==◌, Option, none, some, List, [], ◌∷◌, if◌then◌else◌}
use greenhouse.Options.{PluginOption, PluginOptionValue}

module _ {L : Type 0} where
  unfoldable pub set_or_append_name_value :
      List (PluginOptionValue L) → PluginOptionValue L → List (PluginOptionValue L)
  set_or_append_name_value [] v = v ∷ []
  set_or_append_name_value (val ∷ vals) v =
      if val.name == v.name
      then record val { value = v.value } ∷ vals
      else val ∷ set_or_append_name_value vals v

  unfoldable pub merge_plugin_option_values :
      List (PluginOptionValue L) → List (PluginOptionValue L) → List (PluginOptionValue L)
  merge_plugin_option_values dst [] = dst
  merge_plugin_option_values dst (v ∷ vs) =
      merge_plugin_option_values (set_or_append_name_value dst v) vs

  -- the loop over the options of the definition
  unfoldable pub defaults : List PluginOption → List (PluginOptionValue L)
  defaults [] = []
  defaults (option ∷ options) =
      let rest = defaults options in
      elim option.default [
        | none ↦ rest
        | some d ↦
            record { name = option.name; value = some d; value_from = none; expression = none }
            ∷ rest
      ]

  -- Nil options are `none`. `sort` is sort.Slice by the names, which sorts the slice that is returned,
  -- but for nil options, in the deferred call; it leaves open how values of one name are ordered.
  unfoldable pub merge_plugin_and_plugin_option_value_slice :
      (sort : List (PluginOptionValue L) → List (PluginOptionValue L))
      → Option (List PluginOption)
      → List (PluginOptionValue L)
      → List (PluginOptionValue L)
  unfolding defaults
  merge_plugin_and_plugin_option_value_slice sort none values = values
  merge_plugin_and_plugin_option_value_slice sort (some options) values =
      sort (merge_plugin_option_values (defaults options) values)
