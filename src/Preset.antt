-- ===== src/Preset.antt =====
-- The PluginPreset (api/v1alpha1/pluginpreset_types.go) and its controller,
-- internal/controller/plugin/pluginpreset_controller.go: the plugins of a preset and its status. The
-- creation of the plugins, events, logs and metrics are left out.
pub mod Statuses
pub mod Cleanup
pub mod Counts
mod Examples
use Prim.Native.String.{◌++◌}
use greenhouse.Prelude.{
  ℕ, String, Bool, true, false, not, ◌&&◌, ◌==◌, Option, none, some, List, [], ◌∷◌, Map, lookup,
  if◌then◌else◌,
}
use greenhouse.Platform.{Errors, Fetched}
use greenhouse.Object.{ObjectMeta, RuntimeObject}
use greenhouse.ClientUtil.{ObjectClient}
use greenhouse.Conditions.{
  Condition, condition_true, condition_false, is_true, is_false, get_condition_by_type,
  set_conditions, unknown_condition, ready_condition, owner_label_set_condition,
}

-- What is read of a Plugin; owner references by their uids.
pub record Plugin : Type 0 where
  pub metadata : ObjectMeta
  pub open metadata use *
  pub owner_references : List String
  pub cluster_name : String
  pub release_name : String
  pub has_helm_release_status : Bool
  pub conditions : List Condition

-- What is read of the spec.
pub record PresetSpec : Type 0 where
  pub plugin_release_name : String
  pub deletion_policy : String

pub record ManagedPluginStatus : Type 0 where
  pub plugin_name : String
  pub ready : Condition

-- PluginPresetStatus without its conditions.
pub record PresetStatus : Type 0 where
  pub plugin_statuses : List ManagedPluginStatus
  pub total_plugins : ℕ
  pub ready_plugins : ℕ
  pub failed_plugins : ℕ
  pub plugin_definition_version : String

abbrev pub PluginPreset : Type 0
PluginPreset = RuntimeObject PresetSpec PresetStatus

abbrev pub plugin_skipped : String
plugin_skipped = "PluginSkipped"

abbrev pub plugin_failed : String
plugin_failed = "PluginFailed"

abbrev pub all_plugins_ready : String
all_plugins_ready = "AllPluginsReady"

abbrev pub plugin_definition_not_found : String
plugin_definition_not_found = "PluginDefinitionNotFound"

abbrev pub cluster_list_empty : String
cluster_list_empty = "ClusterListEmpty"

abbrev pub preset_exposed_conditions : List String
preset_exposed_conditions =
    ready_condition ∷ plugin_skipped ∷ plugin_failed ∷ all_plugins_ready
    ∷ plugin_definition_not_found ∷ cluster_list_empty ∷ owner_label_set_condition ∷ []

abbrev pub label_key_plugin_preset : String
label_key_plugin_preset = "greenhouse.sap/pluginpreset"

abbrev pub deletion_policy_retain : String
deletion_policy_retain = "Retain"

-- The API server: plugins of a namespace with a value of the preset label, and the client for
-- plugins. `remove_owner_reference` is controllerutil.RemoveOwnerReference with the scheme, `join`
-- Go's errors.Join.
pub record PresetClient (W E : Type 0) : Type 0 where
  pub list : String → String → W → Fetched (List Plugin) E
  pub plugins : ObjectClient Plugin W E
  pub remove_owner_reference : PluginPreset → Plugin → Option E × Plugin
  pub join : List E → E

-- (*PluginPreset).SetCondition
unfoldable pub set_preset_condition : ℕ → Condition → PluginPreset → PluginPreset
set_preset_condition now c preset = record preset {
  conditions = set_conditions now preset.conditions (c ∷ []);
}

-- the loop of initPluginPresetStatus over some types
unfoldable pub init_preset_conditions : ℕ → List String → PluginPreset → PluginPreset
unfolding set_preset_condition
init_preset_conditions now [] p = p
init_preset_conditions now (ct ∷ types) p =
    init_preset_conditions now types (elim (get_condition_by_type p.conditions ct) [
      | none ↦ set_preset_condition now (unknown_condition now ct "" "") p
      | some c ↦ p
    ])

unfoldable pub init_plugin_preset_status : ℕ → PluginPreset → PluginPreset
unfolding init_preset_conditions
init_plugin_preset_status now p = init_preset_conditions now preset_exposed_conditions p

unfoldable pub is_plugin_managed_by_preset : Plugin → String → Bool
is_plugin_managed_by_preset plugin preset_name =
    elim (lookup label_key_plugin_preset plugin.labels) [
      | none ↦ preset_name == ""
      | some value ↦ value == preset_name
    ]

abbrev pub build_plugin_name : String → String → String
build_plugin_name preset_name cluster_name = preset_name ++ ("-" ++ cluster_name)

unfoldable pub get_release_name : Plugin → PluginPreset → String
get_release_name plugin preset =
    if not (plugin.release_name == "")
    then plugin.release_name
    else if plugin.has_helm_release_status && plugin.release_name == ""
    then plugin.name
    else preset.spec.plugin_release_name

abbrev not_ready : Condition → String → Condition
not_ready ready message = record ready { status = condition_false; message = message }

-- the last two returns of computeReadyCondition
abbrev ready_by_plugins : Condition → Option Condition → Condition
ready_by_plugins ready none = record ready { status = condition_true; message = "ready" }
ready_by_plugins ready (some all) =
    if is_false all
    then not_ready ready all.message
    else record ready { status = condition_true; message = "ready" }

-- the test of the list of clusters and what follows, none for a nil dereference
abbrev ready_by_clusters : List Condition → Condition → Option Condition
ready_by_clusters conditions ready = elim (get_condition_by_type conditions cluster_list_empty) [
  | none ↦ none
  | some empty ↦ some (
      if is_true empty
      then not_ready ready "No cluster matches ClusterSelector"
      else ready_by_plugins ready (get_condition_by_type conditions all_plugins_ready))
]

-- the test of the definition and what follows
abbrev ready_by_definition : List Condition → Condition → Option Condition
ready_by_definition conditions ready =
    elim (get_condition_by_type conditions plugin_definition_not_found) [
      | none ↦ none
      | some missing ↦
          let rest = ready_by_clusters conditions ready in
          if is_true missing then some (not_ready ready missing.message) else rest
    ]

-- computeReadyCondition, or none for a nil dereference
unfoldable pub compute_preset_ready_condition : List Condition → Option Condition
compute_preset_ready_condition conditions =
    elim (get_condition_by_type conditions ready_condition) [
      | none ↦ none
      | some ready ↦ elim (get_condition_by_type conditions plugin_failed) [
        | none ↦ none
        | some failed ↦
            let rest = ready_by_definition conditions ready in
            if is_true failed
            then some (
                not_ready ready (
                  if failed.reason == plugin_definition_not_found
                  then failed.message
                  else "Plugin reconciliation failed"))
            else rest
      ]
    ]
