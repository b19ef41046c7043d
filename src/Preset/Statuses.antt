-- ===== src/Preset/Statuses.antt =====
-- reconcilePluginStatuses of internal/controller/plugin/pluginpreset_controller.go.
use Prim.Native.String.{◌++◌}
use mathlib.Core.List.{◌++◌ as append}
use greenhouse.Prelude.{
  ℕ, ◌+◌, ltb, nat_eq, length, ◌&&◌, Option, none, some, List, [], ◌∷◌, if◌then◌else◌, show_nat,
}
use greenhouse.Platform.{found, failed}
use greenhouse.Conditions.{
  Condition, true_condition, false_condition, is_true, get_condition_by_type, ready_condition,
}
use greenhouse.Preset.{
  Plugin, PluginPreset, PresetStatus, ManagedPluginStatus, PresetClient, all_plugins_ready,
  set_preset_condition,
}

-- The local variables of the loop.
pub record Tally : Type 0 where
  pub statuses : List ManagedPluginStatus
  pub ready_count : ℕ
  pub failed_count : ℕ

abbrev pub managed_status : Plugin → Condition → ManagedPluginStatus
managed_status plugin ready = record { plugin_name = plugin.name; ready = ready }

-- the body of the loop, for a Ready condition that may be nil
unfoldable pub add_plugin : Plugin → Option Condition → Tally → Tally
add_plugin plugin none t = t
add_plugin plugin (some ready) t =
    let statuses = append t.statuses (managed_status plugin ready ∷ []) in
    if is_true ready
    then record t { statuses = statuses; ready_count = t.ready_count + 1 }
    else record t { statuses = statuses; failed_count = t.failed_count + 1 }

unfoldable pub tally_plugins : List Plugin → Tally → Tally
unfolding add_plugin
tally_plugins [] t = t
tally_plugins (plugin ∷ plugins) t =
    tally_plugins plugins
      (add_plugin plugin (get_condition_by_type plugin.conditions ready_condition) t)

abbrev pub no_tally : Tally
no_tally = record { statuses = []; ready_count = 0; failed_count = 0 }

-- the condition AllPluginsReady
unfoldable pub all_plugins_ready_condition : ℕ → Tally → Condition
all_plugins_ready_condition now t =
    if ltb 0 (length t.statuses) && nat_eq t.ready_count (length t.statuses)
    then true_condition now all_plugins_ready "" "All plugins are ready"
    else false_condition now all_plugins_ready "" (
        show_nat t.ready_count
        ++ (" of " ++ (show_nat (length t.statuses) ++ " plugins are ready")))

abbrev pub status_of_tally : Tally → PresetStatus → PresetStatus
status_of_tally t status = record status {
  plugin_statuses = t.statuses;
  total_plugins = length t.statuses;
  ready_plugins = t.ready_count;
  failed_plugins = t.failed_count;
}

-- what is left of a preset whose plugins are listed
unfoldable pub store_tally : ℕ → Tally → PluginPreset → PluginPreset
unfolding all_plugins_ready_condition set_preset_condition
store_tally now t preset =
    set_preset_condition now (all_plugins_ready_condition now t)
      (record preset { status = status_of_tally t preset.status })

unfoldable pub reconcile_plugin_statuses :
    {W E : Type 0} → PresetClient W E → ℕ → PluginPreset → W → Option E × PluginPreset
unfolding tally_plugins store_tally
reconcile_plugin_statuses client now preset w = elim (client.list preset.namespace preset.name w) [
  | failed e ↦ (some e, preset)
  | found plugins ↦ (none, store_tally now (tally_plugins plugins no_tally) preset)
]
