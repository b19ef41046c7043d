-- ===== src/Preset/Cleanup.antt =====
-- cleanupPlugins and EnsureDeleted of internal/controller/plugin/pluginpreset_controller.go.
use Prim.Native.String.{◌++◌}
use greenhouse.Prelude.{
  String, false, ◌==◌, Option, none, some, List, [], ◌∷◌, if◌then◌else◌, contains,
}
use greenhouse.Platform.{Errors, found, failed}
use greenhouse.ClientUtil.{patch}
use greenhouse.Lifecycle.{ReconcileResult, success, failure, pending}
use greenhouse.Preset.{
  Plugin, PluginPreset, PresetClient, deletion_policy_retain, is_plugin_managed_by_preset,
}

module _ {W E : Type 0} (errors : Errors E) (client : PresetClient W E) where
  -- an error of a deletion, unless the plugin is not there
  abbrev pub unless_gone : Option E → Option E
  unless_gone none = none
  unless_gone (some e) = if errors.is_not_found e then none else some e

  abbrev pub stop_at : Option E × W → (W → Option E × W) → Option E × W
  stop_at (some e, w) next = (some e, w)
  stop_at (none, w) next = next w

  abbrev pub delete_plugin : Plugin → W → Option E × W
  delete_plugin p w = let (err, w') = client.plugins.delete p w in (unless_gone err, w')

  -- the loop of cleanupPlugins, for the names of the clusters
  unfoldable pub cleanup_from : List String → List Plugin → W → Option E × W
  cleanup_from clusters [] w = (none, w)
  cleanup_from clusters (p ∷ plugins) w =
      if contains clusters p.cluster_name
      then cleanup_from clusters plugins w
      else stop_at (delete_plugin p w) (cleanup_from clusters plugins)

  unfoldable pub cleanup_plugins : PluginPreset → List String → W → Option E × W
  unfolding cleanup_from
  cleanup_plugins pb clusters w = elim (client.list pb.namespace pb.name w) [
    | failed e ↦ (some e, w)
    | found plugins ↦ cleanup_from clusters plugins w
  ]

  -- the function that the patch of a retained plugin applies
  unfoldable pub release_plugin : PluginPreset → Plugin → Option E × Plugin
  release_plugin preset plugin = elim plugin.owner_references [
    | [] ↦ (none, plugin)
    | r ∷ rs ↦ client.remove_owner_reference preset plugin
  ]

  abbrev pub add_error : Option E → List E × W → List E × W
  add_error none (errs, w) = (errs, w)
  add_error (some e) (errs, w) = (e ∷ errs, w)

  -- the loop for retained plugins, and its errors
  unfoldable pub retain_plugins : PluginPreset → List Plugin → W → List E × W
  unfolding release_plugin
  retain_plugins preset [] w = ([], w)
  retain_plugins preset (plugin ∷ plugins) w =
      if is_plugin_managed_by_preset plugin preset.name
      then (let ((result, err), o, w') =
            patch errors client.plugins plugin (release_plugin preset) false w in
          add_error err (retain_plugins preset plugins w'))
      else retain_plugins preset plugins w

  -- the loop of deletions, and its errors
  unfoldable pub delete_plugins : List Plugin → W → List E × W
  delete_plugins [] w = ([], w)
  delete_plugins (plugin ∷ plugins) w =
      let (err, w') = delete_plugin plugin w in add_error err (delete_plugins plugins w')

  abbrev pub Phase : Type 0
  Phase = (ReconcileResult × Option E) × W

  -- the error that tells of several
  abbrev joined : String → PluginPreset → List E → E
  joined what preset errs =
      errors.wrap (what ++ (preset.namespace ++ ("/" ++ preset.name))) (client.join errs)

  abbrev pub after_retain : PluginPreset → List E × W → Phase
  after_retain preset ([], w) = ((success, none), w)
  after_retain preset (e ∷ errs, w) =
      ((failure, some (joined "failed to process retained plugins for " preset (e ∷ errs))), w)

  abbrev pub after_delete : PluginPreset → List Plugin → List E × W → Phase
  after_delete preset plugins (e ∷ errs, w) =
      ((pending, some (joined "failed to delete plugins for " preset (e ∷ errs))), w)
  after_delete preset [] ([], w) = ((success, none), w)
  after_delete preset (plugin ∷ plugins) ([], w) = ((pending, none), w)

  -- EnsureDeleted
  unfoldable pub ensure_preset_deleted : PluginPreset → W → Phase
  unfolding retain_plugins delete_plugins
  ensure_preset_deleted preset w = elim (client.list preset.namespace preset.name w) [
    | failed e ↦ ((failure, some e), w)
    | found plugins ↦
        if preset.spec.deletion_policy == deletion_policy_retain
        then after_retain preset (retain_plugins preset plugins w)
        else after_delete preset plugins (delete_plugins plugins w)
  ]
