-- ===== src/Preset/Examples.antt =====
-- A preset with three plugins: one is ready, one has failed and one has no Ready condition yet.
use greenhouse.Prelude.{String, refl, false, none, List, [], ◌∷◌}
use greenhouse.Platform.{found, failed}
use greenhouse.Object.{ObjectMeta}
use greenhouse.Conditions.{Condition, true_condition, false_condition, ready_condition}
use greenhouse.Preset.{Plugin, PluginPreset, PresetClient}
use greenhouse.Preset.Statuses.{reconcile_plugin_statuses}
use greenhouse.Preset.Counts.{IsCounted, reconcile_plugin_statuses-IsCounted}

abbrev meta : String → ObjectMeta
meta name = record {
  name = name;
  namespace = "org";
  labels = ("greenhouse.sap/pluginpreset", "p") ∷ [];
  annotations = [];
  finalizers = [];
  deletion_timestamp = none;
}

abbrev plugin : String → List Condition → Plugin
plugin name conditions = record {
  metadata = meta name;
  owner_references = [];
  cluster_name = name;
  release_name = "";
  has_helm_release_status = false;
  conditions = conditions;
}

abbrev plugins : List Plugin
plugins =
    plugin "a" (true_condition 1 ready_condition "" "" ∷ [])
    ∷ plugin "b" (false_condition 1 ready_condition "" "" ∷ [])
    ∷ plugin "c" []
    ∷ []

abbrev client : PresetClient Unit String
client = record {
  list = λ namespace name w. found plugins;
  plugins = record {
    get = λ o w. failed "404";
    create = λ o w. (none, o, w);
    patch = λ before o w. (none, o, w);
    patch_status = λ before o w. (none, o, w);
    delete = λ o w. (none, w);
    is_deleting = λ o. false;
    deep_equal = λ a b. false;
    full_name = λ o. o.name;
  };
  remove_owner_reference = λ preset o. (none, o);
  join = λ errs. "errors";
}

abbrev preset : PluginPreset
preset = record {
  metadata = meta "p";
  spec = record { plugin_release_name = ""; deletion_policy = "Delete" };
  conditions = [];
  status = record {
    plugin_statuses = [];
    total_plugins = 0;
    ready_plugins = 0;
    failed_plugins = 0;
    plugin_definition_version = "";
  };
}

reconcile_plugin_statuses-IsCounted_example :
    IsCounted plugins (reconcile_plugin_statuses client 5 preset tt).1
reconcile_plugin_statuses-IsCounted_example =
    reconcile_plugin_statuses-IsCounted client 5 preset tt plugins refl
