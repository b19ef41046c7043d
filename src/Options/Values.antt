-- ===== src/Options/Values.antt =====
-- GetGreenhouseValues and GetPluginOptionValuesForPlugin of internal/helm/values.go: the values that
-- the central cluster adds to those of a plugin. GetPluginDefinitionSpec is of
-- internal/common/plugindefinition.go.
use Prim.Native.String.{◌++◌}
use mathlib.Core.List.{◌++◌ as append}
use greenhouse.Prelude.{
  String, ◌==◌, Option, none, some, List, [], ◌∷◌, Map, lookup, if◌then◌else◌, cut_prefix,
  sort_strings,
}
use greenhouse.Platform.{Errors, Fetched, found, failed}
use greenhouse.Object.{ObjectMeta}
use greenhouse.Owner.{label_key_owned_by}
use greenhouse.Options.{PluginOption, PluginOptionValue, JsonCodec}
use greenhouse.Options.Merge.{
  merge_plugin_option_values, merge_plugin_and_plugin_option_value_slice,
}

abbrev pub label_key_metadata_prefix : String
label_key_metadata_prefix = "metadata.greenhouse.sap/"

unfoldable pub extract_metadata_key : String → String
extract_metadata_key label_key = elim (cut_prefix label_key label_key_metadata_prefix) [
  | none ↦ ""
  | some result ↦ result
]

-- What is read of a Plugin.
pub record Plugin (L : Type 0) : Type 0 where
  pub metadata : ObjectMeta
  pub open metadata use *
  pub cluster_name : String
  pub definition_kind : String
  pub definition_name : String
  pub option_values : List (PluginOptionValue L)

-- The answers of the API server, by namespace: the names of the clusters and teams, the labels
-- of a cluster, the options of a definition.
pub record Central (E : Type 0) : Type 0 where
  pub list_clusters : String → Fetched (List String) E
  pub list_teams : String → Fetched (List String) E
  pub get_cluster : String → String → Fetched (Map String) E
  pub get_plugin_definition : String → String → Fetched (Option (List PluginOption)) E
  pub get_cluster_plugin_definition : String → Fetched (Option (List PluginOption)) E

module _ {L : Type 0} where
  abbrev pub plain : String → String → PluginOptionValue L
  plain name value = record {
    name = name;
    value = some value;
    value_from = none;
    expression = none;
  }

  -- append the value of an encoded text, unless something failed
  abbrev pub add_value :
      {E : Type 0}
      → String
      → Fetched String E
      → Fetched (List (PluginOptionValue L)) E
      → Fetched (List (PluginOptionValue L)) E
  add_value name raw (failed e) = failed e
  add_value name (failed e) (found values) = failed e
  add_value name (found raw) (found values) = found (append values (plain name raw ∷ []))

-- a call, and what follows it if it does not fail
abbrev pub and_then : {A B E : Type 0} → Fetched A E → (A → Fetched B E) → Fetched B E
and_then (failed e) f = failed e
and_then (found a) f = f a

module _ {E : Type 0} (errors : Errors E) (central : Central E) where
  -- GetPluginDefinitionSpec, of the spec the options
  unfoldable pub get_plugin_definition_options :
      String → String → String → Fetched (Option (List PluginOption)) E
  get_plugin_definition_options kind name namespace =
      if kind == "PluginDefinition"
      then elim (central.get_plugin_definition namespace name) [
        | found options ↦ found options
        | failed e ↦ failed (
            errors.new (
              if errors.is_not_found e
              then "PluginDefinition " ++ (name ++ (" does not exist in namespace " ++ namespace))
              else "failed to get PluginDefinition "
                ++ (name ++ (" from namespace " ++ (namespace ++ (": " ++ errors.text e))))))
      ]
      else if kind == "ClusterPluginDefinition"
      then elim (central.get_cluster_plugin_definition name) [
        | found options ↦ found options
        | failed e ↦ failed (
            errors.new (
              if errors.is_not_found e
              then "ClusterPluginDefinition " ++ (name ++ " does not exist")
              else "failed to get ClusterPluginDefinition " ++ (name ++ (": " ++ errors.text e))))
      ]
      else if kind == ""
      then failed (errors.new "PluginDefinitionRef.Kind has not been set")
      else failed (errors.new ("unsupported PluginDefinition kind: " ++ kind))

  module _ (L : Type 0) (json : JsonCodec E) (encode_strings : List String → Fetched String E)
      (dns_domain : String) where
    abbrev Values : Type 0
    Values = List (PluginOptionValue L)

    -- stringSliceToHelmValue
    abbrev pub string_slice_to_helm_value : List String → Fetched String E
    string_slice_to_helm_value the_slice = encode_strings (sort_strings the_slice)

    -- the loop over the labels of a cluster
    unfoldable pub metadata_values : Map String → Values
    unfolding extract_metadata_key
    metadata_values [] = []
    metadata_values ((key, value) ∷ labels) =
        let rest = metadata_values labels in
        if extract_metadata_key key == "" then rest else elim (json.encode_string value) [
          | failed e ↦ rest
          | found raw ↦ plain ("global.greenhouse.metadata." ++ extract_metadata_key key) raw ∷ rest
        ]

    -- the values for spec.clusterName
    unfoldable pub add_cluster_values : Plugin L → Fetched Values E → Fetched Values E
    unfolding metadata_values
    add_cluster_values p values =
        if p.cluster_name == ""
        then values
        else and_then
            (add_value "global.greenhouse.clusterName" (json.encode_string p.cluster_name) values)
            (λ l. elim (central.get_cluster p.namespace p.cluster_name) [
              | failed e ↦ found l
              | found labels ↦ found (append l (metadata_values labels))
            ])

    -- the value for the owning team
    unfoldable pub add_owner_value : Plugin L → Fetched Values E → Fetched Values E
    add_owner_value p values = elim (lookup label_key_owned_by p.labels) [
      | none ↦ values
      | some owner ↦
          if owner == ""
          then values
          else add_value "global.greenhouse.ownedBy" (json.encode_string owner) values
    ]

    unfoldable pub get_greenhouse_values : Plugin L → Fetched Values E
    unfolding add_cluster_values add_owner_value
    get_greenhouse_values p = and_then (central.list_clusters p.namespace) (λ cluster_names.
        and_then
          (add_value "global.greenhouse.clusterNames" (string_slice_to_helm_value cluster_names)
            (found []))
          (λ with_clusters. and_then (central.list_teams p.namespace) (λ team_names.
            add_owner_value p (
              add_value "global.greenhouse.baseDomain" (json.encode_string dns_domain) (
                add_cluster_values p (
                  add_value "global.greenhouse.organizationName" (json.encode_string p.namespace) (
                    add_value "global.greenhouse.teamNames" (string_slice_to_helm_value team_names)
                      (found with_clusters))))))))

    -- `sort` is sort.Slice by the names.
    unfoldable pub get_plugin_option_values_for_plugin :
        (sort : Values → Values) → Plugin L → Fetched Values E
    unfolding get_plugin_definition_options get_greenhouse_values
    get_plugin_option_values_for_plugin sort plugin =
        and_then
          (get_plugin_definition_options plugin.definition_kind plugin.definition_name
            plugin.namespace)
          (λ options. and_then (get_greenhouse_values plugin) (λ greenhouse_values. found (
            merge_plugin_option_values
              (merge_plugin_and_plugin_option_value_slice sort options plugin.option_values)
              greenhouse_values)))
