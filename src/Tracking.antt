-- ===== src/Tracking.antt =====
-- internal/controller/plugin/plugin_values_resolver.go: option values that are taken from other
-- resources, and the record of who takes them. A resource carries the ids of its trackers in an
-- annotation; the ids of the resources that a plugin takes values from are in its status.
-- Tracking/Resolve has the values, Tracking/Remove the clean-up, and Tracking/Release the caller,
-- computeReleaseValues of plugin_controller_flux.go.
pub mod Resolve
pub mod Remove
pub mod Release
pub mod Ids
pub mod Trackers
pub mod Missing
mod Examples
use Prim.Native.String.{◌++◌}
use mathlib.Core.List.{◌++◌ as append}
use greenhouse.Prelude.{
  String, Bool, true, false, ◌==◌, Option, none, some, List, [], ◌∷◌, if◌then◌else◌, Map, lookup,
  insert, contains, split_on, join_with, is_some, delete_func,
}
use greenhouse.Platform.{Errors, Fetched, found, failed}
use greenhouse.Object.{ObjectMeta}
use greenhouse.Options.{PluginOptionValue}

abbrev pub label_key_plugin_integration : String
label_key_plugin_integration = "greenhouse.sap/integration"

abbrev pub label_value_plugin_integration : String
label_value_plugin_integration = "true"

abbrev pub annotation_key_plugin_tracking_id : String
annotation_key_plugin_tracking_id = "greenhouse.sap/tracking-id"

-- schema.GroupVersionKind
pub record GroupVersionKind : Type 0 where
  pub group : String
  pub version : String
  pub kind : String

abbrev pub build_gvk : String → GroupVersionKind
build_gvk kind = record { group = "greenhouse.sap"; version = "v1alpha1"; kind = kind }

-- unstructured.Unstructured: its metadata and the rest
pub record Resource (V : Type 0) : Type 0 where
  pub metadata : ObjectMeta
  pub open metadata use *
  pub content : V

unfoldable pub tracking_id : String → String → String
tracking_id kind name = kind ++ ("/" ++ name)

-- parseTrackingID, once the id is split
abbrev pub two_parts :
    {E : Type 0} → Fetched (String × String) E → List String → Fetched (String × String) E
two_parts invalid (kind ∷ name ∷ []) = found (kind, name)
two_parts invalid _ = invalid

unfoldable pub parse_tracking_id : {E : Type 0} → Errors E → String → Fetched (String × String) E
parse_tracking_id errors id =
    two_parts (failed (errors.new ("invalid tracking ID format: " ++ id))) (split_on "/" id)

unfoldable pub add_plugin_integration_label : ObjectMeta → ObjectMeta
add_plugin_integration_label o =
    if is_some (lookup label_key_plugin_integration o.labels) then o else record o {
      labels = insert label_key_plugin_integration label_value_plugin_integration o.labels;
    }

-- the annotation set to a text
abbrev pub annotate : String → ObjectMeta → ObjectMeta
annotate value o = record o {
  annotations = insert annotation_key_plugin_tracking_id value o.annotations;
}

unfoldable pub add_tracking_annotation : ObjectMeta → String → ObjectMeta
add_tracking_annotation o tracker = elim (lookup annotation_key_plugin_tracking_id o.annotations) [
  | none ↦ annotate tracker o
  | some val ↦
      if val == ""
      then annotate tracker o
      else if contains (split_on ";" val) tracker
      then o
      else annotate (join_with ";" (append (split_on ";" val) (tracker ∷ []))) o
]

unfoldable pub get_tracker_ids_from_annotations : ObjectMeta → List String
get_tracker_ids_from_annotations o = elim (lookup annotation_key_plugin_tracking_id o.annotations) [
  | none ↦ []
  | some ids ↦ if ids == "" then [] else split_on ";" ids
]

module _ {L : Type 0} where
  -- o.ValueFrom == nil || o.ValueFrom.Ref == nil
  unfoldable pub no_reference : PluginOptionValue L → Bool
  no_reference o = elim o.value_from [
    | none ↦ true
    | some from ↦ elim from.ref [ none ↦ true | some ref ↦ false ]
  ]

  abbrev pub filter_value_ref_options : List (PluginOptionValue L) → List (PluginOptionValue L)
  filter_value_ref_options option_values = delete_func option_values no_reference

-- The API server, for resources of any kind: namespaces come before names. `S` is a parsed label
-- selector. `retry_on_conflict` is retry.RetryOnConflict(retry.DefaultRetry, f) of client-go.
pub record ResourceClient (V L S W E : Type 0) : Type 0 where
  pub get : GroupVersionKind → String → String → W → Fetched (Resource V) E
  pub list : GroupVersionKind → S → String → W → Fetched (List (Resource V)) E
  pub update : GroupVersionKind → Resource V → W → Option E × W
  pub retry_on_conflict : (W → Option E × W) → W → Option E × W
  pub label_selector_as_selector : L → Fetched S E

-- Values of Go's `any`: nil, and those that are slices.
pub record AnyValues (A E : Type 0) : Type 0 where
  pub nil : A
  pub is_nil : A → Bool
  pub of_slice : List A → A
  pub elements : A → Option (List A)
  pub marshal : A → Fetched String E
