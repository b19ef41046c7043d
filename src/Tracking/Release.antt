-- ===== src/Tracking/Release.antt =====
-- computeReleaseValues, getTrackerIDs and what follows a change of values, of
-- internal/controller/plugin/plugin_controller_flux.go; ResolveExpression of internal/helm/cel.go.
use Prim.Native.String.{◌++◌}
use mathlib.Core.List.{◌++◌ as append}
use greenhouse.Prelude.{
  String, Bool, true, not, ◌==◌, Option, none, some, List, [], ◌∷◌, if◌then◌else◌, is_some, insert,
}
use greenhouse.Platform.{Errors, Fetched, found, failed}
use greenhouse.Object.{ObjectMeta}
use greenhouse.Lifecycle.{reconcile_annotation}
use greenhouse.Options.{PluginOptionValue}
use greenhouse.Tracking.{
  GroupVersionKind, build_gvk, Resource, ResourceClient, AnyValues, parse_tracking_id,
  get_tracker_ids_from_annotations,
}
use greenhouse.Tracking.Resolve.{resolve_value_from_ref}
use greenhouse.Tracking.Remove.{remove_untracked_object_annotations}

-- What is read of the plugin, and its tracked objects, which are written.
pub record TrackingPlugin : Type 0 where
  pub kind : String
  pub metadata : ObjectMeta
  pub open metadata use *
  pub tracked_objects : List String

-- NewCELResolver of internal/helm/cel.go and EvaluateExpression of pkg/cel; `D` is template data.
pub record CelResolver (L D E : Type 0) : Type 0 where
  pub new_cel_resolver : List (PluginOptionValue L) → Fetched D E
  pub evaluate_expression : String → D → Fetched String E
  pub marshal_text : String → Fetched String E

module _ {L D E : Type 0} (errors : Errors E) (resolver : CelResolver L D E) where
  abbrev with_value :
      PluginOptionValue L → String → String → Fetched String E → Fetched (PluginOptionValue L) E
  with_value v what after (failed e) = failed (errors.wrap (what ++ (v.name ++ after)) e)
  with_value v what after (found raw) =
      found (record { name = v.name; value = some raw; value_from = none; expression = none })

  unfoldable pub resolve_expression :
      D → PluginOptionValue L → Bool → Fetched (PluginOptionValue L) E
  resolve_expression template_data v enabled = elim v.expression [
    | none ↦ found v
    | some expression ↦
        if not enabled
        then with_value v "failed to marshal literal expression for option " ""
            (resolver.marshal_text expression)
        else with_value v "failed to evaluate expression for option " ""
            (resolver.evaluate_expression expression template_data)
  ]

module _ {V L S W A D E : Type 0} (errors : Errors E) (client : ResourceClient V L S W E)
    (any : AnyValues A E) (cel : String → Resource V → Fetched A E) (resolver : CelResolver L D E)
    (new_aggregate : List E → Option E) where
  -- The values and the tracked objects so far, an error, or none for a nil dereference.
  abbrev pub Loop : Type 0
  Loop = Option (Fetched (List (PluginOptionValue L) × List String) E) × W

  -- the values are those before the current one
  abbrev with_first : PluginOptionValue L → Loop → Loop
  with_first v (some (found (values, tracked)), w) = (some (found (v ∷ values, tracked)), w)
  with_first v (some (failed e), w) = (some (failed e), w)
  with_first v (none, w) = (none, w)

  -- the loop, with the data for expressions if they are evaluated
  unfoldable pub resolve_values :
      TrackingPlugin → Option D → Bool → List (PluginOptionValue L) → List String → W → Loop
  unfolding resolve_value_from_ref resolve_expression
  resolve_values plugin template integration [] tracked w = (some (found ([], tracked)), w)
  resolve_values plugin template integration (v ∷ vs) tracked w =
      let kept = with_first v (resolve_values plugin template integration vs tracked w) in
      let undefined : Loop = (
        some
            (failed (errors.new ("option value " ++ (v.name ++ " has no value or valueFrom set")))),
        w,
      ) in
      if is_some v.value
      then kept
      else if is_some v.expression
      then elim template [
        | none ↦ kept
        | some template_data ↦ elim (resolve_expression errors resolver template_data v true) [
          | failed e ↦ (some (failed e), w)
          | found resolved ↦
              with_first resolved (resolve_values plugin template integration vs tracked w)
        ]
      ]
      else elim v.value_from [
        | none ↦ undefined
        | some from ↦ elim from.ref [
          | none ↦ if is_some from.secret then kept else undefined
          | some ref ↦
              if not integration
              then kept
              else (let (answer, w') =
                    resolve_value_from_ref errors client any cel plugin.kind plugin.namespace
                      plugin.name v.name ref w in
                  elim answer [
                    | failed e ↦ (some (failed e), w')
                    | found r ↦ elim r.0 [
                      | none ↦ (none, w')
                      | some resolved ↦
                          with_first resolved
                            (resolve_values plugin template integration vs (append tracked r.1) w')
                    ]
                  ])
        ]
      ]

  -- the end of computeReleaseValues: what is no longer tracked is cleaned up
  unfoldable pub track :
      TrackingPlugin
      → Bool
      → Loop
      → Option (Fetched (List (PluginOptionValue L)) E) × TrackingPlugin × W
  track plugin integration (none, w) = (none, plugin, w)
  track plugin integration (some (failed e), w) = (some (failed e), plugin, w)
  track plugin integration (some (found (values, tracked)), w) =
      if not integration then (some (found values), plugin, w) else (
        some (found values),
        record plugin { tracked_objects = tracked },
        (remove_untracked_object_annotations errors client new_aggregate plugin.kind
            plugin.namespace plugin.name plugin.tracked_objects tracked w).1,
      )

  -- `option_values` is what GetPluginOptionValuesForPlugin answers.
  unfoldable pub compute_release_values :
      Fetched (List (PluginOptionValue L)) E
      → TrackingPlugin
      → Bool
      → Bool
      → W
      → Option (Fetched (List (PluginOptionValue L)) E) × TrackingPlugin × W
  unfolding resolve_values track
  compute_release_values (failed e) plugin evaluation integration w = (some (failed e), plugin, w)
  compute_release_values (found option_values) plugin evaluation integration w =
      if evaluation
      then elim (resolver.new_cel_resolver option_values) [
        | failed e ↦ (some (failed (errors.wrap "failed to initialize CEL resolver" e)), plugin, w)
        | found template_data ↦
            track plugin integration
              (resolve_values plugin (some template_data) integration option_values [] w)
      ]
      else track plugin integration (resolve_values plugin none integration option_values [] w)

module _ {V L S W E : Type 0} (errors : Errors E) (client : ResourceClient V L S W E)
    (date_time : String) where
  -- the closure that is retried
  unfoldable pub request_once : GroupVersionKind → String → String → W → Option E × W
  request_once gvk namespace name w = elim (client.get gvk namespace name w) [
    | failed e ↦ (some e, w)
    | found o ↦
        (let metadata = record o.metadata {
          annotations = insert reconcile_annotation date_time o.annotations;
        } in
          client.update gvk (record o { metadata = metadata }) w)
  ]

  unfoldable pub update_resource_with_annotation :
      GroupVersionKind → String → String → W → Option E × W
  unfolding request_once
  update_resource_with_annotation gvk namespace name w =
      client.retry_on_conflict (request_once gvk namespace name) w

  unfoldable pub trigger_reconcile_for_tracker : TrackingPlugin → String → W → Option E × W
  unfolding update_resource_with_annotation
  trigger_reconcile_for_tracker plugin tracker_id w = elim (parse_tracking_id errors tracker_id) [
    | failed e ↦ (some e, w)
    | found id ↦
        if id.1 == plugin.name
        then (none, w)
        else update_resource_with_annotation (build_gvk id.0) plugin.namespace id.1 w
  ]

  -- the loop over the trackers, whose errors are only logged
  unfoldable pub trigger_all : TrackingPlugin → List String → W → W
  unfolding trigger_reconcile_for_tracker
  trigger_all plugin [] w = w
  trigger_all plugin (id ∷ ids) w =
      trigger_all plugin ids (trigger_reconcile_for_tracker plugin id w).1

  unfoldable pub reconcile_tracking_resources : TrackingPlugin → String → String → W → W
  unfolding trigger_all
  reconcile_tracking_resources plugin old_checksum new_checksum w =
      if old_checksum == new_checksum
      then w
      else trigger_all plugin (get_tracker_ids_from_annotations plugin.metadata) w
