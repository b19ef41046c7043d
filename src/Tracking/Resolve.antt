-- ===== src/Tracking/Resolve.antt =====
-- ResolveValueFromRef of internal/controller/plugin/plugin_values_resolver.go, and what it calls.
-- `cel` is Evaluate of pkg/cel. Errors of the tracking annotation are only logged.
use Prim.Native.String.{◌++◌}
use mathlib.Core.List.{◌++◌ as append}
use greenhouse.Prelude.{String, ◌==◌, Option, none, some, List, [], ◌∷◌, if◌then◌else◌}
use greenhouse.Platform.{Errors, Fetched, found, failed}
use greenhouse.Options.{PluginOptionValue, ExternalValueSource}
use greenhouse.Tracking.{
  GroupVersionKind, build_gvk, Resource, ResourceClient, AnyValues, tracking_id,
  add_plugin_integration_label, add_tracking_annotation,
}

module _ {A E : Type 0} (any : AnyValues A E) where
  unfoldable pub append_to_slice : List A → A → List A
  append_to_slice dst v = elim (any.elements v) [
    | some elements ↦ append dst elements
    | none ↦ append dst (v ∷ [])
  ]

module _ {V L S W A E : Type 0} (errors : Errors E) (client : ResourceClient V L S W E)
    (any : AnyValues A E) (cel : String → Resource V → Fetched A E) where
  -- the closure that is retried
  unfoldable pub annotate_once : GroupVersionKind → String → String → String → W → Option E × W
  annotate_once gvk namespace name tracker w = elim (client.get gvk namespace name w) [
    | failed e ↦ (some e, w)
    | found o ↦
        (let labelled = add_plugin_integration_label o.metadata in
          client.update gvk (record o { metadata = add_tracking_annotation labelled tracker }) w)
  ]

  unfoldable pub annotate_object_with_tracking :
      GroupVersionKind → String → String → String → W → Option E × W
  unfolding annotate_once
  annotate_object_with_tracking gvk namespace name tracker w =
      client.retry_on_conflict (annotate_once gvk namespace name tracker) w

  unfoldable pub resolve_by_name :
      GroupVersionKind → String → ExternalValueSource L → String → W → Fetched A E × W
  unfolding annotate_object_with_tracking
  resolve_by_name gvk namespace ref tracker w = elim (client.get gvk namespace ref.name w) [
    | failed e ↦ (if errors.is_not_found e then found any.nil else failed e, w)
    | found o ↦ elim (cel ref.expression o) [
      | failed e ↦ (failed e, w)
      | found value ↦
          (found value, (annotate_object_with_tracking gvk namespace ref.name tracker w).1)
    ]
  ]

  abbrev pub Processed : Type 0
  Processed = Fetched (List A × List String) E × W

  -- the loop from some values and tracked objects on
  unfoldable pub process_from :
      GroupVersionKind → String → String → List (Resource V) → List A → List String → W → Processed
  unfolding append_to_slice annotate_object_with_tracking
  process_from gvk expression tracker [] values tracked w = (found (values, tracked), w)
  process_from gvk expression tracker (item ∷ items) values tracked w =
      let skipped = process_from gvk expression tracker items values tracked w in
      let id = tracking_id gvk.kind item.name in
      if id == tracker then skipped else elim (cel expression item) [
        | failed e ↦ (
          failed (
              errors.wrap
                ("failed to evaluate CEL expression from object "
                  ++ (item.namespace ++ ("/" ++ item.name)))
                e),
          w,
        )
        | found value ↦
            process_from gvk expression tracker items (append_to_slice any values value)
              (append tracked (id ∷ []))
              (annotate_object_with_tracking gvk item.namespace item.name tracker w).1
      ]

  unfoldable pub process_resource_list :
      GroupVersionKind → String → String → List (Resource V) → W → Processed
  unfolding process_from
  process_resource_list gvk expression tracker items w =
      process_from gvk expression tracker items [] [] w

  -- The slice of values is an `any` that is not nil, even if no resource is listed.
  abbrev pub Resolved : Type 0
  Resolved = Fetched (A × List String) E × W

  abbrev as_any : Processed → Resolved
  as_any (failed e, w) = (failed e, w)
  as_any (found (values, tracked), w) = (found (any.of_slice values, tracked), w)

  unfoldable pub resolve_many : GroupVersionKind → S → String → String → String → W → Resolved
  unfolding process_resource_list
  resolve_many gvk selector namespace expression tracker w =
      elim (client.list gvk selector namespace w) [
        | failed e ↦ (failed e, w)
        | found items ↦ as_any (process_resource_list gvk expression tracker items w)
      ]

  unfoldable pub resolve_by_selector :
      GroupVersionKind → String → String → L → String → W → Resolved
  unfolding resolve_many
  resolve_by_selector gvk namespace expression label_selector tracker w =
      elim (client.label_selector_as_selector label_selector) [
        | failed e ↦ (failed e, w)
        | found selector ↦ resolve_many gvk selector namespace expression tracker w
      ]

  -- An option value, or nil, and the tracked objects.
  abbrev pub Answer : Type 0
  Answer = Fetched (Option (PluginOptionValue L) × List String) E × W

  -- the end of resolveValueFromRef
  unfoldable pub option_of : String → A → List String → W → Answer
  option_of name value tracked w =
      if any.is_nil value then (found (none, tracked), w) else elim (any.marshal value) [
        | failed e ↦ (failed e, w)
        | found raw ↦
            (let v : PluginOptionValue L = record {
              name = name;
              value = some raw;
              value_from = none;
              expression = none;
            } in
              (found (some v, tracked), w))
      ]

  -- the second part of resolveValueFromRef: the selector
  unfoldable pub select :
      String
      → String
      → ExternalValueSource L
      → GroupVersionKind
      → String
      → A
      → List String
      → W
      → Answer
  unfolding resolve_by_selector option_of
  select name namespace ref gvk tracker value tracked w = elim ref.selector [
    | none ↦ option_of name value tracked w
    | some label_selector ↦
        (let (resolved, w') =
            resolve_by_selector gvk namespace ref.expression label_selector tracker w in
          elim resolved [
            | failed e ↦ (failed e, w')
            | found r ↦ option_of name r.0 (append tracked r.1) w'
          ])
  ]

  -- the end of the first part of resolveValueFromRef: the name
  unfoldable pub select_after :
      String → String → ExternalValueSource L → String → String → Fetched A E × W → Answer
  unfolding select
  select_after name namespace ref kind tracker (failed e, w) = (failed e, w)
  select_after name namespace ref kind tracker (found value, w) =
      select name namespace ref (build_gvk kind) tracker value (tracking_id kind ref.name ∷ []) w

  -- resolveValueFromRef once the kind is known
  unfoldable pub resolve_kind :
      String → String → ExternalValueSource L → String → String → W → Answer
  unfolding resolve_by_name select select_after
  resolve_kind name namespace ref kind tracker w =
      if ref.name == ""
      then select name namespace ref (build_gvk kind) tracker any.nil [] w
      else select_after name namespace ref kind tracker
          (resolve_by_name (build_gvk kind) namespace ref tracker w)

  -- resolveValueFromRef, for an option with a reference
  unfoldable pub resolve_from :
      String → String → ExternalValueSource L → String → String → W → Answer
  unfolding resolve_kind
  resolve_from name namespace ref default_kind tracker w =
      resolve_kind name namespace ref (if ref.kind == "" then default_kind else ref.kind) tracker w

  -- ResolveValueFromRef, by the kind, namespace and name of the plugin
  unfoldable pub resolve_value_from_ref :
      String → String → String → String → ExternalValueSource L → W → Answer
  unfolding resolve_from
  resolve_value_from_ref kind namespace plugin option ref w =
      resolve_from option namespace ref kind (tracking_id kind plugin) w
