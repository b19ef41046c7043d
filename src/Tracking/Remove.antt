-- ===== src/Tracking/Remove.antt =====
-- removeUntrackedObjectAnnotations and removeTrackingAnnotation of
-- internal/controller/plugin/plugin_values_resolver.go.
use mathlib.Core.List.{◌++◌ as append}
use greenhouse.Prelude.{
  nat_eq, ltb, length, String, not, ◌==◌, Option, none, some, List, [], ◌∷◌, if◌then◌else◌, lookup,
  remove, contains, split_on, join_with,
}
use greenhouse.Platform.{Errors, found, failed}
use greenhouse.Object.{ObjectMeta}
use greenhouse.Tracking.{
  GroupVersionKind, build_gvk, ResourceClient, tracking_id, parse_tracking_id, annotate,
  annotation_key_plugin_tracking_id,
}

-- the loop that keeps the other trackers
abbrev pub without : String → List String → List String
without tracker [] = []
without tracker (t ∷ ts) =
    let rest = without tracker ts in if not (t == tracker) then t ∷ rest else rest

-- findUntrackedObjects: the objects of the first list that the second does not have
abbrev pub find_untracked_objects : List String → List String → List String
find_untracked_objects [] current_tracked = []
find_untracked_objects (id ∷ ids) current_tracked =
    let rest = find_untracked_objects ids current_tracked in
    if not (contains current_tracked id) then id ∷ rest else rest

-- the switch over the trackers that are left; none if nothing is to be updated
unfoldable pub keep_trackers : ObjectMeta → List String → List String → Option ObjectMeta
keep_trackers o trackers updated =
    if nat_eq (length updated) 0
    then some (record o { annotations = remove annotation_key_plugin_tracking_id o.annotations })
    else if ltb (length updated) (length trackers)
    then some (annotate (join_with ";" updated) o)
    else none

-- what the closure does to the metadata
unfoldable pub remove_tracker : ObjectMeta → String → Option ObjectMeta
unfolding keep_trackers
remove_tracker o tracker = elim (lookup annotation_key_plugin_tracking_id o.annotations) [
  | none ↦ none
  | some value ↦
      if value == ""
      then none
      else keep_trackers o (split_on ";" value) (without tracker (split_on ";" value))
]

-- utilerrors.NewAggregate is a function of the errors, nil for none.
module _ {V L S W E : Type 0} (errors : Errors E) (client : ResourceClient V L S W E)
    (new_aggregate : List E → Option E) where
  -- the closure that is retried
  unfoldable pub remove_once : GroupVersionKind → String → String → String → W → Option E × W
  unfolding remove_tracker
  remove_once gvk namespace name tracker w = elim (client.get gvk namespace name w) [
    | failed e ↦ (if errors.is_not_found e then none else some e, w)
    | found o ↦ elim (remove_tracker o.metadata tracker) [
      | none ↦ (none, w)
      | some metadata ↦ client.update gvk (record o { metadata = metadata }) w
    ]
  ]

  unfoldable pub remove_tracking_annotation : String → String → String → W → Option E × W
  unfolding remove_once
  remove_tracking_annotation namespace object_id tracker w =
      elim (parse_tracking_id errors object_id) [
        | failed e ↦ (some e, w)
        | found id ↦
            client.retry_on_conflict (remove_once (build_gvk id.0) namespace id.1 tracker) w
      ]

  -- the loop over the untracked objects
  unfoldable pub remove_all_annotations : String → List String → String → List E → W → List E × W
  unfolding remove_tracking_annotation
  remove_all_annotations namespace [] tracker all_errors w = (all_errors, w)
  remove_all_annotations namespace (id ∷ ids) tracker all_errors w =
      let (err, w') = remove_tracking_annotation namespace id tracker w in
      remove_all_annotations namespace ids tracker
        (elim err [ none ↦ all_errors | some e ↦ append all_errors (e ∷ []) ]) w'

  -- removeUntrackedObjectAnnotations, by the kind, namespace, name and tracked objects of the plugin
  unfoldable pub remove_untracked_object_annotations :
      String → String → String → List String → List String → W → Option E × W
  unfolding remove_all_annotations
  remove_untracked_object_annotations kind namespace name previous current w =
      let untracked = find_untracked_objects previous current in
      if nat_eq (length previous) 0
      then (none, w)
      else if nat_eq (length untracked) 0
      then (none, w)
      else (let (all_errors, w') =
            remove_all_annotations namespace untracked (tracking_id kind name) [] w in
          (new_aggregate all_errors, w'))
