-- ===== src/Tracking/Examples.antt =====
-- One resource that is tracked, and a plugin whose value refers to a resource that is not there.
use greenhouse.Prelude.{
  ℕ, String, ◌≡◌, ◌==◌, refl, true, false, Option, none, some, List, [], ◌∷◌, ◌↔◌, contains,
  split_on, has_char, not, ◌&&◌, is_some, Map, lookup,
}
use greenhouse.Platform.{Fetched, found, failed}
use greenhouse.Platform.Examples.{plain_errors, not_found}
use greenhouse.Object.{ObjectMeta}
use greenhouse.Options.{PluginOptionValue, PluginValueFromSource, ExternalValueSource}
use greenhouse.Tracking.{
  Resource, ResourceClient, AnyValues, tracking_id, parse_tracking_id, add_tracking_annotation,
  get_tracker_ids_from_annotations, annotation_key_plugin_tracking_id,
}
use greenhouse.Tracking.Ids.{parse-tracking_id}
use greenhouse.Tracking.Remove.{remove_tracker}
use greenhouse.Tracking.Trackers.{with_new, after, trackers-set}
use greenhouse.Tracking.Release.{TrackingPlugin, CelResolver, compute_release_values}
use greenhouse.Tracking.Missing.{IsDangling, compute_release_values-dangling}

abbrev meta : String → Map String → ObjectMeta
meta name annotations = record {
  name = name;
  namespace = "org";
  labels = [];
  annotations = annotations;
  finalizers = [];
  deletion_timestamp = none;
}

abbrev tracked : ObjectMeta
tracked = meta "o" ((annotation_key_plugin_tracking_id, "Plugin/a;Plugin/b") ∷ [])

parse-tracking_id_example : (parse_tracking_id plain_errors "Plugin/a" ≡ found ("Plugin", "a")) ↔ (
    ("Plugin/a" ≡ tracking_id "Plugin" "a")
    × (has_char "/" "Plugin" ≡ false)
    × (has_char "/" "a" ≡ false))
parse-tracking_id_example = parse-tracking_id plain_errors "Plugin/a" "Plugin" "a"

full : contains (get_tracker_ids_from_annotations tracked) "" ≡ false
unfolding get_tracker_ids_from_annotations split_on lookup
full = refl

trackers-set_example :
    (get_tracker_ids_from_annotations (add_tracking_annotation tracked "Plugin/b")
      ≡ with_new "Plugin/b" (get_tracker_ids_from_annotations tracked))
    × (contains
          (get_tracker_ids_from_annotations (after tracked (remove_tracker tracked "Plugin/b")))
          "Plugin/a"
        ≡ (contains (get_tracker_ids_from_annotations tracked) "Plugin/a"
            && not ("Plugin/a" == "Plugin/b")))
trackers-set_example = trackers-set tracked "Plugin/b" "Plugin/a" refl refl full

-- An API server without any resource; a value is a text or nil.
abbrev no_resources : ResourceClient ℕ ℕ ℕ ℕ String
no_resources = record {
  get = λ gvk namespace name w. failed not_found;
  list = λ gvk selector namespace w. found [];
  update = λ gvk o w. (none, w);
  retry_on_conflict = λ f w. f w;
  label_selector_as_selector = λ selector. found selector;
}

abbrev texts : AnyValues (Option String) String
texts = record {
  nil = none;
  is_nil = λ v. not (is_some v);
  of_slice = λ l. some "[]";
  elements = λ v. none;
  marshal = λ v. found "null";
}

abbrev evaluate : String → Resource ℕ → Fetched (Option String) String
evaluate expression o = found (some expression)

abbrev resolver : CelResolver ℕ ℕ String
resolver = record {
  new_cel_resolver = λ values. found 0;
  evaluate_expression = λ expression data_of. found expression;
  marshal_text = λ text. found text;
}

abbrev plugin : TrackingPlugin
plugin = record { kind = "Plugin"; metadata = meta "p" []; tracked_objects = [] }

abbrev ref : ExternalValueSource ℕ
ref = record { kind = "Plugin"; name = "gone"; selector = none; expression = "object.spec" }

abbrev from : PluginValueFromSource ℕ
from = record { secret = none; ref = some ref }

abbrev value : PluginOptionValue ℕ
value = record { name = "user"; value = none; value_from = some from; expression = none }

abbrev no_aggregate : List String → Option String
no_aggregate l = none

ref-IsDangling :
    IsDangling plain_errors no_resources texts evaluate resolver no_aggregate "Plugin" "org" ref 0
ref-IsDangling = record {
  named = refl;
  no_selector = refl;
  of_kind = refl;
  error = not_found;
  missing = refl;
  not_found = refl;
}

compute_release_values-dangling_example :
    compute_release_values plain_errors no_resources texts evaluate resolver no_aggregate
      (found (value ∷ []))
      plugin
      false
      true
      0
    ≡ (none, plugin, 0)
compute_release_values-dangling_example =
    compute_release_values-dangling plain_errors no_resources texts evaluate resolver no_aggregate
      plugin value from ref [] 0 refl refl refl refl ref-IsDangling refl
