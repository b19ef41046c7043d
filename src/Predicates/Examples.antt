-- ===== src/Predicates/Examples.antt =====
-- An organization whose identity provider becomes available after its availability was unknown, and a
-- cluster that becomes ready.
use greenhouse.Prelude.{◌≡◌, refl, not, ◌&&◌, false, none, List, [], ◌∷◌}
use greenhouse.Object.{ObjectMeta}
use greenhouse.Conditions.{
  Condition, true_condition, unknown_condition, ready_condition, is_ready_true, holds,
  get_condition_by_type,
}
use greenhouse.Team.{scim_api_available}
use greenhouse.Predicates.{cluster_update, organization_update}
use greenhouse.Predicates.Flips.{
  watched_cluster, watched_organization, is_unknown_in, updates-flips,
}

abbrev meta : ObjectMeta
meta = record {
  name = "o";
  namespace = "";
  labels = [];
  annotations = [];
  finalizers = [];
  deletion_timestamp = none;
}

abbrev before : List Condition
before =
    unknown_condition 1 scim_api_available "" "" ∷ unknown_condition 1 ready_condition "" "" ∷ []

abbrev after : List Condition
after = true_condition 2 scim_api_available "" "" ∷ true_condition 2 ready_condition "" "" ∷ []

updates-flips_example :
    (cluster_update (watched_cluster meta "direct" before) (watched_cluster meta "direct" after)
      ≡ (not (is_ready_true before) && is_ready_true after))
    × (organization_update (watched_organization meta before) (watched_organization meta after) ≡ (
        (not (holds (get_condition_by_type before scim_api_available))
          && not (is_unknown_in (get_condition_by_type before scim_api_available)))
        && holds (get_condition_by_type after scim_api_available)))
updates-flips_example = updates-flips meta meta "direct" "direct" before after

unknown_missed :
    organization_update (watched_organization meta before) (watched_organization meta after) ≡ false
unfolding organization_update get_condition_by_type
unknown_missed = refl
