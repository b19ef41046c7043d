-- ===== src/TeamRbac/Examples.antt =====
-- A namespace with one cluster, `live`, whose API answers every request; everything else is missing.
use greenhouse.Prelude.{
  is_some, visible, ◌↔◌, ◌≡◌, ◌≢◌, refl, subst, String, Bool, true, false, none, some, List, [],
  ◌∷◌, ◌==◌, if◌then◌else◌, All, arith, Slice,
}
use greenhouse.Platform.{Fetched, found, failed}
use greenhouse.Platform.Examples.{plain_errors, not_found}
use greenhouse.ClientUtil.{ObjectClient, create_or_patch, patch, ignore_already_exists}
use greenhouse.Conditions.{
  true_condition, get_condition_by_type, new_condition, condition_false, false_condition,
  unknown_condition, Condition, is_true, set_conditions, stamp, set_condition, replace, equal,
}
use greenhouse.Lifecycle.{success}
use greenhouse.TeamRbac.{
  compute_ready_condition, all_propagated, TeamRoleBinding, PropagationStatus,
  zero_propagation_status, rbac_ready, set_propagation_status, remove_propagation_status,
}
use greenhouse.TeamRbac.Remote.{
  TeamRole, RemoteClient, generate_subjects, reconcile_cluster_role, reconcile_role_binding,
}
use greenhouse.TeamRbac.Cleanup.{Cluster, Hub, cleanup_resources}
use greenhouse.TeamRbac.Controller.{ensure_created, ensure_deleted, status_of}
use greenhouse.TeamRbac.Deploy.{
  do_reconcile, reconcile_clusters, report, reconcile_cluster, reconcile_bindings,
  reconcile_namespaces,
}
use greenhouse.TeamRbac.Status.{reported, reported-set, reported-remove, propagation_of, kept_time}
use greenhouse.TeamRbac.Stuck.{Reports, OthersThan, ensure_deleted-stuck}
use greenhouse.TeamRbac.Success.{says_true, do_reconcile-success}
use greenhouse.TeamRbac.Ready.{status_of-ensure_created, status_of-Ready}
use greenhouse.TeamRbac.Skips.{cleanup_resources-skips}

abbrev live : Cluster
live = record { name = "live"; conditions = true_condition 1 "Ready" "" "" ∷ [] }

abbrev objects : {O : Type 0} → (O → O → Bool) → ObjectClient O Unit String
objects same = record {
  get = λ o w. failed not_found;
  create = λ o w. (none, o, w);
  patch = λ o p w. (none, p, w);
  patch_status = λ o p w. (none, p, w);
  delete = λ o w. (none, w);
  is_deleting = λ o. false;
  deep_equal = same;
  full_name = λ o. "object";
}

abbrev remote : RemoteClient Unit Unit Unit String
remote = record {
  cluster_roles = objects (λ a b. false);
  cluster_role_bindings = objects (λ a b. false);
  role_bindings = objects (λ a b. false);
  list_role_bindings = λ n w. found [];
  create_namespace = λ n w. (none, w);
  has_roles = λ r w. found false;
  has_cluster_role_bindings = λ r w. found false;
  empty_rules = tt;
  no_aggregation_rule = tt;
}

abbrev role : TeamRole Unit Unit
role = record { name = "viewer"; rules = tt; aggregation_rule = tt; labels = [] }

abbrev hub : Hub Unit Unit Unit Unit Unit String
hub = record {
  get_cluster = λ ns n w. if n == "live" then found live else failed not_found;
  label_selector_as_selector = λ l. found tt;
  list_clusters = λ ns sel w. found (live ∷ []);
  get_team_role = λ ns n w. found role;
  get_team = λ ns n w. found (record { name = n; mapped_idp_group = n });
  new_client = λ c w. found remote;
}

abbrev status_on : String → PropagationStatus
status_on n = record {
  cluster_name = n;
  condition = true_condition 2 rbac_ready "RBACReconciled" "";
}

abbrev binding : Slice PropagationStatus → TeamRoleBinding Unit
binding status = record {
  metadata = record {
    name = "trb";
    namespace = "org";
    labels = [];
    annotations = [];
    finalizers = [];
    deletion_timestamp = none;
  };
  spec = record {
    team_role_ref = "viewer";
    team_ref = "";
    team_refs = "admins" ∷ [];
    usernames = [];
    cluster_selector = record { name = ""; label_selector = tt };
    namespaces = "a" ∷ "b" ∷ [];
    create_namespaces = false;
  };
  conditions = [];
  status = status;
}

abbrev bound : TeamRoleBinding Unit
bound = binding (record { array = status_on "live" ∷ status_on "gone" ∷ []; len = 2 })

reported-set_example :
    reported (set_propagation_status 9 "gone" condition_false "Down" "m" bound) "live" ≡ (
      if "gone" == "live"
      then some (
          kept_time (reported bound "gone") (new_condition 9 rbac_ready condition_false "Down" "m"))
      else reported bound "live")
reported-set_example = reported-set 9 "gone" condition_false "Down" "m" bound (omega arith) "live"

reported-remove_example :
    reported (remove_propagation_status "live" bound) "gone"
    ≡ (if "live" == "gone" then none else reported bound "gone")
reported-remove_example = reported-remove "live" bound "gone"

bound-Reports : Reports "org" "gone" bound
unfolding propagation_of
bound-Reports = record { slice = omega arith; entry = refl; place = refl }

from_live :
    (b : Bool) (c : Cluster)
    → (if b then found live else failed not_found) ≡ found c
    → (c.name == "gone") ≡ false
from_live true c h =
    subst
      (λ (r : Fetched Cluster String). elim r [
        | found d ↦ (d.name == "gone") ≡ false
        | failed e ↦ Unit
      ])
      h refl
from_live false c h =
    subst
      (λ (r : Fetched Cluster String). elim r [
        | found d ↦ (d.name == "gone") ≡ false
        | failed e ↦ Unit
      ])
      h tt

gone_not_got :
    (m : String) (w : Unit) (c : Cluster)
    → hub.get_cluster "org" m w ≡ found c
    → (c.name == "gone") ≡ false
gone_not_got m w c h = from_live (m == "live") c h

gone_not_listed :
    (sel w : Unit) (cs : List Cluster)
    → hub.list_clusters "org" sel w ≡ found cs
    → OthersThan "gone" cs
gone_not_listed sel w cs h =
    subst
      (λ (r : Fetched (List Cluster) String). elim r [
        | found l ↦ OthersThan "gone" l
        | failed e ↦ Unit
      ])
      h (refl, tt)

ensure_deleted-stuck_example :
    ((ensure_deleted plain_errors hub 9 bound tt).0.1 ≢ success)
    × Reports "org" "gone" (ensure_deleted plain_errors hub 9 bound tt).1
ensure_deleted-stuck_example =
    ensure_deleted-stuck plain_errors hub 9 "org" "gone" gone_not_got gone_not_listed refl bound tt
      bound-Reports

cleanup_resources-skips_example :
    cleanup_resources plain_errors hub 9
      (record bound {
        status = record { array = status_on "gone" ∷ status_on "lost" ∷ []; len = 2 };
      })
      (live ∷ [])
      tt
    ≡ (
      none,
      record bound {
        status = record { array = status_on "lost" ∷ zero_propagation_status ∷ []; len = 1 };
      },
      tt,
    )
cleanup_resources-skips_example =
    cleanup_resources-skips plain_errors hub 9 bound (status_on "gone") (status_on "lost")
      (live ∷ []) tt not_found not_found refl refl refl refl refl refl refl refl

no_error :
    (do_reconcile plain_errors hub 9 role
      (live ∷ [])
      bound
      (generate_subjects [] ("admins" ∷ []))
      tt).0
    ≡ none
unfolding do_reconcile reconcile_clusters report reconcile_cluster reconcile_cluster_role
    create_or_patch patch ignore_already_exists reconcile_bindings reconcile_namespaces
    reconcile_role_binding
no_error = refl

do_reconcile-success_example :
    All
      (λ c.
        says_true (
          reported
            (do_reconcile plain_errors hub 9 role
              (live ∷ [])
              bound
              (generate_subjects [] ("admins" ∷ []))
              tt).1
            c.name)
        ≡ true)
      (live ∷ [])
    × (says_true (
          get_condition_by_type
            (do_reconcile plain_errors hub 9 role
              (live ∷ [])
              bound
              (generate_subjects [] ("admins" ∷ []))
              tt).1.conditions
            rbac_ready)
        ≡ true)
do_reconcile-success_example =
    do_reconcile-success plain_errors hub 9 role (live ∷ []) bound
      (generate_subjects [] ("admins" ∷ [])) tt (omega arith) no_error

abbrev unowned : TeamRoleBinding Unit → Unit {0} → Condition
unowned trb w = false_condition 9 "OwnerLabelSet" "OwnerLabelMissing" ""

status_of-ensure_created_example :
    is_some (status_of plain_errors hub 9 unowned (ensure_created plain_errors hub 9 bound tt).1 tt)
    ≡ true
status_of-ensure_created_example = status_of-ensure_created plain_errors hub 9 unowned bound tt tt

-- A binding with a Ready condition, and the status that is computed for it.
abbrev waiting : TeamRoleBinding Unit
waiting = record bound { conditions = unknown_condition 3 "Ready" "" "" ∷ [] }

abbrev settled : TeamRoleBinding Unit
settled = record waiting {
  conditions =
      record (true_condition 3 "Ready" "" "ready") { last_transition_time = 3 }
      ∷ false_condition 9 "OwnerLabelSet" "OwnerLabelMissing" ""
      ∷ [];
}

settled_computed : status_of plain_errors hub 9 unowned waiting tt ≡ some settled
unfolding status_of compute_ready_condition all_propagated get_condition_by_type set_conditions
    stamp set_condition replace equal
settled_computed = refl

status_of-Ready_example :
    (says_true (get_condition_by_type settled.conditions "Ready") ≡ true)
    ↔ All (λ ps. is_true ps.condition ≡ true) (visible waiting.status)
status_of-Ready_example =
    status_of-Ready plain_errors hub 9 unowned waiting settled tt refl settled_computed
