-- ===== src/TeamRbac.antt =====
-- TeamRoleBindings: api/v1alpha2/teamrolebinding_types.go, and the parts of
-- internal/controller/teamrbac/teamrolebinding_controller.go that touch the binding alone.
-- The children hold the remote objects (Remote), the cleanup loops (Cleanup), the deployment
-- (Deploy) and the controller's methods (Controller), then what is proved of them.
pub mod Remote
pub mod Cleanup
pub mod Deploy
pub mod Controller
pub mod Status
pub mod Stuck
pub mod Success
pub mod Skips
pub mod Presence
pub mod Ready
mod Examples
use Prim.Native.String.{◌++◌}
use greenhouse.Prelude.{
  ℕ, zero, suc, String, Bool, true, false, not, ◌&&◌, ◌==◌, Option, none, some, List, [], ◌∷◌,
  if◌then◌else◌, contains_func, Slice, visible, slice_delete_func, slice_update, slice_append, map,
}
use greenhouse.Object.{RuntimeObject}
use greenhouse.Conditions.{
  ConditionStatus, Condition, condition_true, condition_false, condition_unknown, status_eq,
  is_true, new_condition, unknown_condition, get_condition_by_type, ready_condition,
  owner_label_set_condition,
}
use greenhouse.Lifecycle.{set_condition}

abbrev pub rbac_ready : String
rbac_ready = "RBACReady"

abbrev pub rbac_prefix : String
rbac_prefix = "greenhouse:"

-- `L` is metav1.LabelSelector.
pub record ClusterSelector (L : Type 0) : Type 0 where
  pub name : String
  pub label_selector : L

pub record TeamRoleBindingSpec (L : Type 0) : Type 0 where
  pub team_role_ref : String
  pub team_ref : String
  pub team_refs : List String
  pub usernames : List String
  pub cluster_selector : ClusterSelector L
  pub namespaces : List String
  pub create_namespaces : Bool

pub record PropagationStatus : Type 0 where
  pub cluster_name : String
  pub condition : Condition

-- Go's zero value. Its status is the empty text there, which is not true, and is never compared.
abbrev pub zero_propagation_status : PropagationStatus
zero_propagation_status = record {
  cluster_name = "";
  condition = record {
    type = "";
    status = condition_unknown;
    reason = "";
    last_transition_time = 0;
    message = "";
  };
}

-- The status beside its conditions is the slice of propagation statuses.
abbrev pub TeamRoleBinding : Type 0 → Type 0
TeamRoleBinding L = RuntimeObject (TeamRoleBindingSpec L) (Slice PropagationStatus)

-- The loop of SetPropagationStatus over the statuses that are there.
unfoldable pub overwrite : String → Condition → List PropagationStatus → List PropagationStatus
overwrite cluster c [] = []
overwrite cluster c (ps ∷ rest) =
    if ps.cluster_name == cluster
    then record ps {
      condition =
          if status_eq ps.condition.status c.status
          then record c { last_transition_time = ps.condition.last_transition_time }
          else c;
    }
      ∷ rest
    else ps ∷ overwrite cluster c rest

abbrev pub has_cluster : List PropagationStatus → String → Bool
has_cluster statuses cluster = contains_func statuses (λ ps. ps.cluster_name == cluster)

abbrev exposed_conditions : List String
exposed_conditions = ready_condition ∷ rbac_ready ∷ owner_label_set_condition ∷ []

-- The loop of computeReadyCondition: whether it runs to its end.
unfoldable pub all_propagated : List PropagationStatus → Bool
all_propagated [] = true
all_propagated (ps ∷ rest) = if is_true ps.condition then all_propagated rest else false

module _ {L : Type 0} where
  -- SetPropagationStatus, at the time `now`
  unfoldable pub set_propagation_status :
      ℕ → String → ConditionStatus → String → String → TeamRoleBinding L → TeamRoleBinding L
  set_propagation_status now cluster status reason message trb =
      let c = new_condition now rbac_ready status reason message in
      record trb {
        status =
            if has_cluster (visible trb.status) cluster
            then slice_update (overwrite cluster c) trb.status
            else slice_append (record { cluster_name = cluster; condition = c }) trb.status;
      }

  unfoldable pub remove_propagation_status : String → TeamRoleBinding L → TeamRoleBinding L
  remove_propagation_status cluster trb = record trb {
    status =
        slice_delete_func zero_propagation_status (λ ps. ps.cluster_name == cluster) trb.status;
  }

  abbrev pub get_rbac_name : TeamRoleBinding L → String
  get_rbac_name trb = rbac_prefix ++ trb.name

  abbrev pub is_cluster_scoped : TeamRoleBinding L → Bool
  is_cluster_scoped trb = elim trb.spec.namespaces [ [] ↦ true | n ∷ ns ↦ false ]

  unfoldable pub resolve_team_refs : TeamRoleBinding L → List String
  resolve_team_refs trb = elim trb.spec.team_refs [
    | [] ↦ if trb.spec.team_ref == "" then [] else trb.spec.team_ref ∷ []
    | r ∷ rs ↦ r ∷ rs
  ]

  init_conditions : ℕ → List String → TeamRoleBinding L → TeamRoleBinding L
  init_conditions now [] trb = trb
  init_conditions now (ct ∷ cts) trb =
      init_conditions now cts (elim (get_condition_by_type trb.conditions ct) [
        | none ↦ set_condition now (unknown_condition now ct "" "") trb
        | some c ↦ trb
      ])

  -- initTeamRoleBindingStatus
  unfoldable pub init_team_role_binding_status : ℕ → TeamRoleBinding L → TeamRoleBinding L
  unfolding init_conditions
  init_team_role_binding_status now trb = init_conditions now exposed_conditions trb

  -- computeReadyCondition; `none` is its nil dereference, of a status with no Ready condition
  unfoldable pub compute_ready_condition : TeamRoleBinding L → Option Condition
  compute_ready_condition trb = elim (get_condition_by_type trb.conditions ready_condition) [
    | none ↦ none
    | some ready ↦ some (
        if all_propagated (visible trb.status)
        then record ready { status = condition_true; message = "ready" }
        else record ready { status = condition_false; message = "Team RBAC reconciliation failed" })
  ]
