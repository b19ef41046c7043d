-- ===== src/Cluster/Typed.antt =====
-- The types of the seven conditions that setConditions computes
-- (internal/controller/cluster/cluster_status.go).
use greenhouse.Prelude.{
  ℕ, String, true, false, ◌≡◌, refl, ◌∙◌, Option, none, some, List, [], ◌∷◌, Map, arith, inl, inr,
  Bool-cases, Option-cases, lookup,
}
use greenhouse.Platform.{Errors, Fetched, found, failed, Fetched-cases}
use greenhouse.Object.{ObjectMeta}
use greenhouse.Conditions.{Condition, unknown_condition, ready_condition, owner_label_set_condition}
use greenhouse.Conditions.Given.{types}
use greenhouse.Owner.{label_key_owned_by, compute_owner_label_condition, condition_of_owner}
use greenhouse.Permissions.{AccessReviews}
use greenhouse.Cluster.{
  Node, Cluster, Secret, Nodes, Remotes, all_nodes_ready, payload_schedulable, kube_config_valid,
  permissions_verified, managed_resources_deployed,
}
use greenhouse.Cluster.Managed.{bootstrap-reaches}
use greenhouse.Cluster.NodeCount.{count_one, type-add_node}
use greenhouse.Cluster.NodeStates.{
  Tally, is_control_plane, no_nodes, get_node_status_if_node_not_ready, reconcile_node_status,
  count_nodes,
}
use greenhouse.Cluster.Status.{
  Findings, ready_from, reconcile_ready_status, reconcile_permissions, reconcile_kube_config_valid,
  findings_without_access, schedulable_on, findings_with_access, findings_of, conditions_of,
}

type-condition_of_owner :
    {E : Type 0} (errors : Errors E) (get_team : String → String → Fetched (Map String) E) (now : ℕ)
    (namespace owner : String)
    → (condition_of_owner errors get_team now namespace owner).type ≡ owner_label_set_condition
unfolding condition_of_owner
type-condition_of_owner errors get_team now namespace owner =
    elim (Fetched-cases (get_team namespace owner)) [
      | inl (labels, e) ↦ rw (condition_of_owner, e) (ground arith)
      | inr (x, e) ↦ rw (condition_of_owner, e) refl
    ]

type-owner_label :
    {E : Type 0} (errors : Errors E) (get_team : String → String → Fetched (Map String) E) (now : ℕ)
    (o : ObjectMeta)
    → (compute_owner_label_condition errors get_team now o).type ≡ owner_label_set_condition
unfolding compute_owner_label_condition
type-owner_label errors get_team now o = elim (Option-cases (lookup label_key_owned_by o.labels)) [
  | inl e ↦ rw (compute_owner_label_condition, e) (ground arith)
  | inr (owner, e) ↦
      rw (compute_owner_label_condition, e)
        (ground (arith, type-condition_of_owner errors get_team now o.namespace owner))
]

type-count_nodes :
    (now : ℕ) (nodes : List Node) (t : Tally)
    → (count_nodes now nodes t).condition.type ≡ t.condition.type
unfolding count_nodes
type-count_nodes now [] t = refl
type-count_nodes now (node ∷ nodes) t = elim (Bool-cases (is_control_plane node)) [
  | inl e ↦ rw (count_one now node nodes t true e) (type-count_nodes now nodes t)
  | inr e ↦ rw (count_one now node nodes t false e) (
      type-count_nodes now nodes _
      ∙ type-add_node node (get_node_status_if_node_not_ready now node) t)
]

pub record IsTyped (f : Findings) : Type 0 where
  pub kube_config_type : f.kube_config.type ≡ kube_config_valid
  pub nodes_ready_type : f.nodes_ready.type ≡ all_nodes_ready
  pub accessible_type : f.accessible.type ≡ permissions_verified
  pub deployed_type : f.deployed.type ≡ managed_resources_deployed
  pub schedulable_type : f.schedulable.type ≡ payload_schedulable

pub type-ready_from :
    (ready : Condition) (cs : List Condition) → (ready_from ready cs).type ≡ ready.type
unfolding ready_from
type-ready_from ready [] = refl
type-ready_from ready (c ∷ cs) = ground (arith, type-ready_from ready cs)

without_access-IsTyped :
    (now : ℕ) (c : Condition) (version : String)
    → c.type ≡ kube_config_valid
    → IsTyped (findings_without_access now c version)
unfolding findings_without_access
without_access-IsTyped now c version h = record {
  kube_config_type = h;
  nodes_ready_type = refl;
  accessible_type = refl;
  deployed_type = refl;
  schedulable_type = refl;
}

type-schedulable_on :
    (now : ℕ) (o : Option Nodes) → (schedulable_on now o).type ≡ payload_schedulable
unfolding schedulable_on
type-schedulable_on now none = refl
type-schedulable_on now (some nodes) = ground arith

module _ {G C E : Type 0} (errors : Errors E) (remotes : Remotes G C E) where
  type-node_status :
      (now : ℕ) (getter : G)
      → (reconcile_node_status errors remotes now getter).0.type ≡ all_nodes_ready
  unfolding reconcile_node_status
  type-node_status now getter =
      elim (Fetched-cases (remotes.new_k8s_client_from_rest_client_getter getter)) [
        | inr (x, e) ↦ rw (reconcile_node_status, e) refl
        | inl (c, e) ↦ elim (Fetched-cases (remotes.list_nodes c)) [
          | inr (x, l) ↦ rw (reconcile_node_status, e, l) refl
          | inl (items, l) ↦
              rw (reconcile_node_status, e, l) (type-count_nodes now items (no_nodes now))
        ]
      ]

  module _ (reviews : AccessReviews C E) where
    type-permissions :
        (now : ℕ) (getter : G)
        → (reconcile_permissions errors remotes reviews now getter).type ≡ permissions_verified
    unfolding reconcile_permissions
    type-permissions now getter =
        elim (Fetched-cases (remotes.new_k8s_client_from_rest_client_getter getter)) [
          | inr (x, e) ↦ rw (reconcile_permissions, e) refl
          | inl (c, e) ↦ rw (reconcile_permissions, e) (ground arith)
        ]

    with_access-IsTyped :
        (now : ℕ) (c : Condition) (version : String) (secret : Secret) (getter : G)
        → c.type ≡ kube_config_valid
        → IsTyped (findings_with_access errors remotes reviews now c version secret getter)
    unfolding findings_with_access
    with_access-IsTyped now c version secret getter h = record {
      kube_config_type = h;
      nodes_ready_type = type-node_status now getter;
      accessible_type = type-permissions now getter;
      deployed_type = (bootstrap-reaches errors remotes now getter secret).1;
      schedulable_type =
          type-schedulable_on now (reconcile_node_status errors remotes now getter).1;
    }

    pub findings_of-IsTyped :
        (now : ℕ) (r : Fetched (Secret × G) E) → IsTyped (findings_of errors remotes reviews now r)
    unfolding findings_of reconcile_kube_config_valid
    findings_of-IsTyped now (failed e) = without_access-IsTyped now _ _ refl
    findings_of-IsTyped now (found (secret, getter)) =
        elim (Fetched-cases (remotes.get_kubernetes_version getter)) [
          | inl (version, e) ↦
              rw (findings_of, reconcile_kube_config_valid, e)
                (with_access-IsTyped now _ _ secret getter refl)
          | inr (x, e) ↦
              rw (findings_of, reconcile_kube_config_valid, e) (without_access-IsTyped now _ _ refl)
        ]

    module _ (get_team : String → String → Fetched (Map String) E) where
      -- The types of the conditions, in their order.
      pub types-conditions_of :
          (now : ℕ) (cluster : Cluster) (f : Findings)
          → IsTyped f
          → types (conditions_of errors remotes reviews get_team now cluster f)
            ≡ ready_condition ∷ all_nodes_ready ∷ kube_config_valid ∷ owner_label_set_condition
              ∷ permissions_verified ∷ managed_resources_deployed ∷ payload_schedulable ∷ []
      unfolding conditions_of reconcile_ready_status
      types-conditions_of now cluster f t = rw (
        type-ready_from (unknown_condition now ready_condition "" "")
            (f.kube_config ∷ f.deployed ∷ []),
        t.nodes_ready_type,
        t.kube_config_type,
        type-owner_label errors get_team now cluster.metadata,
        t.accessible_type,
        t.deployed_type,
        t.schedulable_type,
      )
