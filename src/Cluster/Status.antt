-- ===== src/Cluster/Status.antt =====
-- internal/controller/cluster/cluster_status.go: the conditions of a Cluster. What the status says
-- of the nodes is in Cluster/NodeStates.
use Prim.Native.String.{◌++◌}
use greenhouse.Prelude.{
  ℕ, nat_eq, length, String, ◌==◌, Option, none, some, List, [], ◌∷◌, Map, if◌then◌else◌,
}
use greenhouse.Platform.{Errors, Fetched, found, failed}
use greenhouse.Conditions.{
  Condition, condition_true, condition_false, true_condition, false_condition, unknown_condition,
  is_false, ready_condition, set_conditions,
}
use greenhouse.Owner.{compute_owner_label_condition}
use greenhouse.Permissions.{AccessReviews, check_client_cluster_permission, namespace_all}
use greenhouse.Cluster.{
  Cluster, Secret, Nodes, Remotes, get_secret_name, payload_schedulable, kube_config_valid,
  permissions_verified, managed_resources_deployed, secret_type_oidc_config, service_account_name,
  all_nodes_ready,
}
use greenhouse.Cluster.NodeStates.{reconcile_node_status}

abbrev pub cluster_k8s_version_unknown : String
cluster_k8s_version_unknown = "unknown"

-- The loop of reconcileReadyStatus with its early return
unfoldable pub ready_from : Condition → List Condition → Condition
ready_from ready [] = record ready { status = condition_true }
ready_from ready (c ∷ cs) =
    if is_false c
    then record ready {
      status = condition_false;
      message = if c.message == "" then "cannot access cluster" else c.message;
    }
    else ready_from ready cs

unfoldable pub reconcile_ready_status : ℕ → List Condition → Condition
unfolding ready_from
reconcile_ready_status now conditions =
    ready_from (unknown_condition now ready_condition "" "") conditions

-- The local variables of setConditions once the status is known.
pub record Findings : Type 0 where
  pub kube_config : Condition
  pub k8s_version : String
  pub nodes_ready : Condition
  pub nodes : Option Nodes
  pub accessible : Condition
  pub deployed : Condition
  pub schedulable : Condition

-- the branch for a kubeconfig that is not valid
unfoldable pub findings_without_access : ℕ → Condition → String → Findings
findings_without_access now kube_config k8s_version = record {
  kube_config = kube_config;
  k8s_version = k8s_version;
  nodes_ready =
      unknown_condition now all_nodes_ready "" "kubeconfig not valid - cannot know node status";
  nodes = none;
  accessible =
      unknown_condition now permissions_verified ""
        "kubeconfig not valid - cannot validate cluster access";
  deployed =
      unknown_condition now managed_resources_deployed ""
        "kubeconfig not valid - cannot validate managed resources";
  schedulable =
      false_condition now payload_schedulable ""
        "kubeconfig not valid - payloads cannot be scheduled";
}

-- the test of the nodes and what it says of payloads
unfoldable pub schedulable_on : ℕ → Option Nodes → Condition
schedulable_on now none = true_condition now payload_schedulable "" ""
schedulable_on now (some nodes) =
    if nat_eq (length nodes.not_ready) nodes.total
    then false_condition now payload_schedulable "" "all nodes are not ready"
    else true_condition now payload_schedulable "" ""

module _ {G C E : Type 0} (errors : Errors E) (remotes : Remotes G C E) where
  unfoldable pub get_cluster_secret_and_client_getter : Cluster → Fetched (Secret × G) E
  get_cluster_secret_and_client_getter cluster =
      elim (remotes.get_secret cluster.namespace (get_secret_name cluster)) [
        | failed e ↦ failed (errors.wrap "failed to get cluster secret" e)
        | found secret ↦ elim (remotes.new_rest_client_getter_from_secret secret) [
          | failed e ↦ failed (errors.wrap "failed to create REST client getter" e)
          | found getter ↦ found (secret, getter)
        ]
      ]

  -- The answer for a managed resource: `missing` if it is not found
  unfoldable pub undeployed : ℕ → String → E → Condition
  undeployed now missing e =
      false_condition now managed_resources_deployed ""
        (if errors.is_not_found e then missing else errors.text e)

  unfoldable pub reconcile_bootstrap_resources : ℕ → G → Option Secret → Condition
  unfolding undeployed
  reconcile_bootstrap_resources now client_getter none =
      unknown_condition now managed_resources_deployed "" "managed resources could not be validated"
  reconcile_bootstrap_resources now client_getter (some secret) =
      let deployed = true_condition now managed_resources_deployed "" "" in
      elim (remotes.new_k8s_client_from_rest_client_getter client_getter) [
        | failed e ↦ false_condition now managed_resources_deployed "" (errors.text e)
        | found remote_client ↦ elim (remotes.get_namespace remote_client secret.namespace) [
          | some e ↦
              undeployed now ("Namespace " ++ (secret.namespace ++ " not found in remote cluster"))
                e
          | none ↦
              if secret.type == secret_type_oidc_config
              then deployed
              else elim (remotes.get_service_account remote_client secret.namespace
                  service_account_name) [
                    | some e ↦
                        undeployed now
                          ("ServiceAccount "
                            ++ (service_account_name
                                ++ (" in namespace "
                                    ++ (secret.namespace ++ " not found in remote cluster"))))
                          e
                    | none ↦
                        elim (remotes.get_cluster_role_binding remote_client service_account_name) [
                          | some e ↦
                              undeployed now
                                ("ClusterRoleBinding "
                                  ++ (service_account_name ++ " not found in remote cluster"))
                                e
                          | none ↦ deployed
                        ]
                  ]
        ]
      ]

  unfoldable pub reconcile_kube_config_valid : ℕ → G → Condition × String
  reconcile_kube_config_valid now rest_client_getter =
      elim (remotes.get_kubernetes_version rest_client_getter) [
        | failed e ↦
            (false_condition now kube_config_valid "" (errors.text e), cluster_k8s_version_unknown)
        | found version ↦ (true_condition now kube_config_valid "" "", version)
      ]

  module _ (reviews : AccessReviews C E) where
    unfoldable pub reconcile_permissions : ℕ → G → Condition
    reconcile_permissions now client_getter =
        elim (remotes.new_k8s_client_from_rest_client_getter client_getter) [
          | failed e ↦ false_condition now permissions_verified "" (errors.text e)
          | found remote_client ↦
              if nat_eq
                (length (check_client_cluster_permission reviews remote_client "" namespace_all)) 0
              then true_condition now permissions_verified ""
                  "ServiceAccount has cluster admin permissions"
              else false_condition now permissions_verified "" "missing cluster admin permission"
        ]

    -- the branch for a valid kubeconfig
    unfoldable pub findings_with_access : ℕ → Condition → String → Secret → G → Findings
    unfolding reconcile_permissions reconcile_bootstrap_resources schedulable_on
    findings_with_access now kube_config k8s_version secret getter =
        let (nodes_ready, nodes) = reconcile_node_status errors remotes now getter in
        record {
          kube_config = kube_config;
          k8s_version = k8s_version;
          nodes_ready = nodes_ready;
          nodes = nodes;
          accessible = reconcile_permissions now getter;
          deployed = reconcile_bootstrap_resources now getter (some secret);
          schedulable = schedulable_on now nodes;
        }

    unfoldable pub findings_of : ℕ → Fetched (Secret × G) E → Findings
    unfolding findings_without_access findings_with_access reconcile_kube_config_valid
    findings_of now (failed e) =
        findings_without_access now (false_condition now kube_config_valid "" (errors.text e))
          cluster_k8s_version_unknown
    findings_of now (found (secret, getter)) =
        let (kube_config, k8s_version) = reconcile_kube_config_valid now getter in
        if is_false kube_config
        then findings_without_access now kube_config k8s_version
        else findings_with_access now kube_config k8s_version secret getter

    module _ (get_team : String → String → Fetched (Map String) E) where
      -- the slice `conditions`
      unfoldable pub conditions_of : ℕ → Cluster → Findings → List Condition
      unfolding reconcile_ready_status
      conditions_of now cluster f =
          reconcile_ready_status now (f.kube_config ∷ f.deployed ∷ [])
          ∷ f.nodes_ready
          ∷ f.kube_config
          ∷ compute_owner_label_condition errors get_team now cluster.metadata
          ∷ f.accessible
          ∷ f.deployed
          ∷ f.schedulable
          ∷ []

      -- setConditions
      unfoldable pub set_cluster_conditions : ℕ → Cluster → Cluster
      unfolding get_cluster_secret_and_client_getter findings_of conditions_of
      set_cluster_conditions now cluster =
          let f = findings_of now (get_cluster_secret_and_client_getter cluster) in
          record cluster {
            conditions = set_conditions now cluster.conditions (conditions_of now cluster f);
            status = record cluster.status { kubernetes_version = f.k8s_version; nodes = f.nodes };
          }
