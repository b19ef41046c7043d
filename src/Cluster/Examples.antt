-- ===== src/Cluster/Examples.antt =====
-- A cluster with a node of the control plane and two workers, one of which is not ready, and a cluster
-- that does not answer.
use greenhouse.Prelude.{
  ℕ, ◌+◌, not, ◌&&◌, String, ◌≡◌, refl, true, false, ◌==◌, none, some, List, [], ◌∷◌, Map,
  if◌then◌else◌,
}
use greenhouse.Platform.{Fetched, found, failed}
use greenhouse.Platform.Examples.{plain_errors, not_found}
use greenhouse.Conditions.{
  condition_unknown, is_ready_true, holds, get_condition_by_type, true_condition,
}
use greenhouse.Permissions.{AccessReviews}
use Prim.Native.Nat.{◌*◌}
use greenhouse.Cluster.Token.{
  TokenReader, TokenHelper, SecretData, second, green_house_kube_config_key, is_secret_contains_key,
  generate_token_request,
}
use greenhouse.Cluster.Renewal.{has_token, lasts, expiry_of, generate_token_request-sent}
use greenhouse.Cluster.{
  Cluster, Node, NodeCondition, Nodes, Remotes, payload_schedulable, secret_type_kube_config,
  secret_type_oidc_config,
}
use greenhouse.Cluster.NodeStates.{control_plane_node_label, reconcile_node_status}
use greenhouse.Cluster.NodeCount.{Summary, reconcile_node_status-Summary}
use greenhouse.Cluster.Status.{set_cluster_conditions, get_cluster_secret_and_client_getter}
use greenhouse.Cluster.Ready.{works, connects, said, is_ready-set_cluster_conditions}
use greenhouse.Cluster.Access.{
  IsCutOff, takes_payloads, set_cluster_conditions-schedulable, set_cluster_conditions-IsCutOff,
}

abbrev node : String → Map String → List NodeCondition → Node
node name labels conditions = record {
  name = name;
  labels = labels;
  unschedulable = false;
  conditions = conditions;
}

abbrev unknown_ready : NodeCondition
unknown_ready = record {
  type = "Ready";
  status = condition_unknown;
  message = "Kubelet stopped posting node status.";
  last_transition_time = 4;
}

abbrev three_nodes : List Node
three_nodes =
    node "master" ((control_plane_node_label, "") ∷ []) (unknown_ready ∷ [])
    ∷ node "a" [] []
    ∷ node "b" [] (unknown_ready ∷ [])
    ∷ []

-- A getter and a client are the name of the secret that they are made from.
abbrev remotes : Remotes String String String
remotes = record {
  get_secret = λ namespace name.
      found record { name = name; namespace = namespace; type = secret_type_kube_config };
  new_rest_client_getter_from_secret = λ secret. found secret.name;
  get_kubernetes_version = λ getter. if getter == "gone" then failed "timeout" else found "1.33";
  new_k8s_client_from_rest_client_getter = λ getter. found getter;
  list_nodes = λ remote_client. found three_nodes;
  get_namespace = λ remote_client name. none;
  get_service_account = λ remote_client namespace name. none;
  get_cluster_role_binding = λ remote_client name. none;
}

abbrev reviews : AccessReviews String String
reviews = record {
  create_self_review = λ remote_client namespace p. (none, true);
  create_review = λ remote_client user namespace p. (none, true);
}

abbrev no_teams : String → String → Fetched (Map String) String
no_teams namespace name = failed not_found

abbrev cluster : String → Cluster
cluster name = record {
  metadata = record {
    name = name;
    namespace = "org";
    labels = [];
    annotations = [];
    finalizers = [];
    deletion_timestamp = none;
  };
  spec = record { access_mode = "direct"; max_token_validity = 72 };
  conditions = true_condition 3 "Ready" "" "" ∷ [];
  status = record {
    kubernetes_version = "1.32";
    bearer_token_expiration_timestamp = 0;
    nodes = none;
  };
}

reconcile_node_status-Summary_example :
    (nodes : Nodes) × ((reconcile_node_status plain_errors remotes 9 "c").1 ≡ some nodes)
    × Summary 9 three_nodes (reconcile_node_status plain_errors remotes 9 "c").0 nodes
reconcile_node_status-Summary_example =
    reconcile_node_status-Summary plain_errors remotes 9 "c" "c" three_nodes refl refl

is_ready-set_cluster_conditions_example :
    is_ready_true
      (set_cluster_conditions plain_errors remotes reviews no_teams 9 (cluster "c")).conditions
    ≡ works plain_errors remotes (cluster "c")
is_ready-set_cluster_conditions_example =
    is_ready-set_cluster_conditions plain_errors remotes reviews no_teams 9 (cluster "c")

set_cluster_conditions-schedulable_example :
    holds (
      get_condition_by_type
        (said plain_errors remotes reviews no_teams 9 (cluster "c"))
        payload_schedulable)
    ≡ takes_payloads plain_errors remotes
        (get_cluster_secret_and_client_getter plain_errors remotes (cluster "c"))
set_cluster_conditions-schedulable_example =
    set_cluster_conditions-schedulable plain_errors remotes reviews no_teams 9 (cluster "c")

gone_connects :
    connects plain_errors remotes
      (get_cluster_secret_and_client_getter plain_errors remotes (cluster "gone"))
    ≡ false
unfolding get_cluster_secret_and_client_getter
gone_connects = refl

set_cluster_conditions-IsCutOff_example :
    IsCutOff plain_errors remotes reviews no_teams 9
      (cluster "gone")
      (set_cluster_conditions plain_errors remotes reviews no_teams 9 (cluster "gone"))
set_cluster_conditions-IsCutOff_example =
    set_cluster_conditions-IsCutOff plain_errors remotes reviews no_teams 9 (cluster "gone")
      gone_connects

-- a token that is valid for another 25 seconds, to be renewed 20 seconds before
abbrev reader : TokenReader String
reader = record { to_rest_config = found "jwt"; expiry_claim = λ token. some 30 }

abbrev helper : TokenHelper ℕ String
helper = record {
  in_cluster_client = λ name namespace request w. (found request, w + 1);
  remote_cluster_client = λ name namespace request w. (failed "404", w + 1);
  remote_cluster_bearer_token_validity = 60 * second;
  renew_remote_cluster_bearer_token_after = 20 * second;
  secret_type = secret_type_oidc_config;
}

abbrev kube_config : SecretData
kube_config = (green_house_kube_config_key, some "x") ∷ []

generate_token_request-sent_example :
    (generate_token_request reader (cluster "c") (5 * second) helper kube_config 0).1 ≡ (
      if has_token helper.secret_type
        && not (
            is_secret_contains_key kube_config green_house_kube_config_key
            && lasts (5 * second) (20 * second) (expiry_of reader (cluster "c")))
      then 0 + 1
      else 0)
generate_token_request-sent_example =
    generate_token_request-sent reader (cluster "c") (5 * second) helper kube_config (λ w. w) 0
      (record { remote = λ n ns r w. refl; in_cluster = λ n ns r w. refl })
