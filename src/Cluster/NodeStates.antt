-- ===== src/Cluster/NodeStates.antt =====
-- getNodeStatusIfNodeNotReady and reconcileNodeStatus of internal/controller/cluster/cluster_status.go.
use Prim.Native.String.{◌++◌}
use greenhouse.Prelude.{
  ℕ, ◌+◌, String, Bool, ◌==◌, Option, none, some, List, [], ◌∷◌, lookup, if◌then◌else◌, is_some,
}
use mathlib.Core.List.{◌++◌ as append}
use greenhouse.Platform.{Errors, found, failed}
use greenhouse.Conditions.{
  Condition, condition_true, condition_false, true_condition, false_condition, status_eq,
}
use greenhouse.Cluster.{Node, NodeCondition, NodeStatus, Nodes, Remotes, all_nodes_ready}

abbrev pub control_plane_node_label : String
control_plane_node_label = "node-role.kubernetes.io/control-plane"

-- corev1.NodeReady
abbrev pub node_ready : String
node_ready = "Ready"

-- the loop with its `break`
unfoldable pub find_ready : List NodeCondition → Option NodeCondition
find_ready [] = none
find_ready (c ∷ cs) = if c.type == node_ready then some c else find_ready cs

unfoldable pub get_node_status_if_node_not_ready : ℕ → Node → Option NodeStatus
unfolding find_ready
get_node_status_if_node_not_ready now node =
    if node.unschedulable
    then some
        (record { name = node.name; message = "Node is unschedulable"; last_transition_time = now })
    else elim (find_ready node.conditions) [
      | none ↦ none
      | some c ↦
          if status_eq c.status condition_true
          then none
          else some (record {
            name = node.name;
            message = c.message;
            last_transition_time = c.last_transition_time;
          })
    ]

-- What the loop over the nodes builds.
pub record Tally : Type 0 where
  pub condition : Condition
  pub nodes : Nodes

-- the body of the loop once the node counts
unfoldable pub add_node : Node → Option NodeStatus → Tally → Tally
add_node node none t = record t {
  nodes = record t.nodes { total = t.nodes.total + 1; ready = t.nodes.ready + 1 };
}
add_node node (some s) t =
    let message = if t.condition.message == "" then "" else t.condition.message ++ ", " in
    record {
      condition = record t.condition {
        status = condition_false;
        message = message ++ (node.name ++ " not ready");
      };
      nodes = record t.nodes {
        total = t.nodes.total + 1;
        not_ready = append t.nodes.not_ready (s ∷ []);
      };
    }

abbrev pub is_control_plane : Node → Bool
is_control_plane node = is_some (lookup control_plane_node_label node.labels)

unfoldable pub count_nodes : ℕ → List Node → Tally → Tally
unfolding add_node get_node_status_if_node_not_ready
count_nodes now [] t = t
count_nodes now (node ∷ items) t = count_nodes now items (
    if is_control_plane node
    then t
    else add_node node (get_node_status_if_node_not_ready now node) t)

abbrev pub no_nodes : ℕ → Tally
no_nodes now = record {
  condition = true_condition now all_nodes_ready "" "";
  nodes = record { total = 0; ready = 0; not_ready = [] };
}

module _ {G C E : Type 0} (errors : Errors E) (remotes : Remotes G C E) where
  unfoldable pub reconcile_node_status : ℕ → G → Condition × Option Nodes
  unfolding count_nodes
  reconcile_node_status now rest_client_getter =
      elim (remotes.new_k8s_client_from_rest_client_getter rest_client_getter) [
        | failed e ↦ (false_condition now all_nodes_ready "" (errors.text e), none)
        | found remote_client ↦ elim (remotes.list_nodes remote_client) [
          | failed e ↦ (false_condition now all_nodes_ready "" (errors.text e), none)
          | found items ↦
              (let t = count_nodes now items (no_nodes now) in (t.condition, some t.nodes))
        ]
      ]
