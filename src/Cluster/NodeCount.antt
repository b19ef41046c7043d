-- ===== src/Cluster/NodeCount.antt =====
-- What reconcileNodeStatus (internal/controller/cluster/cluster_status.go) says of the nodes.
use greenhouse.Prelude.{
  ℕ, ◌+◌, ◌≡◌, refl, sym, ap, ◌∙◌, inl, inr, Bool, true, false, not, Option, none, some, List, [],
  ◌∷◌, ◌++◌, arith, length, if◌then◌else◌, is_some, Option-cases, Bool-cases, ◌&&◌,
}
use mathlib.Core.List.{append-nil, append_assoc}
use greenhouse.Platform.{Errors, found}
use greenhouse.Conditions.{Condition, condition_true, status_eq, is_true}
use greenhouse.Cluster.{Node, NodeStatus, NodeCondition, Nodes, Remotes}
use greenhouse.Cluster.NodeStates.{
  Tally, count_nodes, add_node, get_node_status_if_node_not_ready, find_ready, is_control_plane,
  no_nodes, reconcile_node_status,
}

-- The worker nodes, and what is reported of those among them that are not ready.
abbrev pub workers : List Node → List Node
workers [] = []
workers (node ∷ nodes) =
    let rest = workers nodes in if is_control_plane node then rest else node ∷ rest

abbrev pub prepend : Option NodeStatus → List NodeStatus → List NodeStatus
prepend none l = l
prepend (some s) l = s ∷ l

abbrev pub reports : ℕ → List Node → List NodeStatus
reports now [] = []
reports now (node ∷ nodes) =
    prepend (get_node_status_if_node_not_ready now node) (reports now nodes)

-- What the loop adds to a tally.
pub record Counted (now : ℕ) (nodes : List Node) (t after : Tally) : Type 0 where
  pub total_grows : after.nodes.total ≡ t.nodes.total + length (workers nodes)
  pub ready_grows :
      after.nodes.ready + length (reports now (workers nodes))
      ≡ t.nodes.ready + length (workers nodes)
  pub reported : after.nodes.not_ready ≡ t.nodes.not_ready ++ reports now (workers nodes)

step :
    (now : ℕ) (node : Node) (nodes : List Node) (t after : Tally) (o : Option NodeStatus)
    → is_control_plane node ≡ false
    → get_node_status_if_node_not_ready now node ≡ o
    → Counted now nodes (add_node node o t) after
    → Counted now (node ∷ nodes) t after
unfolding add_node
step now node nodes t after none w e h = record {
  total_grows = ground (arith, h.total_grows);
  ready_grows = rw (w, e) (omega (arith, h.ready_grows));
  reported = rw (w, e) h.reported;
}
step now node nodes t after (some s) w e h = record {
  total_grows = ground (arith, h.total_grows);
  ready_grows = rw (w, e) (omega (arith, h.ready_grows));
  reported = rw (w, e) (h.reported ∙ append_assoc t.nodes.not_ready (s ∷ []) _);
}

skip :
    (now : ℕ) (node : Node) (nodes : List Node) (t after : Tally)
    → is_control_plane node ≡ true
    → Counted now nodes t after
    → Counted now (node ∷ nodes) t after
skip now node nodes t after e h = record {
  total_grows = rw e h.total_grows;
  ready_grows = rw e h.ready_grows;
  reported = rw e h.reported;
}

-- One round of the loop.
pub count_one :
    (now : ℕ) (node : Node) (nodes : List Node) (t : Tally) (b : Bool)
    → is_control_plane node ≡ b
    → count_nodes now (node ∷ nodes) t
      ≡ count_nodes now nodes
          (if b then t else add_node node (get_node_status_if_node_not_ready now node) t)
unfolding count_nodes
count_one now node nodes t b e =
    ap
      (λ b.
        count_nodes now nodes
          (if b then t else add_node node (get_node_status_if_node_not_ready now node) t))
      e

count_nodes-Counted :
    (now : ℕ) (nodes : List Node) (t : Tally) → Counted now nodes t (count_nodes now nodes t)
unfolding count_nodes
count_nodes-Counted now [] t = record {
  total_grows = omega arith;
  ready_grows = omega arith;
  reported = sym (append-nil t.nodes.not_ready);
}
count_nodes-Counted now (node ∷ nodes) t = elim (Bool-cases (is_control_plane node)) [
  | inl e ↦
      rw (count_one now node nodes t true e)
        (skip now node nodes t _ e (count_nodes-Counted now nodes t))
  | inr e ↦ rw (count_one now node nodes t false e) (
      step now node nodes t _ _ e refl (
        count_nodes-Counted now nodes
          (add_node node (get_node_status_if_node_not_ready now node) t)))
]

-- A node that is not ready for the loop: one whose first Ready condition is not true.
abbrev pub says_ready : Option NodeCondition → Bool
says_ready none = true
says_ready (some c) = status_eq c.status condition_true

abbrev pub fit : Node → Bool
fit node = not node.unschedulable && says_ready (find_ready node.conditions)

pub fit-report :
    (now : ℕ) (node : Node) → is_some (get_node_status_if_node_not_ready now node) ≡ not (fit node)
unfolding get_node_status_if_node_not_ready
fit-report now node = elim (Option-cases (find_ready node.conditions)) [
  | inl e ↦ rw (e, is_some) (ground arith)
  | inr (c, e) ↦ rw (e, is_some) (ground arith)
]

abbrev pub all_fit : List Node → Bool
all_fit [] = true
all_fit (node ∷ nodes) = fit node && all_fit nodes

true-add_node :
    (node : Node) (o : Option NodeStatus) (t : Tally)
    → is_true (add_node node o t).condition ≡ (not (is_some o) && is_true t.condition)
unfolding add_node
true-add_node node none t = refl
true-add_node node (some s) t = refl

pub type-add_node :
    (node : Node) (o : Option NodeStatus) (t : Tally)
    → (add_node node o t).condition.type ≡ t.condition.type
unfolding add_node
type-add_node node none t = refl
type-add_node node (some s) t = refl

true-count_nodes :
    (now : ℕ) (nodes : List Node) (t : Tally)
    → is_true (count_nodes now nodes t).condition ≡ (is_true t.condition && all_fit (workers nodes))
unfolding count_nodes
true-count_nodes now [] t = ground arith
true-count_nodes now (node ∷ nodes) t = elim (Bool-cases (is_control_plane node)) [
  | inl e ↦ rw (count_one now node nodes t true e, e) (true-count_nodes now nodes t)
  | inr e ↦
      rw (count_one now node nodes t false e, e)
        (ground (
          arith,
          true-count_nodes now nodes (add_node node (get_node_status_if_node_not_ready now node) t),
          true-add_node node (get_node_status_if_node_not_ready now node) t,
          fit-report now node,
        ))
]

-- What the nodes of a cluster are said to be, if they are read.
pub record Summary (now : ℕ) (items : List Node) (condition : Condition) (nodes : Nodes)
    : Type 0 where
  pub workers_only : nodes.total ≡ length (workers items)
  pub adds_up : nodes.ready + length nodes.not_ready ≡ nodes.total
  pub listed : nodes.not_ready ≡ reports now (workers items)
  pub verdict : is_true condition ≡ all_fit (workers items)

pub Summary-count :
    (now : ℕ) (items : List Node)
    → Summary now items
        (count_nodes now items (no_nodes now)).condition
        (count_nodes now items (no_nodes now)).nodes
Summary-count now items =
    let c = count_nodes-Counted now items (no_nodes now) in
    record {
      workers_only = omega (arith, c.total_grows);
      adds_up = rw c.reported (omega (arith, c.ready_grows, c.total_grows));
      listed = c.reported;
      verdict = true-count_nodes now items (no_nodes now);
    }

module _ {G C E : Type 0} (errors : Errors E) (remotes : Remotes G C E) where
  -- If the nodes of the cluster can be listed, the summary counts all nodes but those of the control
  -- plane; those that are ready and those listed as not ready add up to the total; and
  -- AllNodesReady is true exactly if each of them is schedulable and has no Ready condition, or a
  -- first one that is true.
  pub reconcile_node_status-Summary :
      (now : ℕ) (getter : G) (remote_client : C) (items : List Node)
      → remotes.new_k8s_client_from_rest_client_getter getter ≡ found remote_client
      → remotes.list_nodes remote_client ≡ found items
      → (nodes : Nodes) × ((reconcile_node_status errors remotes now getter).1 ≡ some nodes)
        × Summary now items (reconcile_node_status errors remotes now getter).0 nodes
  unfolding reconcile_node_status
  reconcile_node_status-Summary now getter remote_client items c l =
      rw (reconcile_node_status, c, l)
        ((count_nodes now items (no_nodes now)).nodes, refl, Summary-count now items)
