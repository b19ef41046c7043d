-- ===== src/Cluster/Access.antt =====
-- The status of a Cluster that cannot be reached, and whether payloads can be scheduled
-- (internal/controller/cluster/cluster_status.go).
use greenhouse.Prelude.{
  ℕ, ◌≤◌, nat_eq, length, String, Bool, true, false, not, ◌&&◌, ◌||◌, ◌≡◌, refl, ap, ◌∙◌, none,
  some, List, [], ◌∷◌, Map, arith, inl, inr, Option-cases,
}
use greenhouse.Platform.{Errors, Fetched, found, failed, Fetched-cases}
use greenhouse.Conditions.{
  Condition, condition_false, condition_unknown, is_ready_true, is_true, get_condition_by_type,
  holds,
}
use greenhouse.Conditions.Given.{status_under, holds-status}
use greenhouse.Permissions.{AccessReviews}
use greenhouse.Cluster.{
  Node, NodeStatus, Cluster, Secret, Remotes, all_nodes_ready, payload_schedulable,
  kube_config_valid, permissions_verified, managed_resources_deployed,
}
use greenhouse.Cluster.Ready.{
  said, said-Shows, findings, is_ready-findings, operational-cut, connects, answers,
}
use greenhouse.Cluster.NodeCount.{workers, reports, fit, fit-report, Summary-count}
use greenhouse.Cluster.NodeStates.{
  no_nodes, get_node_status_if_node_not_ready, reconcile_node_status, count_nodes,
}
use greenhouse.Cluster.Status.{
  Findings, reconcile_kube_config_valid, findings_without_access, schedulable_on,
  findings_with_access, findings_of, set_cluster_conditions, get_cluster_secret_and_client_getter,
  cluster_k8s_version_unknown,
}

-- Whether one of the nodes is ready.
abbrev pub any_fit : List Node → Bool
any_fit [] = false
any_fit (node ∷ nodes) = fit node || any_fit nodes

abbrev same_length : List Node → List NodeStatus → Bool
same_length nodes l = nat_eq (length l) (length nodes)

length-reports : (now : ℕ) (nodes : List Node) → length (reports now nodes) ≤ length nodes
length-reports now [] = omega arith
length-reports now (node ∷ nodes) =
    elim (Option-cases (get_node_status_if_node_not_ready now node)) [
      | inl e ↦ rw e (omega (arith, length-reports now nodes))
      | inr (s, e) ↦ rw e (omega (arith, length-reports now nodes))
    ]

all_reported :
    (now : ℕ) (nodes : List Node)
    → nat_eq (length (reports now nodes)) (length nodes) ≡ not (any_fit nodes)
all_reported now [] = refl
all_reported now (node ∷ nodes) = elim (Option-cases (get_node_status_if_node_not_ready now node)) [
  | inl e ↦ rw e (ground (arith, length-reports now nodes, fit-report now node))
  | inr (s, e) ↦ rw e (ground (arith, all_reported now nodes, fit-report now node))
]

module _ {G C E : Type 0} (errors : Errors E) (remotes : Remotes G C E) where
  -- Whether a worker node is ready, if the nodes can be read.
  abbrev pub has_room : G → Bool
  has_room getter = elim (remotes.new_k8s_client_from_rest_client_getter getter) [
    | failed e ↦ true
    | found remote_client ↦ elim (remotes.list_nodes remote_client) [
      | failed e ↦ true
      | found items ↦ any_fit (workers items)
    ]
  ]

  room-schedulable :
      (now : ℕ) (items : List Node)
      → is_true (schedulable_on now (some (count_nodes now items (no_nodes now)).nodes))
        ≡ any_fit (workers items)
  unfolding schedulable_on
  room-schedulable now items =
      let s = Summary-count now items in
      rw (s.listed, s.workers_only) (ground (arith, all_reported now (workers items)))

  has_room-schedulable :
      (now : ℕ) (getter : G)
      → is_true (schedulable_on now (reconcile_node_status errors remotes now getter).1)
        ≡ has_room getter
  unfolding reconcile_node_status schedulable_on
  has_room-schedulable now getter =
      elim (Fetched-cases (remotes.new_k8s_client_from_rest_client_getter getter)) [
        | inr (x, e) ↦ rw (reconcile_node_status, has_room, e) refl
        | inl (c, e) ↦ elim (Fetched-cases (remotes.list_nodes c)) [
          | inr (x, l) ↦ rw (reconcile_node_status, has_room, e, l) refl
          | inl (items, l) ↦ rw (reconcile_node_status, has_room, e, l) (room-schedulable now items)
        ]
      ]

  -- Whether the status calls payloads schedulable.
  abbrev pub takes_payloads : Fetched (Secret × G) E → Bool
  takes_payloads (failed e) = false
  takes_payloads (found (secret, getter)) =
      answers (remotes.get_kubernetes_version getter) && has_room getter

  module _ (reviews : AccessReviews C E) where
    takes_payloads-findings :
        (now : ℕ) (r : Fetched (Secret × G) E)
        → is_true (findings_of errors remotes reviews now r).schedulable ≡ takes_payloads r
    unfolding findings_of findings_without_access findings_with_access reconcile_kube_config_valid
    takes_payloads-findings now (failed e) = refl
    takes_payloads-findings now (found (secret, getter)) =
        elim (Fetched-cases (remotes.get_kubernetes_version getter)) [
          | inl (version, e) ↦
              rw (findings_of, reconcile_kube_config_valid, e) (has_room-schedulable now getter)
          | inr (x, e) ↦ rw (findings_of, reconcile_kube_config_valid, e) refl
        ]

    -- What is found out of a cluster that does not answer.
    record Blank (now : ℕ) (f : Findings) : Type 0 where
      why : Condition
      invalid : why.status ≡ condition_false
      blank : f ≡ findings_without_access now why cluster_k8s_version_unknown

    findings_of-Blank :
        (now : ℕ) (r : Fetched (Secret × G) E)
        → connects errors remotes r ≡ false
        → Blank now (findings_of errors remotes reviews now r)
    unfolding findings_of reconcile_kube_config_valid
    findings_of-Blank now (failed e) h = record { why = _; invalid = refl; blank = refl }
    findings_of-Blank now (found (secret, getter)) h =
        elim (Fetched-cases (remotes.get_kubernetes_version getter)) [
          | inl (version, e) ↦ absurd (ground (arith, e))
          | inr (x, e) ↦
              rw (findings_of, reconcile_kube_config_valid, e)
                record { why = _; invalid = refl; blank = refl }
        ]

    module _ (get_team : String → String → Fetched (Map String) E) where
      -- The status of a cluster that does not answer, whatever it was before.
      pub record IsCutOff (now : ℕ) (cluster after : Cluster) : Type 0 where
        pub version_unknown : after.status.kubernetes_version ≡ cluster_k8s_version_unknown
        pub nodes_unknown : after.status.nodes ≡ none
        pub not_ready : is_ready_true after.conditions ≡ false
        pub kube_config_invalid :
            status_under after.conditions kube_config_valid ≡ some condition_false
        pub all_nodes_unknown :
            status_under after.conditions all_nodes_ready ≡ some condition_unknown
        pub permissions_unknown :
            status_under after.conditions permissions_verified ≡ some condition_unknown
        pub resources_unknown :
            status_under after.conditions managed_resources_deployed ≡ some condition_unknown
        pub not_schedulable :
            status_under after.conditions payload_schedulable ≡ some condition_false

      -- Payloads are called schedulable exactly if the cluster answers and, unless its nodes
      -- cannot be read, one of its worker nodes is ready.
      pub set_cluster_conditions-schedulable :
          (now : ℕ) (cluster : Cluster)
          → holds (
              get_condition_by_type
                (said errors remotes reviews get_team now cluster)
                payload_schedulable)
            ≡ takes_payloads (get_cluster_secret_and_client_getter errors remotes cluster)
      set_cluster_conditions-schedulable now cluster =
          holds-status (said errors remotes reviews get_team now cluster) payload_schedulable _
            (said-Shows errors remotes reviews get_team now cluster).schedulable_shown
          ∙ takes_payloads-findings now _

      -- If the secret of a cluster is not there or not usable, or the cluster does not tell its
      -- version, then setConditions makes it not ready, with an unknown version, no nodes, a
      -- KubeConfigValid and a PayloadSchedulable that are false, and the rest unknown.
      pub set_cluster_conditions-IsCutOff :
          (now : ℕ) (cluster : Cluster)
          → connects errors remotes (get_cluster_secret_and_client_getter errors remotes cluster)
            ≡ false
          → IsCutOff now cluster
              (set_cluster_conditions errors remotes reviews get_team now cluster)
      unfolding set_cluster_conditions
      set_cluster_conditions-IsCutOff now cluster h =
          let f = findings errors remotes reviews get_team now cluster in
          let b : Blank now f = findings_of-Blank now _ h in
          let shows = said-Shows errors remotes reviews get_team now cluster in
          record {
            version_unknown = ap (λ f. f.k8s_version) b.blank;
            nodes_unknown = ap (λ f. f.nodes) b.blank;
            not_ready =
                is_ready-findings errors remotes reviews get_team now cluster
                ∙ operational-cut errors remotes _ h;
            kube_config_invalid =
                shows.kube_config_shown
                ∙ (ap (λ f. some f.kube_config.status) b.blank ∙ ap some b.invalid);
            all_nodes_unknown =
                shows.nodes_ready_shown ∙ ap (λ f. some f.nodes_ready.status) b.blank;
            permissions_unknown =
                shows.accessible_shown ∙ ap (λ f. some f.accessible.status) b.blank;
            resources_unknown = shows.deployed_shown ∙ ap (λ f. some f.deployed.status) b.blank;
            not_schedulable = shows.schedulable_shown ∙ ap (λ f. some f.schedulable.status) b.blank;
          }
