-- ===== src/Cluster/Ready.antt =====
-- What the status of a Cluster says (internal/controller/cluster/cluster_status.go), in terms of what
-- the API servers answer.
use greenhouse.Prelude.{
  ℕ, String, Bool, true, false, not, ◌&&◌, ◌≡◌, subst, refl, sym, ◌∙◌, some, List, [], ◌∷◌, ◌++◌,
  Map, arith, inl, inr, Bool-cases,
}
use greenhouse.Platform.{Errors, Fetched, found, failed, Fetched-cases}
use greenhouse.Conditions.{
  Condition, unknown_condition, is_ready_true, is_false, is_true, ready_condition, set_conditions,
}
use greenhouse.Conditions.Given.{
  types, AreDistinct, status_under, is_ready_true-status, status-given,
}
use greenhouse.Owner.{compute_owner_label_condition}
use greenhouse.Permissions.{AccessReviews}
use greenhouse.Cluster.{
  Cluster, Secret, Remotes, all_nodes_ready, payload_schedulable, kube_config_valid,
  permissions_verified, managed_resources_deployed,
}
use greenhouse.Cluster.Managed.{bootstrap-reaches, reaches}
use greenhouse.Cluster.Typed.{type-ready_from, types-conditions_of, findings_of-IsTyped}
use greenhouse.Cluster.Status.{
  Findings, ready_from, reconcile_ready_status, reconcile_kube_config_valid,
  findings_without_access, findings_with_access, findings_of, conditions_of, set_cluster_conditions,
  get_cluster_secret_and_client_getter,
}

-- The answer as a Boolean.
abbrev pub answers : {O E : Type 0} → Fetched O E → Bool
answers (found o) = true
answers (failed e) = false

abbrev none_false : List Condition → Bool
none_false [] = true
none_false (c ∷ cs) = not (is_false c) && none_false cs

true-ready_from :
    (ready : Condition) (cs : List Condition) → is_true (ready_from ready cs) ≡ none_false cs
unfolding ready_from
true-ready_from ready [] = refl
true-ready_from ready (c ∷ cs) = elim (Bool-cases (is_false c)) [
  | inl e ↦ rw e refl
  | inr e ↦ rw e (true-ready_from ready cs)
]

module _ {G C E : Type 0} (errors : Errors E) (remotes : Remotes G C E) where
  -- Whether the cluster answers at all.
  abbrev pub connects : Fetched (Secret × G) E → Bool
  connects (failed e) = false
  connects (found (secret, getter)) = answers (remotes.get_kubernetes_version getter)

  -- Whether the cluster of a secret answers, and has all of these resources.
  abbrev pub operational : Fetched (Secret × G) E → Bool
  operational (failed e) = false
  operational (found (secret, getter)) =
      answers (remotes.get_kubernetes_version getter) && reaches errors remotes secret getter

  pub operational-cut : (r : Fetched (Secret × G) E) → connects r ≡ false → operational r ≡ false
  operational-cut (failed e) h = refl
  operational-cut (found (secret, getter)) h = rw h refl

  -- The same, from the cluster: its secret is there and usable.
  abbrev pub works : Cluster → Bool
  works cluster = elim (remotes.get_secret cluster.namespace cluster.name) [
    | failed e ↦ false
    | found secret ↦ elim (remotes.new_rest_client_getter_from_secret secret) [
      | failed e ↦ false
      | found getter ↦
          answers (remotes.get_kubernetes_version getter) && reaches errors remotes secret getter
    ]
  ]

  operational-works :
      (cluster : Cluster)
      → operational (get_cluster_secret_and_client_getter errors remotes cluster) ≡ works cluster
  unfolding get_cluster_secret_and_client_getter
  operational-works cluster =
      elim (Fetched-cases (remotes.get_secret cluster.namespace cluster.name)) [
        | inr (x, e) ↦ rw (get_cluster_secret_and_client_getter, works, e) refl
        | inl (secret, e) ↦
            elim (Fetched-cases (remotes.new_rest_client_getter_from_secret secret)) [
              | inr (x, g) ↦ rw (get_cluster_secret_and_client_getter, works, e, g) refl
              | inl (getter, g) ↦ rw (get_cluster_secret_and_client_getter, works, e, g) refl
            ]
      ]

  module _ (reviews : AccessReviews C E) where
    none_false-findings :
        (now : ℕ) (r : Fetched (Secret × G) E)
        → none_false (
            (findings_of errors remotes reviews now r).kube_config
            ∷ (findings_of errors remotes reviews now r).deployed
            ∷ [])
          ≡ operational r
    unfolding findings_of findings_without_access findings_with_access reconcile_kube_config_valid
    none_false-findings now (failed e) = refl
    none_false-findings now (found (secret, getter)) =
        elim (Fetched-cases (remotes.get_kubernetes_version getter)) [
          | inl (version, e) ↦
              rw (findings_of, reconcile_kube_config_valid, e)
                (ground (arith, (bootstrap-reaches errors remotes now getter secret).0))
          | inr (x, e) ↦ rw (findings_of, reconcile_kube_config_valid, e) refl
        ]

    module _ (get_team : String → String → Fetched (Map String) E) where
      -- The conditions of the status after the call.
      abbrev pub said : ℕ → Cluster → List Condition
      said now cluster =
          (set_cluster_conditions errors remotes reviews get_team now cluster).conditions

      abbrev pub findings : ℕ → Cluster → Findings
      findings now cluster =
          findings_of errors remotes reviews now
            (get_cluster_secret_and_client_getter errors remotes cluster)

      abbrev given : ℕ → Cluster → List Condition
      given now cluster =
          conditions_of errors remotes reviews get_team now cluster (findings now cluster)

      said-given :
          (now : ℕ) (cluster : Cluster)
          → said now cluster ≡ set_conditions now cluster.conditions (given now cluster)
      unfolding set_cluster_conditions
      said-given now cluster = refl

      given-AreDistinct : (now : ℕ) (cluster : Cluster) → AreDistinct (types (given now cluster))
      given-AreDistinct now cluster =
          subst AreDistinct
            (sym (
              types-conditions_of errors remotes reviews get_team now cluster (findings now cluster)
                (findings_of-IsTyped errors remotes reviews now
                  (get_cluster_secret_and_client_getter errors remotes cluster))))
            (refl, (refl, (refl, (refl, (refl, (refl, (refl, tt)))))))

      -- One of the given conditions is found in the status.
      said-status :
          (now : ℕ) (cluster : Cluster) (before : List Condition) (c : Condition)
          (after : List Condition) (t : String)
          → given now cluster ≡ before ++ c ∷ after
          → c.type ≡ t
          → status_under (said now cluster) t ≡ some c.status
      said-status now cluster before c after t e h =
          rw (said-given now cluster, e)
            (status-given now cluster.conditions before c after t
              (subst (λ l. AreDistinct (types l)) e (given-AreDistinct now cluster)) h)

      -- What the status shows of the findings.
      pub record Shows (now : ℕ) (cluster : Cluster) (f : Findings) : Type 0 where
        pub ready_shown :
            status_under (said now cluster) ready_condition
            ≡ some (reconcile_ready_status now (f.kube_config ∷ f.deployed ∷ [])).status
        pub nodes_ready_shown :
            status_under (said now cluster) all_nodes_ready ≡ some f.nodes_ready.status
        pub kube_config_shown :
            status_under (said now cluster) kube_config_valid ≡ some f.kube_config.status
        pub accessible_shown :
            status_under (said now cluster) permissions_verified ≡ some f.accessible.status
        pub deployed_shown :
            status_under (said now cluster) managed_resources_deployed ≡ some f.deployed.status
        pub schedulable_shown :
            status_under (said now cluster) payload_schedulable ≡ some f.schedulable.status

      pub said-Shows : (now : ℕ) (cluster : Cluster) → Shows now cluster (findings now cluster)
      unfolding conditions_of reconcile_ready_status
      said-Shows now cluster =
          let f = findings now cluster in
          let t =
            findings_of-IsTyped errors remotes reviews now
              (get_cluster_secret_and_client_getter errors remotes cluster) in
          let known = f.kube_config ∷ f.deployed ∷ [] in
          let ready = reconcile_ready_status now known in
          let owner = compute_owner_label_condition errors get_team now cluster.metadata in
          record {
            ready_shown =
                said-status now cluster [] ready _ ready_condition refl
                  (type-ready_from (unknown_condition now ready_condition "" "") known);
            nodes_ready_shown =
                said-status now cluster (ready ∷ []) f.nodes_ready _ all_nodes_ready refl
                  t.nodes_ready_type;
            kube_config_shown =
                said-status now cluster (ready ∷ f.nodes_ready ∷ []) f.kube_config _
                  kube_config_valid refl t.kube_config_type;
            accessible_shown =
                said-status now cluster (ready ∷ f.nodes_ready ∷ f.kube_config ∷ owner ∷ [])
                  f.accessible _ permissions_verified refl t.accessible_type;
            deployed_shown =
                said-status now cluster
                  (ready ∷ f.nodes_ready ∷ f.kube_config ∷ owner ∷ f.accessible ∷ []) f.deployed _
                  managed_resources_deployed refl t.deployed_type;
            schedulable_shown =
                said-status now cluster
                  (ready ∷ f.nodes_ready ∷ f.kube_config ∷ owner ∷ f.accessible ∷ f.deployed ∷ [])
                  f.schedulable [] payload_schedulable refl t.schedulable_type;
          }

      pub is_ready-findings :
          (now : ℕ) (cluster : Cluster)
          → is_ready_true (said now cluster)
            ≡ operational (get_cluster_secret_and_client_getter errors remotes cluster)
      unfolding reconcile_ready_status
      is_ready-findings now cluster =
          let f = findings now cluster in
          is_ready_true-status (said now cluster) _ (said-Shows now cluster).ready_shown
          ∙ (true-ready_from (unknown_condition now ready_condition "" "")
                (f.kube_config ∷ f.deployed ∷ [])
              ∙ none_false-findings now _)

      -- After setConditions the status of a Cluster is ready exactly if its secret is there and
      -- gives a client, the remote cluster tells its version, the namespace is there and, unless
      -- the cluster is accessed by OIDC, so are the service account and the cluster role binding.
      pub is_ready-set_cluster_conditions :
          (now : ℕ) (cluster : Cluster) → is_ready_true (said now cluster) ≡ works cluster
      is_ready-set_cluster_conditions now cluster =
          is_ready-findings now cluster ∙ operational-works cluster
