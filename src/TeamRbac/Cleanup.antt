-- ===== src/TeamRbac/Cleanup.antt =====
-- The clusters of a TeamRoleBinding and the cleanup loops of teamrolebinding_controller.go
-- (internal/controller/teamrbac). `range` over the propagation statuses runs over the array that
-- the slice had at the start, while the loop shortens and overwrites that same array: the loops
-- below take the indices of the array in turn. (An append never meets a full array there, since an
-- entry is only missing after one has been removed.) Events, logs and metrics are left out.
use greenhouse.Prelude.{
  ℕ, zero, suc, ◌+◌, String, Bool, true, false, ◌==◌, Option, none, some, List, [], ◌∷◌, ◌++◌,
  if◌then◌else◌, contains_func, get_elem?, not,
}
use greenhouse.Platform.{Errors, Fetched, found, failed}
use greenhouse.Conditions.{Condition, is_ready_true, condition_false}
use greenhouse.TeamRbac.{
  TeamRoleBinding, PropagationStatus, set_propagation_status, remove_propagation_status,
  is_cluster_scoped,
}
use greenhouse.TeamRbac.Remote.{TeamRole, RemoteClient, cleanup_remote, cleanup_remote_namespaces}

pub record Cluster : Type 0 where
  pub name : String
  pub conditions : List Condition

pub record Team : Type 0 where
  pub name : String
  pub mapped_idp_group : String

-- What the controller reads from the API server; `Sel` is labels.Selector.
pub record Hub (L Sel P A W E : Type 0) : Type 0 where
  pub get_cluster : String → String → W → Fetched Cluster E  -- namespace, name
  pub label_selector_as_selector : L → Fetched Sel E
  pub list_clusters : String → Sel → W → Fetched (List Cluster) E
  pub get_team_role : String → String → W → Fetched (TeamRole P A) E
  pub get_team : String → String → W → Fetched Team E
  pub new_client : Cluster → W → Fetched (RemoteClient P A W E) E

abbrev pub has_name : List Cluster → String → Bool
has_name clusters name = contains_func clusters (λ c. c.name == name)

module _ {L Sel P A W E : Type 0} (errors : Errors E) (hub : Hub L Sel P A W E) (now : ℕ) where
  abbrev pub not_ready : String → TeamRoleBinding L → TeamRoleBinding L
  not_ready cluster trb =
      set_propagation_status now cluster condition_false "ClusterConnectionFailed"
        "Cluster is not ready" trb

  -- The DeleteFunc of listClusters, which also writes the statuses of what it deletes.
  unfoldable pub drop_not_ready :
      List Cluster → TeamRoleBinding L → List Cluster × TeamRoleBinding L
  drop_not_ready [] trb = ([], trb)
  drop_not_ready (c ∷ cs) trb =
      let ready = is_ready_true c.conditions in
      let (rest, trb') = drop_not_ready cs (if ready then trb else not_ready c.name trb) in
      (if ready then c ∷ rest else rest, trb')

  unfoldable pub list_clusters :
      TeamRoleBinding L → W → Fetched (List Cluster) E × TeamRoleBinding L
  list_clusters trb w =
      let selector = trb.spec.cluster_selector in
      if not (selector.name == "")
      then (
        elim (hub.get_cluster trb.namespace selector.name w) [
          | failed e ↦ if errors.is_not_found e then found [] else failed e
          | found c ↦ found (c ∷ [])
        ],
        trb,
      )
      else elim (hub.label_selector_as_selector selector.label_selector) [
        | failed e ↦ (failed e, trb)
        | found sel ↦ elim (hub.list_clusters trb.namespace sel w) [
          | failed e ↦ (failed e, trb)
          | found cs ↦ (let (ready, trb') = drop_not_ready cs trb in (found ready, trb'))
        ]
      ]

  -- cleanupCluster
  unfoldable pub cleanup_cluster : TeamRoleBinding L → Cluster → W → Option E × W
  cleanup_cluster trb cluster w = elim (hub.new_client cluster w) [
    | failed e ↦ (some e, w)
    | found remote ↦ cleanup_remote errors remote trb w
  ]

  -- cleanupClusterNamespaces
  unfoldable pub cleanup_cluster_namespaces : TeamRoleBinding L → Cluster → W → Option E × W
  cleanup_cluster_namespaces trb cluster w =
      if is_cluster_scoped trb then (none, w) else elim (hub.new_client cluster w) [
        | failed e ↦ (some e, w)
        | found remote ↦ cleanup_remote_namespaces errors remote trb w
      ]

  abbrev pub Swept : Type 0
  Swept = Option E × TeamRoleBinding L × W

  -- The body of the loop in cleanupResources, for the entry `s`. A result with no error is a
  -- `continue`, or the end of the body.
  unfoldable pub cleanup_entry : List Cluster → PropagationStatus → TeamRoleBinding L → W → Swept
  cleanup_entry clusters s trb w =
      let fetched = hub.get_cluster trb.namespace s.cluster_name w in
      if has_name clusters s.cluster_name
      then elim fetched [
        | failed e ↦ (some e, trb, w)
        | found c ↦ (let (err, w') = cleanup_cluster_namespaces trb c w in (err, trb, w'))
      ]
      else elim fetched [
        | failed e ↦
            if errors.is_not_found e
            then (none, remove_propagation_status s.cluster_name trb, w)
            else (some e, trb, w)
        | found c ↦
            if not (is_ready_true c.conditions)
            then (none, not_ready s.cluster_name trb, w)
            else (let (err, w') = cleanup_cluster trb c w in
                elim err [
                  | some e ↦ (some e, trb, w')
                  | none ↦ (none, remove_propagation_status s.cluster_name trb, w')
                ])
      ]

  -- `left` elements of the array are still to come, from index `i` on.
  unfoldable pub cleanup_from : List Cluster → ℕ → ℕ → TeamRoleBinding L → W → Swept
  cleanup_from clusters zero i trb w = (none, trb, w)
  cleanup_from clusters (suc left) i trb w = elim (get_elem? trb.status.array i) [
    | none ↦ (none, trb, w)
    | some s ↦
        (let (err, trb', w') = cleanup_entry clusters s trb w in
          elim err [
            | some e ↦ (some e, trb', w')
            | none ↦ cleanup_from clusters left (i + 1) trb' w'
          ])
  ]

  -- cleanupResources
  unfoldable pub cleanup_resources : TeamRoleBinding L → List Cluster → W → Swept
  cleanup_resources trb clusters w = cleanup_from clusters trb.status.len 0 trb w

  -- combineClusterLists, which appends to the list of clusters. Where the cluster is not found, the
  -- object that Get was to fill is still the empty one, and so is its name.
  abbrev pub Combined : Type 0
  Combined = Option E × List Cluster × TeamRoleBinding L

  unfoldable pub combine_from : W → ℕ → ℕ → List Cluster → TeamRoleBinding L → Combined
  combine_from w zero i clusters trb = (none, clusters, trb)
  combine_from w (suc left) i clusters trb = elim (get_elem? trb.status.array i) [
    | none ↦ (none, clusters, trb)
    | some ps ↦
        (let next = combine_from w left (i + 1) in
          let same = next clusters trb in
          elim (has_name clusters ps.cluster_name) [
            | true ↦ same
            | false ↦ elim (hub.get_cluster trb.namespace ps.cluster_name w) [
              | found c ↦ next (clusters ++ c ∷ []) trb
              | failed e ↦ elim (errors.is_not_found e) [
                | true ↦ next clusters (remove_propagation_status "" trb)
                | false ↦ (some e, clusters, trb)
              ]
            ]
          ])
  ]

  unfoldable pub combine_cluster_lists : W → List Cluster → TeamRoleBinding L → Combined
  combine_cluster_lists w clusters trb = combine_from w trb.status.len 0 clusters trb
