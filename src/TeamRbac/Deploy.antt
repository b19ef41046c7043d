-- ===== src/TeamRbac/Deploy.antt =====
-- doReconcile of teamrolebinding_controller.go (internal/controller/teamrbac): the RBAC objects of a
-- TeamRoleBinding on each of its clusters. Events are left out.
use Prim.Native.String.{◌++◌ as glue}
use greenhouse.Prelude.{ℕ, String, Option, none, some, List, [], ◌∷◌, ◌++◌, if◌then◌else◌, contains}
use greenhouse.Platform.{Errors, found, failed}
use greenhouse.Conditions.{condition_true, condition_false, true_condition, false_condition}
use greenhouse.Lifecycle.{set_condition}
use greenhouse.TeamRbac.{TeamRoleBinding, rbac_ready, set_propagation_status, is_cluster_scoped}
use greenhouse.TeamRbac.Remote.{
  TeamRole, ClusterRole, Subject, RemoteClient, init_rbac_cluster_role, rbac_role_binding,
  rbac_cluster_role_binding, reconcile_cluster_role, reconcile_cluster_role_binding,
  reconcile_role_binding,
}
use greenhouse.TeamRbac.Cleanup.{Cluster, Hub}

-- strings.Join
unfoldable pub join : String → List String → String
join sep [] = ""
join sep (s ∷ []) = s
join sep (s ∷ t ∷ rest) = glue s (glue sep (join sep (t ∷ rest)))

abbrev pub add_failed : String → List String → List String
add_failed name failed_clusters =
    if contains failed_clusters name then failed_clusters else failed_clusters ++ name ∷ []

-- Why a cluster was not reconciled: the reason and the message of its status.
pub record Failure : Type 0 where
  pub reason : String
  pub message : String

module _ {L Sel P A W E : Type 0} (errors : Errors E) (hub : Hub L Sel P A W E) (now : ℕ) where
  module _ (remote : RemoteClient P A W E) (cr : ClusterRole P A) (subjects : List Subject)
      (trb : TeamRoleBinding L) where
    -- The loop over the namespaces, with the messages of its errors.
    unfoldable pub reconcile_namespaces : List String → W → List String × W
    reconcile_namespaces [] w = ([], w)
    reconcile_namespaces (n ∷ ns) w =
        let (err, w') =
          reconcile_role_binding errors remote (rbac_role_binding trb cr subjects n)
            trb.spec.create_namespaces w in
        let (messages, w'') = reconcile_namespaces ns w' in
        (elim err [ none ↦ messages | some e ↦ errors.text e ∷ messages ], w'')

    abbrev summary : List String → Option Failure
    summary [] = none
    summary (m ∷ ms) = some (record {
      reason = "RoleBindingFailed";
      message = glue "Failed to reconcile RoleBindings: " (join ", " (m ∷ ms));
    })

    -- The switch on isClusterScoped.
    unfoldable pub reconcile_bindings : W → Option Failure × W
    reconcile_bindings w =
        if is_cluster_scoped trb
        then (let (err, w') =
              reconcile_cluster_role_binding errors remote
                (rbac_cluster_role_binding trb cr subjects) w in
            (
              elim err [
                | none ↦ none
                | some e ↦ some (record { reason = "RoleBindingFailed"; message = errors.text e })
              ],
              w',
            ))
        else (let (messages, w') = reconcile_namespaces trb.spec.namespaces w in
            (summary messages, w'))

  -- What the body of the loop over the clusters does on one cluster, up to its failure.
  unfoldable pub reconcile_cluster :
      ClusterRole P A → List Subject → TeamRoleBinding L → Cluster → W → Option Failure × W
  reconcile_cluster cr subjects trb cluster w = elim (hub.new_client cluster w) [
    | failed e ↦ (some (record { reason = "ClusterConnectionFailed"; message = errors.text e }), w)
    | found remote ↦
        (let (err, w') = reconcile_cluster_role errors remote cr w in
          elim err [
            | some e ↦ (some (record { reason = "ClusterRoleFailed"; message = errors.text e }), w')
            | none ↦ reconcile_bindings remote cr subjects trb w'
          ])
  ]

  -- The status that the body of the loop writes, and the failed clusters after it.
  unfoldable pub report :
      String → Option Failure → TeamRoleBinding L → List String → TeamRoleBinding L × List String
  report name none trb failed_clusters =
      (set_propagation_status now name condition_true "RBACReconciled" "" trb, failed_clusters)
  report name (some f) trb failed_clusters = (
    set_propagation_status now name condition_false f.reason f.message trb,
    add_failed name failed_clusters,
  )

  unfoldable pub reconcile_clusters :
      ClusterRole P A
      → List Subject
      → List Cluster
      → TeamRoleBinding L
      → List String
      → W
      → TeamRoleBinding L × List String × W
  reconcile_clusters cr subjects [] trb failed_clusters w = (trb, failed_clusters, w)
  reconcile_clusters cr subjects (c ∷ cs) trb failed_clusters w =
      let (failure, w') = reconcile_cluster cr subjects trb c w in
      let (trb', failed') = report c.name failure trb failed_clusters in
      reconcile_clusters cr subjects cs trb' failed' w'

  unfoldable pub conclude : TeamRoleBinding L → List String → W → Option E × TeamRoleBinding L × W
  conclude trb [] w =
      (none, set_condition now (true_condition now rbac_ready "RBACReconciled" "") trb, w)
  conclude trb (f ∷ fs) w =
      let message = glue "Error reconciling TeamRoleBinding for clusters: " (join ", " (f ∷ fs)) in
      (
        some (errors.new message),
        set_condition now (false_condition now rbac_ready "RBACReconcileFailed" message) trb,
        w,
      )

  -- doReconcile
  unfoldable pub do_reconcile :
      TeamRole P A
      → List Cluster
      → TeamRoleBinding L
      → List Subject
      → W
      → Option E × TeamRoleBinding L × W
  unfolding conclude
  do_reconcile role clusters trb subjects w =
      let (trb', failed_clusters, w') =
        reconcile_clusters (init_rbac_cluster_role role) subjects clusters trb [] w in
      conclude trb' failed_clusters w'
