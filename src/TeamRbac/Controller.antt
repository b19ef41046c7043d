-- ===== src/TeamRbac/Controller.antt =====
-- EnsureCreated and EnsureDeleted of teamrolebinding_controller.go (internal/controller/teamrbac),
-- and its status function. Events, logs and metrics are left out.
use Prim.Native.String.{◌++◌ as glue}
use greenhouse.Prelude.{
  ℕ, zero, suc, String, true, false, ◌==◌, Option, none, some, List, [], ◌∷◌, ◌++◌, map,
  if◌then◌else◌, Slice,
}
use greenhouse.Platform.{Errors, Fetched, found, failed, Result, no_requeue}
use greenhouse.Conditions.{Condition, true_condition, false_condition, set_conditions}
use greenhouse.Lifecycle.{ReconcileResult, success, failure, pending, Reconciler, set_condition}
use greenhouse.TeamRbac.{
  TeamRoleBinding, TeamRoleBindingSpec, PropagationStatus, rbac_ready, remove_propagation_status,
  resolve_team_refs, init_team_role_binding_status, compute_ready_condition,
}
use greenhouse.TeamRbac.Remote.{TeamRole, generate_subjects}
use greenhouse.TeamRbac.Cleanup.{
  Cluster, Team, Hub, list_clusters, cleanup_cluster, cleanup_resources, combine_cluster_lists,
}
use greenhouse.TeamRbac.Deploy.{join, do_reconcile}

module _ {L Sel P A W E : Type 0} (errors : Errors E) (hub : Hub L Sel P A W E) (now : ℕ) where
  -- getTeamRole
  unfoldable pub get_team_role : TeamRoleBinding L → W → Fetched (TeamRole P A) E
  get_team_role trb w =
      if trb.spec.team_role_ref == ""
      then failed (errors.new (glue "error missing teamrole reference for teamrole " trb.name))
      else elim (hub.get_team_role trb.namespace trb.spec.team_role_ref w) [
        | failed e ↦ failed (errors.wrap "error getting teamrole" e)
        | found role ↦ found role
      ]

  -- The loop of getTeams: the teams that are there and the names of the missing ones.
  unfoldable pub fetch_teams :
      String → List String → W → List Team → List String → Fetched (List Team × List String) E
  fetch_teams namespace [] w teams missing = found (teams, missing)
  fetch_teams namespace (ref ∷ refs) w teams missing = elim (hub.get_team namespace ref w) [
    | found team ↦ fetch_teams namespace refs w (teams ++ team ∷ []) missing
    | failed e ↦ elim (errors.is_not_found e) [
      | true ↦ fetch_teams namespace refs w teams (missing ++ ref ∷ [])
      | false ↦ failed (errors.wrap (glue "error getting team " ref) e)
    ]
  ]

  -- getTeams
  unfoldable pub get_teams : TeamRoleBinding L → W → Fetched (List Team × List String) E
  get_teams trb w = fetch_teams trb.namespace (resolve_team_refs trb) w [] []

  abbrev pub Answer : Type 0
  Answer = (Result × ReconcileResult × Option E) × TeamRoleBinding L × W

  abbrev pub answer : ReconcileResult → Option E → TeamRoleBinding L → W → Answer
  answer outcome err trb w = ((no_requeue, outcome, err), trb, w)

  abbrev not_found_in : TeamRoleBinding L → List String → String
  not_found_in trb missing =
      glue (join ", " missing) (glue " not found in namespace " trb.namespace)

  -- EnsureCreated once the teams are known.
  unfoldable pub deploy_teams :
      TeamRole P A → List Cluster → TeamRoleBinding L → List Team → List String → W → Answer
  deploy_teams role clusters trb [] (m ∷ ms) w =
      answer success none
        (set_condition now
          (false_condition now rbac_ready "TeamNotFound"
            (glue "Team(s) " (not_found_in trb (m ∷ ms))))
          trb)
        w
  deploy_teams role clusters trb teams missing w =
      let (err, trb', w') =
        do_reconcile errors hub now role clusters trb
          (generate_subjects trb.spec.usernames (map (λ t. t.mapped_idp_group) teams)) w in
      elim err [
        | some e ↦ answer failure (some e) trb' w'
        | none ↦
            answer success none
              (elim missing [
                | [] ↦ trb'
                | m ∷ ms ↦
                    set_condition now
                      (true_condition now rbac_ready "RBACReconciled" (
                        glue "RBAC reconciled with available teams, but team(s) "
                          (not_found_in trb (m ∷ ms))))
                      trb'
              ])
              w'
      ]

  -- EnsureCreated once the clusters have been cleaned up.
  unfoldable pub deploy : TeamRole P A → List Cluster → TeamRoleBinding L → W → Answer
  unfolding deploy_teams
  deploy role [] trb w =
      answer success none
        (set_condition now (false_condition now rbac_ready "EmptyClusterList" "") trb) w
  deploy role (c ∷ cs) trb w = elim (get_teams trb w) [
    | failed e ↦ answer failure (some e) trb w
    | found (teams, missing) ↦ deploy_teams role (c ∷ cs) trb teams missing w
  ]

  -- EnsureCreated once the role is known.
  unfoldable pub deploy_role : TeamRole P A → TeamRoleBinding L → W → Answer
  unfolding deploy
  deploy_role role trb w =
      let (listed, trb') = list_clusters errors hub now trb w in
      elim listed [
        | failed e ↦
            answer failure (some e)
              (set_condition now
                (false_condition now rbac_ready "EmptyClusterList"
                  "Failed to get clusters for TeamRoleBinding")
                trb')
              w
        | found clusters ↦
            (let (err, trb'', w') = cleanup_resources errors hub now trb' clusters w in
              elim err [
                | some e ↦ answer failure (some e) trb'' w'
                | none ↦ deploy role clusters trb'' w'
              ])
      ]

  -- EnsureCreated
  unfoldable pub ensure_created : TeamRoleBinding L → W → Answer
  unfolding deploy_role
  ensure_created trb₀ w =
      let trb = init_team_role_binding_status now trb₀ in
      elim (get_team_role trb w) [
        | failed e ↦
            if errors.is_not_found e
            then answer success none
                (set_condition now
                  (false_condition now rbac_ready "TeamRoleNotFound" (
                    glue "TeamRole " (
                      glue trb.spec.team_role_ref (glue " not found in namespace " trb.namespace))))
                  trb)
                w
            else answer failure (some e) trb w
        | found role ↦ deploy_role role trb w
      ]

  -- The loop of EnsureDeleted; a cluster whose cleanup fails keeps its status.
  unfoldable pub delete_from : List Cluster → TeamRoleBinding L → W → TeamRoleBinding L × W
  delete_from [] trb w = (trb, w)
  delete_from (c ∷ cs) trb w =
      let (err, w') = cleanup_cluster errors hub now trb c w in
      delete_from cs (elim err [ none ↦ remove_propagation_status c.name trb | some e ↦ trb ]) w'

  -- The end of EnsureDeleted: nothing is left to clean up, or the finalizer stays.
  abbrev deleted_or_pending : TeamRoleBinding L → W → Answer
  deleted_or_pending trb w = elim trb.status.len [
    | zero ↦ answer success none trb w
    | suc n ↦ answer pending none trb w
  ]

  -- EnsureDeleted
  unfoldable pub ensure_deleted : TeamRoleBinding L → W → Answer
  ensure_deleted trb w =
      let (listed, trb') = list_clusters errors hub now trb w in
      elim listed [
        | failed e ↦ answer failure (some e) trb' w
        | found clusters ↦
            (let (err, all, trb'') = combine_cluster_lists errors hub now w clusters trb' in
              elim err [
                | some e ↦ answer failure (some e) trb'' w
                | none ↦ (let (trb₃, w') = delete_from all trb'' w in deleted_or_pending trb₃ w')
              ])
      ]

  -- setConditions, given the condition on the owner label; `none` is a nil dereference.
  unfoldable pub status_of :
      (TeamRoleBinding L → W → Condition) → TeamRoleBinding L → W → Option (TeamRoleBinding L)
  status_of owner_label trb w = elim (compute_ready_condition trb) [
    | none ↦ none
    | some ready ↦ some (record trb {
      conditions = set_conditions now trb.conditions (ready ∷ owner_label trb w ∷ []);
    })
  ]

  -- The controller, as Reconcile of pkg/lifecycle takes it. EnsureSuspended does nothing.
  unfoldable pub team_role_binding_reconciler :
      Reconciler (TeamRoleBindingSpec L) (Slice PropagationStatus) W E
  unfolding ensure_created ensure_deleted
  team_role_binding_reconciler = record {
    ensure_created = ensure_created;
    ensure_deleted = ensure_deleted;
    ensure_suspended = λ o w. ((no_requeue, none), o, w);
  }
