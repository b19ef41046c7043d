-- ===== src/TeamRbac/Presence.antt =====
-- EnsureCreated of teamrolebinding_controller.go (internal/controller/teamrbac) leaves a status that has
-- the Ready condition, whatever it meets on its way.
use greenhouse.Prelude.{
  map, ℕ, zero, suc, ◌+◌, String, ◌≡◌, refl, ◌∙◌, true, ◌==◌, eq_refl, none, some, List, [], ◌∷◌,
  arith, is_some, get_elem?, Bool-cases, Option-cases, inl, inr,
}
use greenhouse.Platform.{Errors, Fetched-cases}
use greenhouse.Conditions.{
  Condition, is_ready_true, get_condition_by_type, ready_condition, owner_label_set_condition,
  unknown_condition,
}
use greenhouse.Conditions.Laws.{get-set_conditions, updated}
use greenhouse.Lifecycle.{set_condition}
use greenhouse.TeamRbac.{
  TeamRoleBinding, PropagationStatus, rbac_ready, set_propagation_status, remove_propagation_status,
  init_team_role_binding_status,
}
use greenhouse.TeamRbac.Remote.{
  TeamRole, ClusterRole, Subject, init_rbac_cluster_role, generate_subjects,
}
use greenhouse.TeamRbac.Cleanup.{
  Cluster, Team, Hub, drop_not_ready, list_clusters, cleanup_entry, cleanup_from, cleanup_resources,
}
use greenhouse.TeamRbac.Deploy.{
  do_reconcile, conclude, reconcile_clusters, reconcile_cluster, report,
}
use greenhouse.TeamRbac.Controller.{
  ensure_created, get_team_role, get_teams, deploy_teams, deploy, deploy_role,
}

module _ {L : Type 0} where
  -- The binding has the condition.
  abbrev pub Has : String → TeamRoleBinding L → Type 0
  Has type trb = is_some (get_condition_by_type trb.conditions type) ≡ true

  Has-set_condition :
      (now : ℕ) (c : Condition) (type : String) (trb : TeamRoleBinding L)
      → Has type trb
      → Has type (set_condition now c trb)
  unfolding updated
  Has-set_condition now c type trb h =
      rw (get-set_conditions now (c ∷ []) trb.conditions type) (ground (arith, h))

  -- One round of the loop of initTeamRoleBindingStatus.
  abbrev ensure : ℕ → String → TeamRoleBinding L → TeamRoleBinding L
  ensure now ct trb = elim (get_condition_by_type trb.conditions ct) [
    | none ↦ set_condition now (unknown_condition now ct "" "") trb
    | some c ↦ trb
  ]

  Has-ensure :
      (now : ℕ) (ct type : String) (trb : TeamRoleBinding L)
      → Has type trb
      → Has type (ensure now ct trb)
  Has-ensure now ct type trb h = elim (Option-cases (get_condition_by_type trb.conditions ct)) [
    | inl e ↦ rw (ensure, e) (Has-set_condition now (unknown_condition now ct "" "") type trb h)
    | inr (c, e) ↦ rw (ensure, e) h
  ]

  ensure-Has : (now : ℕ) (ct : String) (trb : TeamRoleBinding L) → Has ct (ensure now ct trb)
  unfolding updated
  ensure-Has now ct trb = elim (Option-cases (get_condition_by_type trb.conditions ct)) [
    | inl e ↦
        rw
          (
            ensure,
            e,
            get-set_conditions now (unknown_condition now ct "" "" ∷ []) trb.conditions ct,
            eq_refl ct,
          )
          refl
    | inr (c, e) ↦ rw (ensure, e, e) refl
  ]

  Has-init :
      (now : ℕ) (trb : TeamRoleBinding L)
      → Has ready_condition (init_team_role_binding_status now trb)
  unfolding init_team_role_binding_status
  Has-init now trb =
      Has-ensure now owner_label_set_condition ready_condition
        (ensure now rbac_ready (ensure now ready_condition trb))
        (Has-ensure now rbac_ready ready_condition (ensure now ready_condition trb)
          (ensure-Has now ready_condition trb))

module _ {L Sel P A W E : Type 0} (errors : Errors E) (hub : Hub L Sel P A W E) (now : ℕ) where
  conditions-drop_not_ready :
      (cs : List Cluster) (trb : TeamRoleBinding L)
      → (drop_not_ready errors hub now cs trb).1.conditions ≡ trb.conditions
  unfolding drop_not_ready set_propagation_status
  conditions-drop_not_ready [] trb = refl
  conditions-drop_not_ready (c ∷ cs) trb = elim (Bool-cases (is_ready_true c.conditions)) [
    | inl e ↦ rw e (conditions-drop_not_ready cs trb)
    | inr e ↦ rw e (conditions-drop_not_ready cs _)
  ]

  conditions-list_clusters :
      (trb : TeamRoleBinding L) (w : W)
      → (list_clusters errors hub now trb w).1.conditions ≡ trb.conditions
  unfolding list_clusters
  conditions-list_clusters trb w = elim (Bool-cases (trb.spec.cluster_selector.name == "")) [
    | inr name ↦ rw (name, list_clusters) refl
    | inl unnamed ↦
        elim (Fetched-cases
          (hub.label_selector_as_selector trb.spec.cluster_selector.label_selector)) [
            | inr (x, e) ↦ rw (unnamed, e, list_clusters) refl
            | inl (sel, e) ↦ elim (Fetched-cases (hub.list_clusters trb.namespace sel w)) [
              | inr (x, e') ↦ rw (unnamed, e, e', list_clusters) refl
              | inl (cs, e') ↦ rw (unnamed, e, e', list_clusters) (conditions-drop_not_ready cs trb)
            ]
          ]
  ]

  conditions-cleanup_entry :
      (clusters : List Cluster) (s : PropagationStatus) (trb : TeamRoleBinding L) (w : W)
      → (cleanup_entry errors hub now clusters s trb w).1.conditions ≡ trb.conditions
  unfolding cleanup_entry set_propagation_status remove_propagation_status
  conditions-cleanup_entry clusters s trb w = ground arith

  conditions-cleanup_from :
      (clusters : List Cluster) (left i : ℕ) (trb : TeamRoleBinding L) (w : W)
      → (cleanup_from errors hub now clusters left i trb w).1.conditions ≡ trb.conditions
  unfolding cleanup_from
  conditions-cleanup_from clusters zero i trb w = refl
  conditions-cleanup_from clusters (suc left) i trb w =
      elim (Option-cases (get_elem? trb.status.array i)) [
        | inl e ↦ rw (e, cleanup_from) refl
        | inr (s, e) ↦ elim (Option-cases (cleanup_entry errors hub now clusters s trb w).0) [
          | inl e' ↦
              rw (e, cleanup_from, e')
                (conditions-cleanup_from clusters left (i + 1) _ _
                  ∙ conditions-cleanup_entry clusters s trb w)
          | inr (x, e') ↦ rw (e, cleanup_from, e') (conditions-cleanup_entry clusters s trb w)
        ]
      ]

  conditions-reconcile_clusters :
      (cr : ClusterRole P A) (subjects : List Subject) (cs : List Cluster) (trb : TeamRoleBinding L)
      (l : List String) (w : W)
      → (reconcile_clusters errors hub now cr subjects cs trb l w).0.conditions ≡ trb.conditions
  unfolding reconcile_clusters report set_propagation_status
  conditions-reconcile_clusters cr subjects [] trb l w = refl
  conditions-reconcile_clusters cr subjects (c ∷ cs) trb l w =
      elim (Option-cases (reconcile_cluster errors hub now cr subjects trb c w).0) [
        | inl e ↦
            rw (e, reconcile_clusters, report) (conditions-reconcile_clusters cr subjects cs _ _ _)
        | inr (f, e) ↦
            rw (e, reconcile_clusters, report) (conditions-reconcile_clusters cr subjects cs _ _ _)
      ]

  abbrev pub Ready : TeamRoleBinding L → Type 0
  Ready trb = Has ready_condition trb

  Ready-same :
      (trb trb' : TeamRoleBinding L) → trb'.conditions ≡ trb.conditions → Ready trb → Ready trb'
  Ready-same trb trb' e h = rw e h

  Ready-conclude :
      (trb : TeamRoleBinding L) (l : List String) (w : W)
      → Ready trb
      → Ready (conclude errors hub now trb l w).1
  unfolding conclude
  Ready-conclude trb [] w h = Has-set_condition now _ ready_condition trb h
  Ready-conclude trb (f ∷ fs) w h = Has-set_condition now _ ready_condition trb h

  Ready-do_reconcile :
      (role : TeamRole P A) (clusters : List Cluster) (trb : TeamRoleBinding L)
      (subjects : List Subject) (w : W)
      → Ready trb
      → Ready (do_reconcile errors hub now role clusters trb subjects w).1
  unfolding do_reconcile
  Ready-do_reconcile role clusters trb subjects w h =
      let trb' =
        (reconcile_clusters errors hub now (init_rbac_cluster_role role) subjects clusters trb []
          w).0 in
      Ready-conclude trb' _ _ (
        Ready-same trb trb'
          (conditions-reconcile_clusters (init_rbac_cluster_role role) subjects clusters trb [] w)
          h)

  Ready-deploy_teams :
      (role : TeamRole P A) (clusters : List Cluster) (trb : TeamRoleBinding L) (teams : List Team)
      (missing : List String) (w : W)
      → Ready trb
      → Ready (deploy_teams errors hub now role clusters trb teams missing w).1
  unfolding deploy_teams
  Ready-deploy_teams role clusters trb [] (m ∷ ms) w h =
      Has-set_condition now _ ready_condition trb h
  Ready-deploy_teams role clusters trb [] [] w h =
      let subjects =
        generate_subjects trb.spec.usernames (map (λ (t : Team). t.mapped_idp_group) []) in
      let h' = Ready-do_reconcile role clusters trb subjects w h in
      elim (Option-cases (do_reconcile errors hub now role clusters trb subjects w).0) [
        | inl e ↦ rw (deploy_teams, e) h'
        | inr (x, e) ↦ rw (deploy_teams, e) h'
      ]
  Ready-deploy_teams role clusters trb (t ∷ ts) [] w h =
      let subjects =
        generate_subjects trb.spec.usernames (map (λ (t : Team). t.mapped_idp_group) (t ∷ ts)) in
      let h' = Ready-do_reconcile role clusters trb subjects w h in
      elim (Option-cases (do_reconcile errors hub now role clusters trb subjects w).0) [
        | inl e ↦ rw (deploy_teams, e) h'
        | inr (x, e) ↦ rw (deploy_teams, e) h'
      ]
  Ready-deploy_teams role clusters trb (t ∷ ts) (m ∷ ms) w h =
      let subjects =
        generate_subjects trb.spec.usernames (map (λ (t : Team). t.mapped_idp_group) (t ∷ ts)) in
      let h' = Ready-do_reconcile role clusters trb subjects w h in
      elim (Option-cases (do_reconcile errors hub now role clusters trb subjects w).0) [
        | inl e ↦
            rw (deploy_teams, e)
              (Has-set_condition now _ ready_condition
                (do_reconcile errors hub now role clusters trb subjects w).1 h')
        | inr (x, e) ↦ rw (deploy_teams, e) h'
      ]

  Ready-deploy :
      (role : TeamRole P A) (clusters : List Cluster) (trb : TeamRoleBinding L) (w : W)
      → Ready trb
      → Ready (deploy errors hub now role clusters trb w).1
  unfolding deploy
  Ready-deploy role [] trb w h = Has-set_condition now _ ready_condition trb h
  Ready-deploy role (c ∷ cs) trb w h = elim (Fetched-cases (get_teams errors hub now trb w)) [
    | inl ((teams, missing), e) ↦
        rw (e, deploy) (Ready-deploy_teams role (c ∷ cs) trb teams missing w h)
    | inr (x, e) ↦ rw (e, deploy) h
  ]

  Ready-deploy_role :
      (role : TeamRole P A) (trb : TeamRoleBinding L) (w : W)
      → Ready trb
      → Ready (deploy_role errors hub now role trb w).1
  unfolding deploy_role cleanup_resources
  Ready-deploy_role role trb w h =
      let trb' = (list_clusters errors hub now trb w).1 in
      let h' = Ready-same trb trb' (conditions-list_clusters trb w) h in
      elim (Fetched-cases (list_clusters errors hub now trb w).0) [
        | inr (x, e) ↦ rw (e, deploy_role) (Has-set_condition now _ ready_condition trb' h')
        | inl (cs, e) ↦
            (let trb'' = (cleanup_resources errors hub now trb' cs w).1 in
              let h'' =
                Ready-same trb' trb'' (conditions-cleanup_from cs trb'.status.len 0 trb' w) h' in
              elim (Option-cases (cleanup_resources errors hub now trb' cs w).0) [
                | inr (x, e') ↦ rw (e, deploy_role, e') h''
                | inl e' ↦ rw (e, deploy_role, e') (Ready-deploy role cs _ _ h'')
              ])
      ]

  pub Ready-ensure_created :
      (trb : TeamRoleBinding L) (w : W) → Ready (ensure_created errors hub now trb w).1
  unfolding ensure_created
  Ready-ensure_created trb₀ w =
      let trb = init_team_role_binding_status now trb₀ in
      elim (Fetched-cases (get_team_role errors hub now trb w)) [
        | inl (role, e) ↦ rw (e, ensure_created) (Ready-deploy_role role trb w (Has-init now trb₀))
        | inr (x, e) ↦ elim (Bool-cases (errors.is_not_found x)) [
          | inl gone ↦
              rw (e, ensure_created, gone)
                (Has-set_condition now _ ready_condition trb (Has-init now trb₀))
          | inr other ↦ rw (e, ensure_created, other) (Has-init now trb₀)
        ]
      ]
