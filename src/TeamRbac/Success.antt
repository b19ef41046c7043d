-- ===== src/TeamRbac/Success.antt =====
-- What a doReconcile of teamrolebinding_controller.go (internal/controller/teamrbac) without an error
-- has achieved.
use greenhouse.Prelude.{
  ℕ, String, ◌≡◌, ◌≢◌, refl, sym, subst, Bool, true, false, Option, none, some, List, [], ◌∷◌,
  arith, All, Option-cases, List-cases, inl, inr, eq_refl,
}
use greenhouse.Platform.{Errors}
use greenhouse.Conditions.{
  Condition, condition_true, get_condition_by_type, true_condition, is_true, new_condition,
}
use greenhouse.Conditions.Stable.{get-set_given}
use greenhouse.TeamRbac.{TeamRoleBinding, rbac_ready, set_propagation_status}
use greenhouse.TeamRbac.Remote.{TeamRole, ClusterRole, Subject, init_rbac_cluster_role}
use greenhouse.TeamRbac.Cleanup.{Cluster, Hub}
use greenhouse.TeamRbac.Deploy.{
  add_failed, report, reconcile_cluster, reconcile_clusters, do_reconcile,
}
use greenhouse.TeamRbac.Status.{reported, reported-set, set-IsSlice, kept_time}
use greenhouse.Prelude.SliceLaws.{IsSlice}

abbrev pub says_true : Option Condition → Bool
says_true none = false
says_true (some c) = is_true c

kept_time-true :
    (o : Option Condition) (now : ℕ) (type reason message : String)
    → says_true (some (kept_time o (new_condition now type condition_true reason message))) ≡ true
kept_time-true none now type reason message = refl
kept_time-true (some old) now type reason message = ground arith

add_failed-cons : (name : String) (l : List String) → add_failed name l ≢ []
add_failed-cons name [] = λ e. ground (arith, e)
add_failed-cons name (x ∷ l) = λ e. ground (arith, e)

module _ {L Sel P A W E : Type 0} (errors : Errors E) (hub : Hub L Sel P A W E) (now : ℕ) where
  -- The binding is a slice of statuses, and reports success on these clusters.
  abbrev Fine : List Cluster → TeamRoleBinding L → Type 0
  Fine cs trb = IsSlice trb.status × All (λ c. says_true (reported trb c.name) ≡ true) cs

  true-kept :
      (name : String) (trb : TeamRoleBinding L) (m : String)
      → IsSlice trb.status
      → says_true (reported trb m) ≡ true
      → says_true
          (reported (set_propagation_status now name condition_true "RBACReconciled" "" trb) m)
        ≡ true
  true-kept name trb m s h =
      rw (reported-set now name condition_true "RBACReconciled" "" trb s m)
        (ground (arith, h, kept_time-true (reported trb name) now rbac_ready "RBACReconciled" ""))

  All-kept :
      (name : String) (trb : TeamRoleBinding L) (cs : List Cluster)
      → IsSlice trb.status
      → All (λ c. says_true (reported trb c.name) ≡ true) cs
      → All
          (λ c.
            says_true (
              reported
                (set_propagation_status now name condition_true "RBACReconciled" "" trb)
                c.name)
            ≡ true)
          cs
  All-kept name trb [] s h = tt
  All-kept name trb (c ∷ cs) s h = (true-kept name trb c.name s h.0, All-kept name trb cs s h.1)

  now-true :
      (name : String) (trb : TeamRoleBinding L)
      → IsSlice trb.status
      → says_true
          (reported (set_propagation_status now name condition_true "RBACReconciled" "" trb) name)
        ≡ true
  now-true name trb s =
      rw (reported-set now name condition_true "RBACReconciled" "" trb s name, eq_refl name)
        (kept_time-true (reported trb name) now rbac_ready "RBACReconciled" "")

  module _ (cr : ClusterRole P A) (subjects : List Subject) where
    -- A cluster that failed stays among the failed ones.
    failed-stays :
        (cs : List Cluster) (trb : TeamRoleBinding L) (l : List String) (w : W)
        → l ≢ []
        → (reconcile_clusters errors hub now cr subjects cs trb l w).1 ≢ []
    unfolding reconcile_clusters report
    failed-stays [] trb l w h = h
    failed-stays (c ∷ cs) trb l w h =
        elim (Option-cases (reconcile_cluster errors hub now cr subjects trb c w).0) [
          | inl e ↦ rw (e, reconcile_clusters, report) (failed-stays cs _ l _ h)
          | inr (f, e) ↦
              rw (e, reconcile_clusters, report)
                (failed-stays cs _ (add_failed c.name l) _ (add_failed-cons c.name l))
        ]

    step-true :
        (c : Cluster) (cs : List Cluster) (trb : TeamRoleBinding L) (w : W)
        → (reconcile_cluster errors hub now cr subjects trb c w).0 ≡ none
        → reconcile_clusters errors hub now cr subjects (c ∷ cs) trb [] w
          ≡ reconcile_clusters errors hub now cr subjects cs
              (set_propagation_status now c.name condition_true "RBACReconciled" "" trb)
              []
              (reconcile_cluster errors hub now cr subjects trb c w).1
    unfolding reconcile_clusters report
    step-true c cs trb w e = rw (reconcile_clusters, e, report) refl

    Fine-reconcile_clusters :
        (cs done : List Cluster) (trb : TeamRoleBinding L) (w : W)
        → Fine done trb
        → (reconcile_clusters errors hub now cr subjects cs trb [] w).1 ≡ []
        → Fine done (reconcile_clusters errors hub now cr subjects cs trb [] w).0
          × Fine cs (reconcile_clusters errors hub now cr subjects cs trb [] w).0
    unfolding reconcile_clusters report
    Fine-reconcile_clusters [] done trb w f = λ h. (f, (f.0, tt))
    Fine-reconcile_clusters (c ∷ cs) done trb w f =
        elim (Option-cases (reconcile_cluster errors hub now cr subjects trb c w).0) [
          | inl e ↦
              (let trb' =
                  set_propagation_status now c.name condition_true "RBACReconciled" "" trb in
                let w' = (reconcile_cluster errors hub now cr subjects trb c w).1 in
                let f' : Fine (c ∷ done) trb' = (
                  set-IsSlice now c.name condition_true "RBACReconciled" "" trb f.0,
                  (now-true c.name trb f.0, All-kept c.name trb done f.0 f.1),
                ) in
                subst
                  (λ (r : TeamRoleBinding L × List String × W).
                    r.1 ≡ [] → Fine done r.0 × Fine (c ∷ cs) r.0)
                  (sym (step-true c cs trb w e))
                  (λ h.
                    let (a, b) = Fine-reconcile_clusters cs (c ∷ done) trb' w' f' h in
                    ((a.0, a.1.1), (b.0, (a.1.0, b.1)))))
          | inr (x, e) ↦
              rw (e, reconcile_clusters, report)
                (λ h.
                  absurd (failed-stays cs _ (add_failed c.name []) _ (add_failed-cons c.name []) h))
        ]

  -- A doReconcile that returns no error has set a status that is true for each of its clusters, and
  -- the condition RBACReady to true. It is assumed that the statuses lie in their array.
  pub do_reconcile-success :
      (role : TeamRole P A) (clusters : List Cluster) (trb : TeamRoleBinding L)
      (subjects : List Subject) (w : W)
      → IsSlice trb.status
      → (do_reconcile errors hub now role clusters trb subjects w).0 ≡ none
      → All
          (λ c.
            says_true (reported (do_reconcile errors hub now role clusters trb subjects w).1 c.name)
            ≡ true)
          clusters
        × (says_true (
              get_condition_by_type
                (do_reconcile errors hub now role clusters trb subjects w).1.conditions
                rbac_ready)
            ≡ true)
  unfolding do_reconcile
  do_reconcile-success role clusters trb subjects w s =
      elim (List-cases
        (reconcile_clusters errors hub now (init_rbac_cluster_role role) subjects clusters trb []
          w).1) [
            | inl e ↦
                rw (do_reconcile, e)
                  (λ h. (
                    (Fine-reconcile_clusters (init_rbac_cluster_role role) subjects clusters [] trb
                        w (s, tt) e).1.1,
                    (let (c, there, status, reason) =
                          get-set_given now (true_condition now rbac_ready "RBACReconciled" "")
                            (reconcile_clusters errors hub now (init_rbac_cluster_role role)
                              subjects clusters trb [] w).0.conditions in
                        rw there (ground (arith, status))),
                  ))
            | inr (f, fs, e) ↦ rw (do_reconcile, e) (λ h. ground (arith, h))
          ]
