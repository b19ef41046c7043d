-- ===== src/TeamRbac/Skips.antt =====
-- cleanupResources of teamrolebinding_controller.go (internal/controller/teamrbac): its loop over
-- statuses that it removes.
use greenhouse.Prelude.{
  ℕ, ◌≡◌, refl, true, false, ◌==◌, eq_refl, none, List, [], ◌∷◌, arith, slice_delete_func,
}
use greenhouse.Platform.{Errors, failed}
use greenhouse.TeamRbac.{
  TeamRoleBinding, PropagationStatus, remove_propagation_status, zero_propagation_status,
}
use greenhouse.TeamRbac.Cleanup.{
  Cluster, Hub, has_name, cleanup_entry, cleanup_from, cleanup_resources,
}

module _ {L Sel P A W E : Type 0} (errors : Errors E) (hub : Hub L Sel P A W E) (now : ℕ) where
  entry_gone :
      (clusters : List Cluster) (s : PropagationStatus) (trb : TeamRoleBinding L) (w : W) (e : E)
      → has_name clusters s.cluster_name ≡ false
      → hub.get_cluster trb.namespace s.cluster_name w ≡ failed e
      → errors.is_not_found e ≡ true
      → cleanup_entry errors hub now clusters s trb w
        ≡ (none, remove_propagation_status s.cluster_name trb, w)
  unfolding cleanup_entry
  entry_gone clusters s trb w e h g f = rw (cleanup_entry, h, g, f) refl

  -- Of a binding that reports two clusters, both no longer selected and the first one gone, the
  -- cleanup removes the status of the first and never looks at the second: it ends without an error
  -- and with the status of the second alone, in the world as it was. The names of the two differ
  -- and the second is not empty; a cluster of the empty name is neither selected nor found.
  pub cleanup_resources-skips :
      (trb : TeamRoleBinding L) (first second : PropagationStatus) (clusters : List Cluster) (w : W)
      (e e' : E)
      → has_name clusters first.cluster_name ≡ false
      → hub.get_cluster trb.namespace first.cluster_name w ≡ failed e
      → has_name clusters "" ≡ false
      → hub.get_cluster trb.namespace "" w ≡ failed e'
      → errors.is_not_found e ≡ true
      → errors.is_not_found e' ≡ true
      → (second.cluster_name == first.cluster_name) ≡ false
      → (second.cluster_name == "") ≡ false
      → cleanup_resources errors hub now
          (record trb { status = record { array = first ∷ second ∷ []; len = 2 } })
          clusters
          w
        ≡ (
          none,
          record trb { status = record { array = second ∷ zero_propagation_status ∷ []; len = 1 } },
          w,
        )
  unfolding cleanup_resources cleanup_from remove_propagation_status slice_delete_func
  cleanup_resources-skips trb first second clusters w e e' h g h' g' f f' d n = ground (
    arith,
    entry_gone clusters first
        (record trb { status = record { array = first ∷ second ∷ []; len = 2 } }) w e h g f,
    entry_gone clusters zero_propagation_status
        (record trb { status = record { array = second ∷ zero_propagation_status ∷ []; len = 1 } })
        w e' h' g' f',
    eq_refl first.cluster_name,
  )
