-- ===== src/Lifecycle/Phases.antt =====
-- Which phases of Reconcile (pkg/lifecycle/reconcile.go) run, and which errors it returns.
use greenhouse.Prelude.{
  ℕ, ◌≡◌, true, false, Option, none, some, arith, is_some, String, List, ◌&&◌, if◌then◌else◌,
}
use greenhouse.Platform.{Errors, Finalizers, FinalizersLaws, found, no_requeue}
use greenhouse.Object.{RuntimeObject}
use greenhouse.Lifecycle.{
  Reconciler, KubeClient, Kind, common_cleanup_finalizer, is_resource_suspended,
  is_resource_deleted, pending, setup_delete_state,
}
use greenhouse.Lifecycle.Reconcile.{
  reconcile, reconcile_object, reconcile_suspended, reconcile_deleted, patch_status,
  update_last_reconciled, remove_finalizer, ensure_finalizer, ensure_created, ensure_deleted,
  resume,
}

module _ {S T W E : Type 0} (errors : Errors E) (finalizers : Finalizers)
    (client : KubeClient S T W E) (kind : Kind T) (now : ℕ) where
  pub reconcile-found :
      (r : Reconciler S T W E) (f : Option (RuntimeObject S T → W → RuntimeObject S T)) (w : W)
      (o : RuntimeObject S T)
      → client.get w ≡ found o
      → reconcile errors finalizers client kind r f now w
        ≡ reconcile_object errors finalizers client kind r f now o w
  unfolding reconcile
  reconcile-found r f w o g = rw (g, reconcile)

  -- Of an object with a deletion timestamp, the outcome of Reconcile does not depend on
  -- EnsureCreated nor on the status function: two controllers with the same EnsureDeleted and
  -- EnsureSuspended have the same outcome.
  pub reconcile_deleting :
      (r r' : Reconciler S T W E) (f f' : Option (RuntimeObject S T → W → RuntimeObject S T))
      (w : W) (o : RuntimeObject S T)
      → ((p : RuntimeObject S T) (v : W) → r.ensure_deleted p v ≡ r'.ensure_deleted p v)
      → ((p : RuntimeObject S T) (v : W) → r.ensure_suspended p v ≡ r'.ensure_suspended p v)
      → client.get w ≡ found o
      → is_some o.deletion_timestamp ≡ true
      → reconcile errors finalizers client kind r f now w
        ≡ reconcile errors finalizers client kind r' f' now w
  unfolding reconcile_object reconcile_suspended reconcile_deleted ensure_deleted patch_status
      update_last_reconciled remove_finalizer ensure_finalizer
  reconcile_deleting r r' f f' w o d s g h =
      rw (reconcile-found r f w o g, reconcile-found r' f' w o g)
        (ground (arith, d (setup_delete_state errors now o pending none) w, s o w))

  -- An object without the cleanup finalizer that is not being deleted reaches no method of the
  -- controller: Reconcile ends with one update of the object, which adds the finalizer and changes
  -- nothing else of it, and returns the error of that update.
  pub reconcile_unmarked :
      FinalizersLaws finalizers
      → (r : Reconciler S T W E) (f : Option (RuntimeObject S T → W → RuntimeObject S T)) (w : W)
        (o : RuntimeObject S T)
      → client.get w ≡ found o
      → is_some o.deletion_timestamp ≡ false
      → finalizers.contains o.finalizers common_cleanup_finalizer ≡ false
      → (l : List String) × (finalizers.contains l common_cleanup_finalizer ≡ true)
        × (reconcile errors finalizers client kind r f now w ≡ (
            let marked : RuntimeObject S T = record o {
              metadata = record o.metadata { finalizers = l };
            } in
            record {
              result = no_requeue;
              error = (client.update marked w).0;
              world = (client.update marked w).1;
            }))
  unfolding reconcile_object ensure_finalizer
  reconcile_unmarked laws r f w o g h n = (
    (finalizers.add o.finalizers common_cleanup_finalizer).0,
    laws.contains-add o.finalizers common_cleanup_finalizer,
    rw (reconcile-found r f w o g)
        (ground (arith, laws.add-reports o.finalizers common_cleanup_finalizer)),
  )

  -- The error of the method of the controller that runs for an object with the finalizer; none runs
  -- for a deleted one whose status says Deleted.
  abbrev pub method_error :
      Reconciler S T W E
      → Option (RuntimeObject S T → W → RuntimeObject S T)
      → RuntimeObject S T
      → W
      → Option E
  method_error r f o w =
      if is_resource_suspended o && kind.can_be_suspended
      then (r.ensure_suspended o w).0.1
      else if is_some o.deletion_timestamp
      then (if is_resource_deleted o
          then none
          else (r.ensure_deleted (setup_delete_state errors now o pending none) w).0.2)
      else (r.ensure_created (resume errors finalizers client kind r f now o) w).0.2

  -- An error of EnsureSuspended, EnsureDeleted or EnsureCreated is never lost: if the one of them that
  -- runs for an object that is found with the finalizer returns an error, so does Reconcile.
  pub reconcile_reports :
      (r : Reconciler S T W E) (f : Option (RuntimeObject S T → W → RuntimeObject S T)) (w : W)
      (o : RuntimeObject S T) (e : E)
      → client.get w ≡ found o
      → finalizers.contains o.finalizers common_cleanup_finalizer ≡ true
      → method_error r f o w ≡ some e
      → is_some (reconcile errors finalizers client kind r f now w).error ≡ true
  unfolding reconcile_object reconcile_suspended reconcile_deleted patch_status ensure_deleted
      ensure_created
  reconcile_reports r f w o e g c h = rw (reconcile-found r f w o g) (ground arith)
