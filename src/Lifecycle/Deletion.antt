-- ===== src/Lifecycle/Deletion.antt =====
-- The cleanup finalizer in Reconcile of pkg/lifecycle/reconcile.go: when it stays.
use greenhouse.Prelude.{
  not, ℕ, String, List, ◌≡◌, true, false, ◌&&◌, Option, none, arith, is_some, ◌∙◌, ap, if_ind, inl,
  inr, Bool-cases,
}
use greenhouse.Platform.{
  Errors, Finalizers, FinalizersLaws, Result, no_requeue, found, Fetched-cases,
}
use greenhouse.Object.{RuntimeObject}
use greenhouse.Lifecycle.{
  set_condition, suspension, Reconciler, KubeClient, Kind, Outcome, common_cleanup_finalizer,
  is_resource_suspended, is_resource_deleted, pending, setup_delete_state,
}
use greenhouse.Lifecycle.Reconcile.{
  reconcile, reconcile_object, reconcile_deleted, reconcile_suspended, ensure_created,
  ensure_deleted, ensure_finalizer, patch_status, finish, resume,
}
use greenhouse.Lifecycle.Store.{Store, Updated, is_marked, is_marked_in, KeepsMark}

-- An update with finalizers among which is the cleanup finalizer keeps the mark.
Updated-is_marked :
    (finalizers : Finalizers) (before after : Option (List String)) (given : List String)
    → FinalizersLaws finalizers
    → Updated before after given
    → finalizers.contains given common_cleanup_finalizer ≡ true
    → is_marked_in finalizers before ≡ true
    → is_marked_in finalizers after ≡ true
Updated-is_marked finalizers before after given laws (inl e) c m = rw e m
Updated-is_marked finalizers before after given laws (inr (inl e)) c m = rw e c
Updated-is_marked finalizers before after given laws (inr (inr (e, n))) c m =
    absurd (ground (arith, c, n, laws.contains-nil common_cleanup_finalizer))

module _ {S T W E : Type 0} (errors : Errors E) (finalizers : Finalizers)
    (laws : FinalizersLaws finalizers) (client : KubeClient S T W E) (kind : Kind T)
    (r : Reconciler S T W E) (f : Option (RuntimeObject S T → W → RuntimeObject S T)) (now : ℕ)
    (store : Store client) (keeps : KeepsMark finalizers store r) where
  marked-patch_status :
      (res : Result × Option E) (old o : RuntimeObject S T) (w : W)
      → is_marked finalizers store w ≡ true
      → is_marked finalizers store
          (patch_status errors finalizers client kind r f now res old o w).world
        ≡ true
  unfolding patch_status
  marked-patch_status (res, err) old o w m =
      ap (is_marked_in finalizers) (store.patched old o w) ∙ m

  module _ (w : W) (m : is_marked finalizers store w ≡ true) (o : RuntimeObject S T) where
    marked-reconcile_suspended :
        is_marked finalizers store
          (reconcile_suspended errors finalizers client kind r f now o w).world
        ≡ true
    unfolding reconcile_suspended
    marked-reconcile_suspended =
        marked-patch_status (r.ensure_suspended o w).0 o
          (set_condition now (suspension errors now (r.ensure_suspended o w).0.1)
            (r.ensure_suspended o w).1)
          (r.ensure_suspended o w).2 (keeps.suspended o w m)

    marked-finish_created :
        is_marked finalizers store
          (finish errors finalizers client kind r f now o
            (ensure_created errors finalizers client kind r f now o w)).world
        ≡ true
    unfolding ensure_created
    marked-finish_created =
        let ((result, outcome, err), o', w') =
          r.ensure_created (resume errors finalizers client kind r f now o) w in
        marked-patch_status (result, err) o _ w' (keeps.created _ w m)

    marked-finish_deleted :
        is_marked finalizers store
          (finish errors finalizers client kind r f now o
            (ensure_deleted errors finalizers client kind r f now o w)).world
        ≡ true
    unfolding ensure_deleted
    marked-finish_deleted =
        let waiting = setup_delete_state errors now o pending none in
        let ((result, outcome, err), o', w') = r.ensure_deleted waiting w in
        marked-patch_status (result, err) o _ w' (keeps.deleted waiting w m)

    marked-ensure_finalizer :
        is_marked finalizers store (ensure_finalizer errors finalizers client kind r f now o w).1
        ≡ true
    unfolding ensure_finalizer
    marked-ensure_finalizer =
        let l = (finalizers.add o.finalizers common_cleanup_finalizer).0 in
        let added = record o { metadata = record o.metadata { finalizers = l } } in
        elim (Bool-cases (finalizers.add o.finalizers common_cleanup_finalizer).1) [
          | inr e ↦ rw (ensure_finalizer, e) m
          | inl e ↦
              rw (ensure_finalizer, e)
                (Updated-is_marked finalizers (store.stored_finalizers w)
                  (store.stored_finalizers (client.update added w).1) l laws (store.updated added w)
                  (laws.contains-add o.finalizers common_cleanup_finalizer) m)
        ]

    marked-reconcile_deleted :
        is_resource_deleted o ≡ false
        → is_marked finalizers store
            (reconcile_deleted errors finalizers client kind r f now o w).world
          ≡ true
    unfolding reconcile_deleted
    marked-reconcile_deleted d = rw d (
        if_ind (λ (out : Outcome W E). is_marked finalizers store out.world ≡ true)
          (not (finalizers.contains o.finalizers common_cleanup_finalizer))
          {x = record { result = no_requeue; error = none; world = w }}
          {y = finish errors finalizers client kind r f now o
            (ensure_deleted errors finalizers client kind r f now o w)}
          (λ _. m) (λ _. marked-finish_deleted))

    marked-reconcile_object :
        is_resource_deleted o ≡ false
        → is_marked finalizers store
            (reconcile_object errors finalizers client kind r f now o w).world
          ≡ true
    unfolding reconcile_object
    marked-reconcile_object d =
        let Kept : Outcome W E → Type 0 = λ out. is_marked finalizers store out.world ≡ true in
        if_ind Kept
          (not (is_some o.deletion_timestamp)
            && not (finalizers.contains o.finalizers common_cleanup_finalizer))
          (λ _. marked-ensure_finalizer)
          (λ _.
            if_ind Kept (is_resource_suspended o && kind.can_be_suspended)
              (λ _. marked-reconcile_suspended)
              (λ _.
                if_ind Kept (is_some o.deletion_timestamp) (λ _. marked-reconcile_deleted d)
                  (λ _. marked-finish_created)))

-- While the server stores an object with the cleanup finalizer, a reconciliation leaves the finalizer
-- there, unless the status of the object that Get finds already has the condition Delete, true, with
-- the reason Deleted: whatever else Get answers, a failure or an object that is out of date
-- included, whatever the controller returns, and whichever call of the API server fails. It is
-- assumed that the methods of the controller do not take the finalizer off.
pub reconcile-keeps_finalizer :
    {S T W E : Type 0} (errors : Errors E) (finalizers : Finalizers) (client : KubeClient S T W E)
    (kind : Kind T) (r : Reconciler S T W E)
    (f : Option (RuntimeObject S T → W → RuntimeObject S T)) (now : ℕ) (store : Store client)
    (w : W)
    → FinalizersLaws finalizers
    → KeepsMark finalizers store r
    → ((o : RuntimeObject S T) → client.get w ≡ found o → is_resource_deleted o ≡ false)
    → is_marked finalizers store w ≡ true
    → is_marked finalizers store (reconcile errors finalizers client kind r f now w).world ≡ true
unfolding reconcile
reconcile-keeps_finalizer errors finalizers client kind r f now store w laws keeps read m =
    elim (Fetched-cases (client.get w)) [
      | inr (e, g) ↦ rw (reconcile, g) m
      | inl (o, g) ↦
          rw (reconcile, g)
            (marked-reconcile_object errors finalizers laws client kind r f now store keeps w m o
              (read o g))
    ]
