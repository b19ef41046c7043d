-- ===== src/Lifecycle/Progress.antt =====
-- Reconcile of pkg/lifecycle/reconcile.go gets on: the finalizer of a deleted object goes.
use greenhouse.Prelude.{
  ℕ, String, List, [], ◌≡◌, ◌⊎◌, inl, inr, true, false, ◌&&◌, eq_iff, Option, none, some, arith,
  is_some, ◌∙◌, ap, refl,
}
use greenhouse.Platform.{Errors, Finalizers, FinalizersLaws, found}
use greenhouse.Object.{RuntimeObject}
use greenhouse.Conditions.{get_condition_by_type, delete_condition, true_condition}
use greenhouse.Conditions.Stable.{get-set_given}
use greenhouse.Lifecycle.{
  Reconciler, KubeClient, Kind, common_cleanup_finalizer, is_resource_suspended,
  is_resource_deleted, pending, success, setup_delete_state, deleted_reason, is_deleted,
}
use greenhouse.Lifecycle.Reconcile.{
  reconcile, reconcile_object, reconcile_deleted, remove_finalizer, ensure_deleted, patch_status,
  update_last_reconciled,
}
use greenhouse.Lifecycle.Store.{Store, is_marked, is_marked_in}
use greenhouse.Lifecycle.Phases.{reconcile-found}

module _ {S T W E : Type 0} (errors : Errors E) (finalizers : Finalizers)
    (client : KubeClient S T W E) (kind : Kind T) (r : Reconciler S T W E)
    (f : Option (RuntimeObject S T → W → RuntimeObject S T)) (now : ℕ) where
  -- An object that is deleted, has the finalizer and is not suspended, as Reconcile reads it.
  pub record IsDoomed (o : RuntimeObject S T) : Type 0 where
    pub marked : finalizers.contains o.finalizers common_cleanup_finalizer ≡ true
    pub running : is_resource_suspended o && kind.can_be_suspended ≡ false
    pub stamped : is_some o.deletion_timestamp ≡ true

  is_deleted-success :
      (o : RuntimeObject S T) (err : Option E)
      → is_deleted (
          get_condition_by_type
            (setup_delete_state errors now o success err).conditions
            delete_condition)
        ≡ true
  unfolding setup_delete_state
  is_deleted-success o err =
      let (c, there, status, reason) =
        get-set_given now
          (true_condition now delete_condition deleted_reason "resource is successfully deleted")
          o.conditions in
      rw there (ground (arith, eq_iff c.reason deleted_reason))

  conditions-update_last_reconciled :
      (o : RuntimeObject S T)
      → (update_last_reconciled errors finalizers client kind r f now o).conditions ≡ o.conditions
  unfolding update_last_reconciled
  conditions-update_last_reconciled o = ground arith

  -- What the reconciliation of a doomed object reports: the object as EnsureDeleted left it, with its
  -- outcome among the conditions.
  abbrev pub reported : RuntimeObject S T → W → RuntimeObject S T
  reported o w =
      let ((result, outcome, err), o', w') =
        r.ensure_deleted (setup_delete_state errors now o pending none) w in
      update_last_reconciled errors finalizers client kind r f now
        (setup_delete_state errors now o' outcome err)

  -- One that finds the object without the condition Deleted patches the status with its report.
  first_reports :
      (o : RuntimeObject S T) (w : W)
      → client.get w ≡ found o
      → IsDoomed o
      → is_resource_deleted o ≡ false
      → (reconcile errors finalizers client kind r f now w).world
        ≡ (client.patch_status o
            (reported o w)
            (r.ensure_deleted (setup_delete_state errors now o pending none) w).2).1
  unfolding reconcile_object reconcile_deleted ensure_deleted patch_status
  first_reports o w g h d =
      rw
        (
          reconcile-found errors finalizers client kind now r f w o g,
          h.running,
          h.stamped,
          h.marked,
          d,
        )
        refl

  -- The report of a success says Deleted.
  says_deleted :
      (o p : RuntimeObject S T) (w : W)
      → (r.ensure_deleted (setup_delete_state errors now o pending none) w).0.1 ≡ success
      → p.conditions ≡ (reported o w).conditions
      → is_resource_deleted p ≡ true
  unfolding is_resource_deleted
  says_deleted o p w done same =
      let ended = r.ensure_deleted (setup_delete_state errors now o pending none) w in
      rw
        (
          same,
          conditions-update_last_reconciled
              (setup_delete_state errors now ended.1 ended.0.1 ended.0.2),
          done,
        )
        (is_deleted-success ended.1 ended.0.2)

  abbrev pub unmarked : RuntimeObject S T → RuntimeObject S T
  unmarked o = record o {
    metadata = record o.metadata {
      finalizers = (finalizers.remove o.finalizers common_cleanup_finalizer).0;
    };
  }

  -- One that finds the object with the condition Deleted updates it without the finalizer.
  last_removes :
      FinalizersLaws finalizers
      → (p : RuntimeObject S T) (w : W) → client.get w ≡ found p
      → IsDoomed p
      → is_resource_deleted p ≡ true
      → (reconcile errors finalizers client kind r f now w).world ≡ (client.update (unmarked p) w).1
  unfolding reconcile_object reconcile_deleted remove_finalizer
  last_removes laws p w g h d =
      rw
        (
          reconcile-found errors finalizers client kind now r f w p g,
          h.running,
          h.stamped,
          h.marked,
          d,
          remove_finalizer,
          laws.remove-reports p.finalizers common_cleanup_finalizer,
          h.marked,
        )
        refl

-- An accepted update without the finalizer leaves an object without it, or none.
accepted-unmarked :
    (finalizers : Finalizers) (l given : List String) (after : Option (List String))
    → FinalizersLaws finalizers
    → given ≡ (finalizers.remove l common_cleanup_finalizer).0
    → (after ≡ some given) ⊎ ((after ≡ none) × (given ≡ []))
    → is_marked_in finalizers after ≡ false
accepted-unmarked finalizers l given after laws e (inr (n, m)) = rw n refl
accepted-unmarked finalizers l given after laws e (inl s) =
    rw (s, e) (laws.contains-remove l common_cleanup_finalizer)

-- Deletion comes to its end. If Get finds an object that is deleted, has the finalizer, is not
-- suspended and does not yet say Deleted, and EnsureDeleted answers Success, then Reconcile ends by
-- patching the status with a report; and once Get finds the object, still with the finalizer, with
-- the conditions of that report, at any later time and whatever has happened in between, Reconcile
-- leaves no object with the finalizer in the API server, if the server accepts its update.
pub deletion_completes :
    {S T W E : Type 0} (errors : Errors E) (finalizers : Finalizers) (client : KubeClient S T W E)
    (kind : Kind T) (r : Reconciler S T W E)
    (f : Option (RuntimeObject S T → W → RuntimeObject S T)) (now later : ℕ) (store : Store client)
    (w v : W) (o p : RuntimeObject S T)
    → FinalizersLaws finalizers
    → client.get w ≡ found o
    → IsDoomed errors finalizers client kind r f now o
    → is_resource_deleted o ≡ false
    → (r.ensure_deleted (setup_delete_state errors now o pending none) w).0.1 ≡ success
    → client.get v ≡ found p
    → IsDoomed errors finalizers client kind r f later p
    → p.conditions ≡ (reported errors finalizers client kind r f now o w).conditions
    → (client.update (unmarked errors finalizers client kind r f later p) v).0 ≡ none
    → ((reconcile errors finalizers client kind r f now w).world
        ≡ (client.patch_status o
            (reported errors finalizers client kind r f now o w)
            (r.ensure_deleted (setup_delete_state errors now o pending none) w).2).1)
      × (is_marked finalizers store (reconcile errors finalizers client kind r f later v).world
          ≡ false)
deletion_completes errors finalizers client kind r f now later store w v o p laws g h d done g' h'
      same ok =
    let told = says_deleted errors finalizers client kind r f now o p w done same in
    let without = unmarked errors finalizers client kind r f later p in
    (
      first_reports errors finalizers client kind r f now o w g h d,
      ap (is_marked finalizers store)
            (last_removes errors finalizers client kind r f later laws p v g' h' told)
          ∙ accepted-unmarked finalizers p.finalizers without.finalizers
              (store.stored_finalizers (client.update without v).1) laws refl
              (store.accepted without v ok),
    )
