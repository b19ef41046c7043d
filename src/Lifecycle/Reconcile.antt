-- ===== src/Lifecycle/Reconcile.antt =====
-- Reconcile of pkg/lifecycle/reconcile.go and the steps that it is made of.
use greenhouse.Prelude.{ℕ, not, ◌&&◌, Option, none, some, if◌then◌else◌, is_some}
use greenhouse.Platform.{Errors, Finalizers, found, failed, Result, no_requeue}
use greenhouse.Object.{RuntimeObject}
use greenhouse.Conditions.{suspended_condition, get_condition_by_type}
use greenhouse.Lifecycle.{
  ReconcileResult, pending, common_cleanup_finalizer, set_condition, remove_condition,
  is_resource_deleted, is_resource_suspended, reconcile_annotation_value, Reconciler, KubeClient,
  Kind, Outcome, suspension, setup_delete_state, setup_create_state,
}

module _ {S T W E : Type 0} (errors : Errors E) (finalizers : Finalizers)
    (client : KubeClient S T W E) (kind : Kind T) (reconciler : Reconciler S T W E)
    (status_func : Option (RuntimeObject S T → W → RuntimeObject S T)) (now : ℕ) where
  abbrev pub Phase : Type 0
  Phase = (Result × Option E) × RuntimeObject S T × W

  pub resume : RuntimeObject S T → RuntimeObject S T
  resume o =
      if is_some (get_condition_by_type o.conditions suspended_condition)
      then remove_condition suspended_condition o
      else o

  abbrev report_creation : ReconcileResult → Option E → RuntimeObject S T → W → RuntimeObject S T
  report_creation outcome err o w = elim status_func [
    | none ↦ setup_create_state errors now o outcome err
    | some f ↦ f o w
  ]

  unfoldable pub ensure_created : RuntimeObject S T → W → Phase
  unfolding resume
  ensure_created o w =
      let ((result, outcome, err), o', w') = reconciler.ensure_created (resume o) w in
      ((result, err), report_creation outcome err o' w', w')

  unfoldable pub ensure_deleted : RuntimeObject S T → W → Phase
  ensure_deleted o w =
      let waiting = setup_delete_state errors now o pending none in
      let ((result, outcome, err), o', w') = reconciler.ensure_deleted waiting w in
      ((result, err), setup_delete_state errors now o' outcome err, w')

  -- `original` is the object in the context, as it was read.
  unfoldable pub patch_status :
      Result × Option E → RuntimeObject S T → RuntimeObject S T → W → Outcome W E
  patch_status (result, err) original o w =
      let (patched, w') = client.patch_status original o w in
      record { result = result; error = elim patched [ none ↦ err | some e ↦ some e ]; world = w' }

  unfoldable pub ensure_finalizer : RuntimeObject S T → W → Option E × W
  ensure_finalizer o w =
      let (l, added) = finalizers.add o.finalizers common_cleanup_finalizer in
      if added
      then client.update (record o { metadata = record o.metadata { finalizers = l } }) w
      else (none, w)

  unfoldable pub remove_finalizer : RuntimeObject S T → W → Option E × W
  remove_finalizer o w =
      let (l, removed) = finalizers.remove o.finalizers common_cleanup_finalizer in
      if removed
      then client.update (record o { metadata = record o.metadata { finalizers = l } }) w
      else (none, w)

  unfoldable pub update_last_reconciled : RuntimeObject S T → RuntimeObject S T
  unfolding reconcile_annotation_value
  update_last_reconciled o = elim kind.update_last_reconciled_at_status [
    | none ↦ o
    | some update ↦ record o { status = update (reconcile_annotation_value o).0 o.status }
  ]

  -- The end of every phase that is not cut short.
  abbrev pub finish : RuntimeObject S T → Phase → Outcome W E
  finish original ((result, err), o, w) =
      patch_status (result, err) original (update_last_reconciled o) w

  unfoldable pub reconcile_suspended : RuntimeObject S T → W → Outcome W E
  reconcile_suspended o w =
      let ((result, err), o', w') = reconciler.ensure_suspended o w in
      patch_status (result, err) o (set_condition now (suspension errors now err) o') w'

  unfoldable pub reconcile_deleted : RuntimeObject S T → W → Outcome W E
  reconcile_deleted o w =
      if not (finalizers.contains o.finalizers common_cleanup_finalizer)
      then record { result = no_requeue; error = none; world = w }
      else if is_resource_deleted o
      then (let (err, w') = remove_finalizer o w in
          record { result = no_requeue; error = errors.ignore_not_found err; world = w' })
      else finish o (ensure_deleted o w)

  unfoldable pub reconcile_object : RuntimeObject S T → W → Outcome W E
  reconcile_object o w =
      let should_be_deleted = is_some o.deletion_timestamp in
      if not should_be_deleted && not (finalizers.contains o.finalizers common_cleanup_finalizer)
      then (let (err, w') = ensure_finalizer o w in
          record { result = no_requeue; error = err; world = w' })
      else if is_resource_suspended o && kind.can_be_suspended
      then reconcile_suspended o w
      else if should_be_deleted
      then reconcile_deleted o w
      else finish o (ensure_created o w)

  unfoldable pub reconcile : W → Outcome W E
  reconcile w = elim (client.get w) [
    | failed e ↦ record { result = no_requeue; error = errors.ignore_not_found (some e); world = w }
    | found o ↦ reconcile_object o w
  ]
