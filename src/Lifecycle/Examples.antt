-- ===== src/Lifecycle/Examples.antt =====
-- Reconcile on an API server that holds one object and answers every request.
use greenhouse.Prelude.{
  ℕ, ◌≡◌, refl, true, false, ◌&&◌, String, Option, none, some, List, [], ◌∷◌, is_some, lookup, inl,
  inr, subst,
}
use greenhouse.Platform.{found, failed, no_requeue, Fetched}
use greenhouse.Platform.Examples.{
  plain_errors, list_finalizers, list_finalizers-FinalizersLaws, not_found,
}
use greenhouse.Conditions.{
  set_conditions, set_condition, stamp, replace, equal, delete_condition, true_condition,
  get_condition_by_type,
}
use greenhouse.Object.{RuntimeObject}
use greenhouse.Lifecycle.{
  Reconciler, KubeClient, Kind, success, failure, deleted_reason, reconcile_annotation_value,
  setup_delete_state, common_cleanup_finalizer, is_resource_deleted, is_resource_suspended,
}
use greenhouse.Lifecycle.Store.{Store, KeepsMark, is_marked}
use greenhouse.Lifecycle.Reconcile.{reconcile, update_last_reconciled}
use greenhouse.Lifecycle.Phases.{reconcile_reports, method_error}
use greenhouse.Lifecycle.Deletion.{reconcile-keeps_finalizer}
use greenhouse.Lifecycle.Progress.{deletion_completes, reported}

-- Spec and status are texts.
abbrev Thing : Type 0
Thing = RuntimeObject String String

abbrev World : Type 0
World = Option Thing

abbrev read : World → Fetched Thing String
read none = failed not_found
read (some o) = found o

abbrev restate : Thing → World → World
restate o none = none
restate o (some p) = some (record p { conditions = o.conditions; status = o.status })

abbrev server : KubeClient String String World String
server = record {
  get = read;
  update = λ o w. (none, some o);
  patch_status = λ old o w. (none, restate o w);
}

abbrev finalizers_in : World → Option (List String)
finalizers_in none = none
finalizers_in (some o) = some o.finalizers

restated : (o : Thing) (w : World) → finalizers_in (restate o w) ≡ finalizers_in w
restated o none = refl
restated o (some p) = refl

abbrev memory : Store server
memory = record {
  stored_finalizers = finalizers_in;
  updated = λ o w. inr (inl refl);
  accepted = λ o w ok. inl refl;
  patched = λ old o w. restated o w;
}

abbrev kind : Kind String
kind = record { can_be_suspended = true; update_last_reconciled_at_status = some (λ at t. at) }

-- A controller whose creation fails and whose deletion succeeds.
abbrev controller : Reconciler String String World String
controller = record {
  ensure_created = λ o w. ((no_requeue, failure, some "quota"), o, w);
  ensure_deleted = λ o w. ((no_requeue, success, none), o, w);
  ensure_suspended = λ o w. ((no_requeue, none), o, w);
}

abbrev idle : Reconciler String String World String
idle = record controller { ensure_created = λ o w. ((no_requeue, success, none), o, w) }

controller-KeepsMark : KeepsMark list_finalizers memory controller
controller-KeepsMark = record { created = λ o w m. m; deleted = λ o w m. m; suspended = λ o w m. m }

abbrev thing : List String → Option ℕ → Thing
thing finalizers deletion_timestamp = record {
  metadata = record {
    name = "thing";
    namespace = "org";
    labels = [];
    annotations = [];
    finalizers = finalizers;
    deletion_timestamp = deletion_timestamp;
  };
  spec = "";
  conditions = [];
  status = "";
}

abbrev live : Thing
live = thing (common_cleanup_finalizer ∷ []) none

abbrev doomed : Thing
doomed = thing (common_cleanup_finalizer ∷ []) (some 7)

not_yet : is_resource_deleted doomed ≡ false
unfolding is_resource_deleted get_condition_by_type
not_yet = refl

not_suspended : is_resource_suspended doomed && kind.can_be_suspended ≡ false
unfolding is_resource_suspended lookup
not_suspended = refl

quota :
    method_error plain_errors list_finalizers server kind 3 controller none live (some live)
    ≡ some "quota"
unfolding is_resource_suspended lookup
quota = refl

-- The doomed object after a reconciliation.
abbrev finished : Thing
finished = record doomed {
  conditions =
      true_condition 3 delete_condition deleted_reason "resource is successfully deleted" ∷ [];
}

finished_not_suspended : is_resource_suspended finished && kind.can_be_suspended ≡ false
unfolding is_resource_suspended lookup
finished_not_suspended = refl

told :
    finished.conditions
    ≡ (reported plain_errors list_finalizers server kind controller none 3 doomed
        (some doomed)).conditions
unfolding reconcile_annotation_value update_last_reconciled setup_delete_state set_conditions
    set_condition stamp replace equal lookup get_condition_by_type
told = refl

only_doomed : (o : Thing) → server.get (some doomed) ≡ found o → is_resource_deleted o ≡ false
only_doomed o g =
    subst
      (λ (r : Fetched Thing String). elim r [
        | found p ↦ is_resource_deleted p ≡ false
        | failed e ↦ Unit
      ])
      g not_yet

reconcile-keeps_finalizer_example :
    is_marked list_finalizers memory
      (reconcile plain_errors list_finalizers server kind controller none 3 (some doomed)).world
    ≡ true
reconcile-keeps_finalizer_example =
    reconcile-keeps_finalizer plain_errors list_finalizers server kind controller none 3 memory
      (some doomed) list_finalizers-FinalizersLaws controller-KeepsMark only_doomed refl

deletion_completes_example :
    ((reconcile plain_errors list_finalizers server kind controller none 3 (some doomed)).world
      ≡ (server.patch_status doomed
          (reported plain_errors list_finalizers server kind controller none 3 doomed (some doomed))
          (some doomed)).1)
    × (is_marked list_finalizers memory
          (reconcile plain_errors list_finalizers server kind controller none 4
            (some finished)).world
        ≡ false)
deletion_completes_example =
    deletion_completes plain_errors list_finalizers server kind controller none 3 4 memory
      (some doomed) (some finished) doomed finished list_finalizers-FinalizersLaws refl
      (record { marked = refl; running = not_suspended; stamped = refl }) not_yet refl refl
      (record { marked = refl; running = finished_not_suspended; stamped = refl }) told refl

reconcile_reports_example :
    is_some (reconcile plain_errors list_finalizers server kind controller none 3 (some live)).error
    ≡ true
reconcile_reports_example =
    reconcile_reports plain_errors list_finalizers server kind 3 controller none (some live) live
      "quota" refl refl quota
