-- ===== src/Lifecycle/Store.antt =====
-- What Reconcile of pkg/lifecycle/reconcile.go may expect of the API server: an interface with its
-- documented behaviour, over the finalizers of the object that the server stores under the name of
-- the request. Nothing is expected of Get, which may fail, or answer from a cache that is behind.
use greenhouse.Prelude.{◌≡◌, ◌⊎◌, Bool, true, false, Option, none, some, String, List, []}
use greenhouse.Platform.{Finalizers}
use greenhouse.Object.{RuntimeObject}
use greenhouse.Lifecycle.{Reconciler, KubeClient, common_cleanup_finalizer}

-- What an update may do to the finalizers that are stored: they stay, they become those of the
-- object that is given, or, if that has none left, the object is gone.
abbrev pub Updated : (before after : Option (List String)) → List String → Type 0
Updated before after given =
    (after ≡ before) ⊎ ((after ≡ some given) ⊎ ((after ≡ none) × (given ≡ [])))

pub record Store {S T W E : Type 0} (client : KubeClient S T W E) : Type 0 where
  -- none if no object of that name is stored
  pub stored_finalizers : W → Option (List String)
  -- An update whose answer is an error may have been stored or not.
  pub updated :
      (o : RuntimeObject S T) (w : W)
      → Updated (stored_finalizers w) (stored_finalizers (client.update o w).1) o.finalizers
  -- An update whose answer is no error has been stored.
  pub accepted :
      (o : RuntimeObject S T) (w : W)
      → (client.update o w).0 ≡ none
      → (stored_finalizers (client.update o w).1 ≡ some o.finalizers)
        ⊎ ((stored_finalizers (client.update o w).1 ≡ none) × (o.finalizers ≡ []))
  -- The status subresource does not write metadata.
  pub patched :
      (old o : RuntimeObject S T) (w : W)
      → stored_finalizers (client.patch_status old o w).1 ≡ stored_finalizers w

abbrev pub is_marked_in : Finalizers → Option (List String) → Bool
is_marked_in finalizers none = false
is_marked_in finalizers (some l) = finalizers.contains l common_cleanup_finalizer

-- The server stores the object with the cleanup finalizer.
abbrev pub is_marked :
    {S T W E : Type 0} {client : KubeClient S T W E} → Finalizers → Store client → W → Bool
is_marked finalizers store w = is_marked_in finalizers (store.stored_finalizers w)

-- The methods of a controller do not take the cleanup finalizer off the object; they may write it in
-- other ways.
pub record KeepsMark {S T W E : Type 0} {client : KubeClient S T W E} (finalizers : Finalizers)
    (store : Store client) (r : Reconciler S T W E) : Type 0 where
  pub created :
      (o : RuntimeObject S T) (w : W)
      → is_marked finalizers store w ≡ true
      → is_marked finalizers store (r.ensure_created o w).2 ≡ true
  pub deleted :
      (o : RuntimeObject S T) (w : W)
      → is_marked finalizers store w ≡ true
      → is_marked finalizers store (r.ensure_deleted o w).2 ≡ true
  pub suspended :
      (o : RuntimeObject S T) (w : W)
      → is_marked finalizers store w ≡ true
      → is_marked finalizers store (r.ensure_suspended o w).2 ≡ true
