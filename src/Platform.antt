-- ===== src/Platform.antt =====
-- What the program takes from Go's errors, apimachinery and controller-runtime: interfaces, and the
-- documented behaviour of them that theorems rely on. None of this code is in the repository.
pub mod Examples
use greenhouse.Prelude.{
  ◌⊎◌, inl, inr, refl, ℕ, String, ◌≡◌, Bool, true, false, not, Option, none, some, List, [],
}

-- Values of Go's `error`; `Option E` is an error that may be nil.
pub record Errors (E : Type 0) : Type 0 where
  pub text : E → String  -- err.Error()
  pub new : String → E  -- errors.New, and fmt.Errorf with no %w
  pub wrap : String → E → E  -- fmt.Errorf(s + ": %w", err)
  pub is_not_found : E → Bool  -- apierrors.IsNotFound
  pub is_already_exists : E → Bool  -- apierrors.IsAlreadyExists
  pub ignore_not_found : Option E → Option E  -- client.IgnoreNotFound

pub record ErrorsLaws {E : Type 0} (errors : Errors E) : Type 0 where
  pub ignored : (e : E) → errors.is_not_found e ≡ true → errors.ignore_not_found (some e) ≡ none
  pub kept : (e : E) → errors.is_not_found e ≡ false → errors.ignore_not_found (some e) ≡ some e
  pub nothing : errors.ignore_not_found none ≡ none

-- controllerutil.ContainsFinalizer, AddFinalizer and RemoveFinalizer on a list of finalizers.
pub record Finalizers : Type 0 where
  pub contains : List String → String → Bool
  pub add : List String → String → List String × Bool
  pub remove : List String → String → List String × Bool

pub record FinalizersLaws (finalizers : Finalizers) : Type 0 where
  pub contains-add :
      (l : List String) (f : String) → finalizers.contains (finalizers.add l f).0 f ≡ true
  pub add-reports :
      (l : List String) (f : String) → (finalizers.add l f).1 ≡ not (finalizers.contains l f)
  pub contains-nil : (f : String) → finalizers.contains [] f ≡ false
  pub contains-remove :
      (l : List String) (f : String) → finalizers.contains (finalizers.remove l f).0 f ≡ false
  pub remove-reports :
      (l : List String) (f : String) → (finalizers.remove l f).1 ≡ finalizers.contains l f

-- What client.Get finds.
pub data Fetched (O E : Type 0) : Type 0 where
  found : O → Fetched O E
  failed : E → Fetched O E

-- ctrl.Result
pub record Result : Type 0 where
  pub requeue_after : ℕ

abbrev pub no_requeue : Result
no_requeue = record { requeue_after = 0 }

pub Fetched-cases :
    {O E : Type 0} (r : Fetched O E) → ((o : O) × (r ≡ found o)) ⊎ ((e : E) × (r ≡ failed e))
Fetched-cases (found o) = inl (o, refl)
Fetched-cases (failed e) = inr (e, refl)
