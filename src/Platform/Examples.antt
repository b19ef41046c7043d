-- ===== src/Platform/Examples.antt =====
-- Concrete libraries that satisfy the interfaces of Platform: an error is its text.
use Prim.Native.String.{◌++◌ as glue}
use greenhouse.Prelude.{
  String, ◌≡◌, refl, true, false, ◌==◌, eq_refl, Option, none, some, List, [], ◌∷◌, ◌++◌, arith,
  if◌then◌else◌, contains, contains-append, delete_func,
}
use greenhouse.Platform.{Errors, ErrorsLaws, Finalizers, FinalizersLaws}

abbrev pub not_found : String
not_found = "not found"

abbrev pub ignore : Option String → Option String
ignore none = none
ignore (some e) = if e == not_found then none else some e

abbrev pub plain_errors : Errors String
plain_errors = record {
  text = λ e. e;
  new = λ e. e;
  wrap = λ s e. glue s (glue ": " e);
  is_not_found = λ e. e == not_found;
  is_already_exists = λ e. e == "already exists";
  ignore_not_found = ignore;
}

pub plain_errors-ErrorsLaws : ErrorsLaws plain_errors
plain_errors-ErrorsLaws = record {
  ignored = λ e h. ground arith;
  kept = λ e h. ground arith;
  nothing = refl;
}

abbrev pub list_finalizers : Finalizers
list_finalizers = record {
  contains = contains;
  add = λ l f. if contains l f then (l, false) else (l ++ f ∷ [], true);
  remove = λ l f. (delete_func l (λ g. g == f), contains l f);
}

contains-delete : (l : List String) (f : String) → contains (delete_func l (λ g. g == f)) f ≡ false
contains-delete [] f = refl
contains-delete (g ∷ l) f = ground (arith, contains-delete l f)

pub list_finalizers-FinalizersLaws : FinalizersLaws list_finalizers
list_finalizers-FinalizersLaws = record {
  contains-add = λ l f. ground (arith, contains-append l (f ∷ []) f, eq_refl f);
  add-reports = λ l f. ground arith;
  contains-nil = λ f. refl;
  contains-remove = contains-delete;
  remove-reports = λ l f. refl;
}
