-- ===== src/Prelude/Sort.antt =====
-- sort.Strings, slices.Sort and sort.Slice by a text: texts are ordered as Go orders them, by the
-- code points.
use Prim.Native.Char.{code}
use Prim.Native.String.{String}
use mathlib.Core.Path.{◌≡◌, refl}
use mathlib.Core.Bool.{Bool, true, false, ◌||◌}
use mathlib.Core.List.{List, [], ◌∷◌}
use mathlib.Core.Logic.{inl, inr}
use native.Mathlib.Omega.{arith}
use text.Mathlib.Text.{◌==◌}
use greenhouse.Prelude.Tests.{if◌then◌else◌, ltb, Bool-cases}
use greenhouse.Prelude.Lists.{contains}

unfoldable pub text_lt : String → String → Bool
text_lt s String.[] = false
text_lt String.[] (String.◌∷◌ d t) = true
text_lt (String.◌∷◌ c s) (String.◌∷◌ d t) =
    let rest = text_lt s t in
    if ltb (code c) (code d) then true else if ltb (code d) (code c) then false else rest

pub text_lt_irrefl : (s : String) → text_lt s s ≡ false
unfolding text_lt
text_lt_irrefl String.[] = refl
text_lt_irrefl (String.◌∷◌ c s) = ground (arith, text_lt_irrefl s)

text_lt_asym : (s t : String) → text_lt s t ≡ true → text_lt t s ≡ false
unfolding text_lt
text_lt_asym String.[] String.[] h = refl
text_lt_asym String.[] (String.◌∷◌ d t) h = refl
text_lt_asym (String.◌∷◌ c s) String.[] h = ground (arith, h)
text_lt_asym (String.◌∷◌ c s) (String.◌∷◌ d t) h = ground (arith, text_lt_asym s t)

module _ {ℓ} {A : Type ℓ} (key : A → String) where
  abbrev pub insert_sorted : A → List A → List A
  insert_sorted v [] = v ∷ []
  insert_sorted v (x ∷ xs) =
      let rest = insert_sorted v xs in if text_lt (key x) (key v) then x ∷ rest else v ∷ x ∷ xs

  abbrev pub sort_by : List A → List A
  sort_by [] = []
  sort_by (x ∷ xs) = insert_sorted x (sort_by xs)

-- sort.Strings, and slices.Sort on texts
abbrev pub sort_strings : List String → List String
sort_strings l = sort_by (λ s. s) l

-- No element is below the one before it.
abbrev pub IsBelow : String → List String → Type 0
IsBelow s [] = Unit
IsBelow s (x ∷ xs) = text_lt x s ≡ false

abbrev pub IsSorted : List String → Type 0
IsSorted [] = Unit
IsSorted (x ∷ xs) = IsBelow x xs × IsSorted xs

contains-insert :
    (v : String) (l : List String) (s : String)
    → contains (insert_sorted (λ s. s) v l) s ≡ (v == s || contains l s)
contains-insert v [] s = refl
contains-insert v (x ∷ xs) s = ground (arith, contains-insert v xs s)

pub contains-sort_strings :
    (l : List String) (s : String) → contains (sort_strings l) s ≡ contains l s
contains-sort_strings [] s = refl
contains-sort_strings (x ∷ xs) s =
    ground (arith, contains-insert x (sort_strings xs) s, contains-sort_strings xs s)

insert-IsBelow :
    (s v : String) (l : List String)
    → text_lt v s ≡ false
    → IsBelow s l
    → IsBelow s (insert_sorted (λ s. s) v l)
insert-IsBelow s v [] h b = h
insert-IsBelow s v (x ∷ xs) h b = ground (arith, h, b)

insert-IsSorted :
    (v : String) (l : List String) → IsSorted l → IsSorted (insert_sorted (λ s. s) v l)
insert-IsSorted v [] h = (tt, tt)
insert-IsSorted v (x ∷ xs) h = elim (Bool-cases (text_lt x v)) [
  | inl e ↦ rw e (insert-IsBelow x v xs (text_lt_asym x v e) h.0, insert-IsSorted v xs h.1)
  | inr e ↦ rw e (e, h)
]

pub sort_strings-IsSorted : (l : List String) → IsSorted (sort_strings l)
sort_strings-IsSorted [] = tt
sort_strings-IsSorted (x ∷ xs) = insert-IsSorted x (sort_strings xs) (sort_strings-IsSorted xs)
