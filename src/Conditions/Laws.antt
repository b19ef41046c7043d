-- ===== src/Conditions/Laws.antt =====
-- SetConditions and GetConditionByType of api/meta/v1alpha1/conditions_types.go: lemmas on one
-- step of the loop, and the theorems on the whole call.
use greenhouse.Prelude.{
  ℕ, String, ◌≡◌, refl, ◌==◌, eq_iff, Option, none, some, List, [], ◌∷◌, arith, if◌then◌else◌,
}
use greenhouse.Conditions.{
  Condition, stamp, replace, set_condition, set_conditions, get_condition_by_type,
}

-- The type of a condition is not changed by what is done to the rest of it.
pub type-stamp : (now : ℕ) (c : Condition) → (stamp now c).type ≡ c.type
unfolding stamp
type-stamp now c = ground arith

pub type-replace :
    (current c : Condition) → current.type ≡ c.type → (replace current c).type ≡ c.type
unfolding replace
type-replace current c e = ground arith

-- What stands under a type once a condition of that type is set.
unfoldable pub merged : Option Condition → Condition → Condition
merged none c = c
merged (some current) c = replace current c

pub get-set_condition :
    (c : Condition) (cs : List Condition) (t : String)
    → get_condition_by_type (set_condition c cs) t ≡ (
        if c.type == t
        then some (merged (get_condition_by_type cs c.type) c)
        else get_condition_by_type cs t)
unfolding get_condition_by_type set_condition merged
get-set_condition c [] t = refl
get-set_condition c (d ∷ cs) t = ground (
  arith,
  eq_iff d.type c.type,
  eq_iff c.type t,
  eq_iff d.type t,
  type-replace d c,
  eq_iff (replace d c).type t,
  get-set_condition c cs t,
)

-- The status as a partial function from types: each condition of the call writes at its own type.
unfoldable pub updated : ℕ → List Condition → String → Option Condition → Option Condition
updated now [] t o = o
updated now (c ∷ cs) t o =
    updated now cs t (if c.type == t then some (merged o (stamp now c)) else o)

same_key :
    (c : Condition) (sc : List Condition) (t : String)
    → (if c.type == t
        then some (merged (get_condition_by_type sc c.type) c)
        else get_condition_by_type sc t)
      ≡ (if c.type == t
          then some (merged (get_condition_by_type sc t) c)
          else get_condition_by_type sc t)
same_key c sc t = ground (arith, eq_iff c.type t)

-- After SetConditions, the condition found under any type is the one found there before,
-- overwritten in turn by the given conditions of that type and by no others.
pub get-set_conditions :
    (now : ℕ) (cs sc : List Condition) (t : String)
    → get_condition_by_type (set_conditions now sc cs) t
      ≡ updated now cs t (get_condition_by_type sc t)
unfolding set_conditions updated
get-set_conditions now [] sc t = refl
get-set_conditions now (c ∷ cs) sc t = rw (
  get-set_conditions now cs (set_condition (stamp now c) sc) t,
  get-set_condition (stamp now c) sc t,
  same_key (stamp now c) sc t,
  type-stamp now c,
)

-- No two conditions of the list have one type.
abbrev pub IsUnique : List Condition → Type 0
IsUnique [] = Unit
IsUnique (c ∷ cs) = (get_condition_by_type cs c.type ≡ none) × IsUnique cs

set_condition-IsUnique :
    (c : Condition) (cs : List Condition) → IsUnique cs → IsUnique (set_condition c cs)
unfolding get_condition_by_type set_condition
set_condition-IsUnique c [] u = (refl, tt)
set_condition-IsUnique c (d ∷ cs) u = ground (
  arith,
  eq_iff d.type c.type,
  eq_iff c.type d.type,
  type-replace d c,
  set_condition-IsUnique c cs u.1,
  get-set_condition c cs d.type,
)

-- SetConditions keeps a list in which no type occurs twice free of repeated types.
pub set_conditions-IsUnique :
    (now : ℕ) (cs sc : List Condition) → IsUnique sc → IsUnique (set_conditions now sc cs)
unfolding set_conditions
set_conditions-IsUnique now [] sc u = u
set_conditions-IsUnique now (c ∷ cs) sc u =
    set_conditions-IsUnique now cs (set_condition (stamp now c) sc)
      (set_condition-IsUnique (stamp now c) sc u)
