-- ===== src/Conditions/Given.antt =====
-- SetConditions (api/meta/v1alpha1/conditions_types.go) with conditions of distinct types, as the
-- controllers call it.
use greenhouse.Prelude.{
  ℕ, String, ◌≡◌, refl, ap, ◌∙◌, inl, inr, Bool, true, false, ◌==◌, eq_iff, Option, none, some,
  List, [], ◌∷◌, ◌++◌, eq_refl, arith, contains, Bool-cases, subst,
}
use greenhouse.Conditions.{
  ConditionStatus, Condition, set_condition, set_conditions, get_condition_by_type, stamp,
  is_ready_true, ready_condition, status_eq, condition_true, holds,
}
use greenhouse.Conditions.Laws.{IsUnique, get-set_conditions}
use greenhouse.Conditions.Stable.{get-set_given, updated-other}

abbrev pub types : List Condition → List String
types [] = []
types (c ∷ cs) = c.type ∷ types cs

-- The status under a type.
abbrev pub status_in : Option Condition → Option ConditionStatus
status_in none = none
status_in (some c) = some c.status

abbrev pub status_under : List Condition → String → Option ConditionStatus
status_under sc t = status_in (get_condition_by_type sc t)

abbrev pub AreDistinct : List String → Type 0
AreDistinct [] = Unit
AreDistinct (t ∷ ts) = (contains ts t ≡ false) × AreDistinct ts

get-absent :
    (cs : List Condition) (t : String)
    → contains (types cs) t ≡ false
    → get_condition_by_type cs t ≡ none
unfolding get_condition_by_type
get-absent [] t h = refl
get-absent (c ∷ cs) t h = ground (arith, get-absent cs t)

pub AreDistinct-IsUnique : (cs : List Condition) → AreDistinct (types cs) → IsUnique cs
AreDistinct-IsUnique [] d = tt
AreDistinct-IsUnique (c ∷ cs) d = (get-absent cs c.type d.0, AreDistinct-IsUnique cs d.1)

set_first :
    (now : ℕ) (c : Condition) (cs sc : List Condition)
    → get_condition_by_type cs c.type ≡ none
    → status_under (set_conditions now sc (c ∷ cs)) c.type ≡ some c.status
unfolding set_conditions
set_first now c cs sc a =
    let (new, found, status, _) = get-set_given now c sc in
    rw
      (
        get-set_conditions now cs (set_condition (stamp now c) sc) c.type,
        updated-other now cs c.type (get_condition_by_type (set_condition (stamp now c) sc) c.type)
            a,
        found,
      )
      (ap some status)

-- What is given under a type stands there after the call, with its status.
pub status-set_conditions :
    (now : ℕ) (cs sc : List Condition) (t : String) (c : Condition)
    → IsUnique cs
    → get_condition_by_type cs t ≡ some c
    → status_under (set_conditions now sc cs) t ≡ some c.status
unfolding get_condition_by_type set_conditions
status-set_conditions now [] sc t c u h = ground arith
status-set_conditions now (d ∷ cs) sc t c u h = elim (Bool-cases (d.type == t)) [
  | inl e ↦
      (let same : some d ≡ some c = ground (arith, h) in
        let here : d.type ≡ t = ground (arith, eq_iff d.type t) in
        subst (λ t. status_under (set_conditions now sc (d ∷ cs)) t ≡ some c.status) here
          (set_first now d cs sc u.0 ∙ ap status_in same))
  | inr e ↦
      status-set_conditions now cs (set_condition (stamp now d) sc) t c u.1 (ground (arith, h))
]

contains-types :
    (before : List Condition) (c : Condition) (after : List Condition)
    → contains (types (before ++ c ∷ after)) c.type ≡ true
contains-types [] c after = ground (arith, eq_refl c.type)
contains-types (d ∷ before) c after = ground (arith, contains-types before c after)

get-given :
    (before : List Condition) (c : Condition) (after : List Condition)
    → AreDistinct (types (before ++ c ∷ after))
    → get_condition_by_type (before ++ c ∷ after) c.type ≡ some c
unfolding get_condition_by_type
get-given [] c after d = ground (arith, eq_refl c.type)
get-given (b ∷ before) c after d =
    ground (
      arith,
      eq_iff b.type c.type,
      contains-types before c after,
      get-given before c after d.1,
      d.0,
    )

-- The condition at any place of the call stands under its type.
pub status-given :
    (now : ℕ) (sc before : List Condition) (c : Condition) (after : List Condition) (t : String)
    → AreDistinct (types (before ++ c ∷ after))
    → c.type ≡ t
    → status_under (set_conditions now sc (before ++ c ∷ after)) t ≡ some c.status
status-given now sc before c after t d e =
    subst (λ t. status_under (set_conditions now sc (before ++ c ∷ after)) t ≡ some c.status) e
      (status-set_conditions now (before ++ c ∷ after) sc c.type c (AreDistinct-IsUnique _ d)
        (get-given before c after d))

abbrev true_status : Option ConditionStatus → Bool
true_status none = false
true_status (some s) = status_eq s condition_true

holds-status_in : (o : Option Condition) → holds o ≡ true_status (status_in o)
holds-status_in none = refl
holds-status_in (some c) = refl

pub holds-status :
    (sc : List Condition) (t : String) (s : ConditionStatus)
    → status_under sc t ≡ some s
    → holds (get_condition_by_type sc t) ≡ status_eq s condition_true
holds-status sc t s h = holds-status_in (get_condition_by_type sc t) ∙ ap true_status h

pub is_ready_true-status :
    (sc : List Condition) (s : ConditionStatus)
    → status_under sc ready_condition ≡ some s
    → is_ready_true sc ≡ status_eq s condition_true
unfolding is_ready_true
is_ready_true-status sc s h = holds-status sc ready_condition s h
