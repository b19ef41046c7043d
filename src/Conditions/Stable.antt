-- ===== src/Conditions/Stable.antt =====
-- Repeated calls of SetConditions (api/meta/v1alpha1/conditions_types.go) and transition times.
use greenhouse.Prelude.{
  ℕ, String, ◌≡◌, refl, Bool, true, false, eq_iff, eq_refl, Option, none, some, List, [], ◌∷◌,
  arith, All, ◌≢◌, ap,
}
use greenhouse.Conditions.{
  ConditionStatus, Condition, equal, stamp, replace, set_condition, set_conditions,
  get_condition_by_type, status_eq,
}
use greenhouse.Conditions.Laws.{
  IsUnique, merged, updated, get-set_condition, get-set_conditions, type-stamp,
}

status_eq_refl : (s : ConditionStatus) → status_eq s s ≡ true
status_eq_refl ConditionStatus.condition_true = refl
status_eq_refl ConditionStatus.condition_false = refl
status_eq_refl ConditionStatus.condition_unknown = refl

-- The status of the condition is there, up to the time.
abbrev pub settled : Condition → Option Condition → Bool
settled c none = false
settled c (some d) = equal d c

merged-settled :
    (now : ℕ) (o : Option Condition) (c : Condition)
    → settled c (some (merged o (stamp now c))) ≡ true
unfolding merged replace stamp equal
merged-settled now none c =
    ground (arith, status_eq_refl c.status, eq_refl c.type, eq_refl c.reason, eq_refl c.message)
merged-settled now (some d) c =
    ground (arith, status_eq_refl c.status, eq_refl c.type, eq_refl c.reason, eq_refl c.message)

set_condition-settled :
    (now : ℕ) (c : Condition) (cs : List Condition)
    → settled c (get_condition_by_type cs c.type) ≡ true
    → set_condition (stamp now c) cs ≡ cs
unfolding set_condition get_condition_by_type replace stamp equal
set_condition-settled now c [] h = ground arith
set_condition-settled now c (d ∷ cs) h = ground (arith, set_condition-settled now c cs)

-- `o` is not touched by conditions of other types.
pub updated-other :
    (now : ℕ) (cs : List Condition) (t : String) (o : Option Condition)
    → get_condition_by_type cs t ≡ none
    → updated now cs t o ≡ o
unfolding updated get_condition_by_type
updated-other now [] t o h = refl
updated-other now (c ∷ cs) t o h = ground (arith, updated-other now cs t o)

abbrev AllSettled : List Condition → List Condition → Type 0
AllSettled sc = All (λ c. settled c (get_condition_by_type sc c.type) ≡ true)

set_conditions-AllSettled :
    (now : ℕ) (cs sc : List Condition) → AllSettled sc cs → set_conditions now sc cs ≡ sc
unfolding set_conditions
set_conditions-AllSettled now [] sc h = refl
set_conditions-AllSettled now (c ∷ cs) sc h =
    rw (set_condition-settled now c sc h.0) (set_conditions-AllSettled now cs sc h.1)

AllSettled-set_conditions :
    (now : ℕ) (cs sc : List Condition) → IsUnique cs → AllSettled (set_conditions now sc cs) cs
unfolding set_conditions stamp
AllSettled-set_conditions now [] sc u = tt
AllSettled-set_conditions now (c ∷ cs) sc u = (
  rw
      (
        get-set_conditions now cs (set_condition (stamp now c) sc) c.type,
        updated-other now cs c.type (get_condition_by_type (set_condition (stamp now c) sc) c.type)
            u.0,
        get-set_condition (stamp now c) sc c.type,
        type-stamp now c,
        eq_refl c.type,
      )
      (merged-settled now (get_condition_by_type sc c.type) c),
  AllSettled-set_conditions now cs (set_condition (stamp now c) sc) u.1,
)

-- Setting conditions of distinct types once more, at any later time, changes nothing at all, not
-- even a transition time.
pub set_conditions_idem :
    (now later : ℕ) (cs sc : List Condition)
    → IsUnique cs
    → set_conditions later (set_conditions now sc cs) cs ≡ set_conditions now sc cs
set_conditions_idem now later cs sc u =
    set_conditions-AllSettled later cs (set_conditions now sc cs)
      (AllSettled-set_conditions now cs sc u)

-- What SetConditions leaves of a condition `old` when `c` of its type is set.
pub record Transition (now : ℕ) (old c new : Condition) : Type 0 where
  pub same_status : new.status ≡ c.status
  pub same_reason : new.reason ≡ c.reason
  pub same_message : new.message ≡ c.message
  pub kept_time : old.status ≡ c.status → new.last_transition_time ≡ old.last_transition_time
  pub new_time :
      old.status ≢ c.status → new.last_transition_time ≡ (stamp now c).last_transition_time

status_eq_iff : (s t : ConditionStatus) → status_eq s t ≡ true → s ≡ t
status_eq_iff ConditionStatus.condition_true t h = ground arith
status_eq_iff ConditionStatus.condition_false t h = ground arith
status_eq_iff ConditionStatus.condition_unknown t h = ground arith

pub merged-Transition :
    (now : ℕ) (old c : Condition)
    → old.type ≡ c.type
    → Transition now old c (merged (some old) (stamp now c))
unfolding merged replace stamp equal
merged-Transition now old c e = record {
  same_status = ground (arith, status_eq_iff old.status c.status);
  same_reason = ground (arith, eq_iff old.reason c.reason);
  same_message = ground (arith, eq_iff old.message c.message);
  kept_time = λ h. ground (arith, status_eq_refl c.status);
  new_time = λ h. ground (arith, status_eq_iff old.status c.status);
}

pub type-get_condition_by_type :
    (cs : List Condition) (t : String) (c : Condition)
    → get_condition_by_type cs t ≡ some c
    → c.type ≡ t
unfolding get_condition_by_type
type-get_condition_by_type [] t c h = ground arith
type-get_condition_by_type (d ∷ cs) t c h =
    ground (arith, eq_iff d.type t, type-get_condition_by_type cs t c)

get-set_one :
    (now : ℕ) (c old : Condition) (sc : List Condition)
    → get_condition_by_type sc c.type ≡ some old
    → get_condition_by_type (set_conditions now sc (c ∷ [])) c.type
      ≡ some (merged (some old) (stamp now c))
unfolding set_conditions stamp
get-set_one now c old sc h =
    rw (get-set_condition (stamp now c) sc c.type, type-stamp now c, eq_refl c.type)
      (ap (λ o. some (merged o (stamp now c))) h)

-- Setting a condition whose type is there already leaves its status, reason and message under that
-- type; the transition time stays the old one exactly if the status is the old one, and else is the
-- given one, or the current time if none was given.
pub set_conditions-Transition :
    (now : ℕ) (c old : Condition) (sc : List Condition)
    → get_condition_by_type sc c.type ≡ some old
    → (new : Condition) × (get_condition_by_type (set_conditions now sc (c ∷ [])) c.type ≡ some new)
      × Transition now old c new
set_conditions-Transition now c old sc h = (
  merged (some old) (stamp now c),
  get-set_one now c old sc h,
  merged-Transition now old c (type-get_condition_by_type sc c.type old h),
)

-- A condition that has been set is found, with the status and the reason that were given.
pub get-set_given :
    (now : ℕ) (c : Condition) (sc : List Condition)
    → (new : Condition) × (get_condition_by_type (set_conditions now sc (c ∷ [])) c.type ≡ some new)
      × (new.status ≡ c.status)
      × (new.reason ≡ c.reason)
unfolding set_conditions stamp merged replace equal
get-set_given now c sc = (
  merged (get_condition_by_type sc c.type) (stamp now c),
  rw (get-set_condition (stamp now c) sc c.type, type-stamp now c, eq_refl c.type),
  elim (get_condition_by_type sc c.type) as (λ o. (merged o (stamp now c)).status ≡ c.status) [
    | none ↦ ground arith
    | some d ↦ ground (arith, status_eq_iff d.status c.status)
  ],
  elim (get_condition_by_type sc c.type) as (λ o. (merged o (stamp now c)).reason ≡ c.reason) [
    | none ↦ ground arith
    | some d ↦ ground (arith, eq_iff d.reason c.reason)
  ],
)
