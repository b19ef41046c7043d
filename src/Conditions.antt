-- ===== src/Conditions.antt =====
-- api/meta/v1alpha1/conditions_types.go and conditions_constants.go: the conditions of a status.
-- A `metav1.Time` is a number of seconds, 0 for the zero time; `now` is what `metav1.Now()` reads.
-- The laws are in Conditions/Laws, repeated calls in Conditions/Stable,
-- conditions of distinct types in Conditions/Given.
pub mod Laws
pub mod Stable
pub mod Given
mod Examples
use greenhouse.Prelude.{
  ℕ, String, Bool, true, false, ◌&&◌, ◌==◌, Option, none, some, List, [], ◌∷◌, nat_eq,
  if◌then◌else◌,
}

-- metav1.ConditionStatus has these three values.
pub data ConditionStatus : Type 0 where
  condition_true condition_false condition_unknown : ConditionStatus

abbrev pub status_eq : ConditionStatus → ConditionStatus → Bool
status_eq condition_true condition_true = true
status_eq condition_false condition_false = true
status_eq condition_unknown condition_unknown = true
status_eq _ _ = false

pub record Condition : Type 0 where
  pub type : String
  pub status : ConditionStatus
  pub reason : String
  pub last_transition_time : ℕ
  pub message : String

abbrev pub ready_condition : String
ready_condition = "Ready"

abbrev pub delete_condition : String
delete_condition = "Delete"

abbrev pub suspended_condition : String
suspended_condition = "Suspended"

abbrev pub owner_label_set_condition : String
owner_label_set_condition = "OwnerLabelSet"

abbrev pub new_condition : ℕ → String → ConditionStatus → String → String → Condition
new_condition now type status reason message = record {
  type = type;
  status = status;
  reason = reason;
  last_transition_time = now;
  message = message;
}

abbrev pub true_condition : ℕ → String → String → String → Condition
true_condition now type reason message = new_condition now type condition_true reason message

abbrev pub false_condition : ℕ → String → String → String → Condition
false_condition now type reason message = new_condition now type condition_false reason message

abbrev pub unknown_condition : ℕ → String → String → String → Condition
unknown_condition now type reason message = new_condition now type condition_unknown reason message

-- (*Condition).Equal: the time is not compared
unfoldable pub equal : Condition → Condition → Bool
equal c other =
    c.type == other.type
    && status_eq c.status other.status
    && c.reason == other.reason
    && c.message == other.message

abbrev pub is_true : Condition → Bool
is_true c = status_eq c.status condition_true

abbrev pub is_false : Condition → Bool
is_false c = status_eq c.status condition_false

abbrev pub is_unknown : Condition → Bool
is_unknown c = status_eq c.status condition_unknown

-- A status without a time gets the current one.
unfoldable pub stamp : ℕ → Condition → Condition
stamp now c = if nat_eq c.last_transition_time 0 then record c { last_transition_time = now } else c

-- What is written over a condition of the same type.
unfoldable pub replace : Condition → Condition → Condition
replace current c =
    if equal current c
    then current
    else if status_eq current.status c.status
    then record c { last_transition_time = current.last_transition_time }
    else c

-- The inner loop of SetConditions, with its `break` and the append after it.
unfoldable pub set_condition : Condition → List Condition → List Condition
set_condition c [] = c ∷ []
set_condition c (current ∷ rest) =
    if current.type == c.type then replace current c ∷ rest else current ∷ set_condition c rest

unfoldable pub set_conditions : ℕ → List Condition → List Condition → List Condition
set_conditions now conditions [] = conditions
set_conditions now conditions (c ∷ cs) =
    set_conditions now (set_condition (stamp now c) conditions) cs

unfoldable pub get_condition_by_type : List Condition → String → Option Condition
get_condition_by_type [] type = none
get_condition_by_type (c ∷ cs) type =
    if c.type == type then some c else get_condition_by_type cs type

abbrev pub holds : Option Condition → Bool
holds none = false
holds (some c) = is_true c

unfoldable pub is_ready_true : List Condition → Bool
is_ready_true conditions = holds (get_condition_by_type conditions ready_condition)
