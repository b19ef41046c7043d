-- ===== src/Conditions/Examples.antt =====
-- Calls of SetConditions on a small status.
use greenhouse.Prelude.{◌≡◌, refl, List, [], ◌∷◌, some}
use greenhouse.Conditions.{
  Condition, true_condition, false_condition, set_conditions, get_condition_by_type, stamp,
  set_condition, replace, equal,
}
use greenhouse.Conditions.Laws.{IsUnique, updated, get-set_conditions, set_conditions-IsUnique}
use greenhouse.Conditions.Stable.{Transition, set_conditions_idem, set_conditions-Transition}

abbrev before : List Condition
before = true_condition 5 "Ready" "Created" "" ∷ true_condition 6 "Suspended" "Asked" "" ∷ []

abbrev given : List Condition
given =
    false_condition 0 "Ready" "FailingCreation" "no" ∷ true_condition 0 "Delete" "Deleted" "" ∷ []

before-IsUnique : IsUnique before
unfolding get_condition_by_type
before-IsUnique = (refl, (refl, tt))

given-IsUnique : IsUnique given
unfolding get_condition_by_type
given-IsUnique = (refl, (refl, tt))

-- A call replaces one condition, keeps one and appends one.
set_test :
    set_conditions 9 before given
    ≡ false_condition 9 "Ready" "FailingCreation" "no"
      ∷ true_condition 6 "Suspended" "Asked" ""
      ∷ true_condition 9 "Delete" "Deleted" ""
      ∷ []
unfolding set_conditions stamp set_condition replace equal
set_test = refl

get-set_conditions_example :
    get_condition_by_type (set_conditions 9 before given) "Ready"
    ≡ updated 9 given "Ready" (get_condition_by_type before "Ready")
get-set_conditions_example = get-set_conditions 9 given before "Ready"

set_conditions-IsUnique_example : IsUnique (set_conditions 9 before given)
set_conditions-IsUnique_example = set_conditions-IsUnique 9 given before before-IsUnique

set_conditions_idem_example :
    set_conditions 12 (set_conditions 9 before given) given ≡ set_conditions 9 before given
set_conditions_idem_example = set_conditions_idem 9 12 given before given-IsUnique

abbrev failing : Condition
failing = false_condition 0 "Ready" "FailingCreation" "no"

abbrev ready : Condition
ready = true_condition 5 "Ready" "Created" ""

ready_found : get_condition_by_type before "Ready" ≡ some ready
unfolding get_condition_by_type
ready_found = refl

set_conditions-Transition_example :
    (new : Condition) × (get_condition_by_type (set_conditions 9 before (failing ∷ [])) "Ready"
      ≡ some new)
    × Transition 9 ready failing new
set_conditions-Transition_example = set_conditions-Transition 9 failing ready before ready_found
