-- ===== src/Team.antt =====
-- The Team (api/v1alpha1/team_types.go) and its controller, internal/controller/team/team_controller.go:
-- the members of a team from the identity provider, and the objects of a support group. Logs,
-- events, metrics and the set-up of watches are left out.
pub mod Members
pub mod Support
pub mod Controller
pub mod Counted
mod Examples
use greenhouse.Prelude.{
  ℕ, String, Bool, true, false, Option, none, some, List, [], ◌∷◌, if◌then◌else◌,
}
use greenhouse.Object.{RuntimeObject}
use greenhouse.Conditions.{
  Condition, condition_true, condition_false, unknown_condition, is_false, get_condition_by_type,
  set_conditions, ready_condition,
}

pub record User : Type 0 where
  pub id : String
  pub first_name : String
  pub last_name : String
  pub email : String

pub record TeamSpec : Type 0 where
  pub description : String
  pub mapped_idp_group : String
  pub join_url : String

-- The status, but for its conditions, is the members.
abbrev pub Team : Type 0
Team = RuntimeObject TeamSpec (List User)

abbrev pub scim_access_ready : String
scim_access_ready = "SCIMAccessReady"

abbrev pub scim_all_members_valid : String
scim_all_members_valid = "SCIMAllMembersValid"

abbrev pub scim_api_available : String
scim_api_available = "SCIMAPIAvailable"

abbrev pub exposed_conditions : List String
exposed_conditions = ready_condition ∷ scim_access_ready ∷ scim_all_members_valid ∷ []

-- (*Team).SetCondition
unfoldable pub set_team_condition : ℕ → Condition → Team → Team
set_team_condition now c team = record team {
  conditions = set_conditions now team.conditions (c ∷ []);
}

-- the loop of initTeamStatus over some types
unfoldable pub init_conditions : ℕ → List String → Team → Team
unfolding set_team_condition
init_conditions now [] team = team
init_conditions now (t ∷ types) team =
    init_conditions now types (elim (get_condition_by_type team.conditions t) [
      | none ↦ set_team_condition now (unknown_condition now t "" "") team
      | some c ↦ team
    ])

unfoldable pub init_team_status : ℕ → Team → Team
unfolding init_conditions
init_team_status now team = init_conditions now exposed_conditions team

-- The ready condition, or none for a nil dereference: IsFalse of a nil condition is one, too.
unfoldable pub compute_team_ready_condition : List Condition → Option Condition
compute_team_ready_condition conditions = elim (get_condition_by_type conditions ready_condition) [
  | none ↦ none
  | some ready ↦ elim (get_condition_by_type conditions scim_access_ready) [
    | none ↦ none
    | some access ↦ some (
        if is_false access
        then record ready { status = condition_false; message = "SCIM access not ready" }
        else record ready { status = condition_true; message = "ready" })
  ]
]

-- setConditions, the status function
unfoldable pub set_team_conditions : ℕ → Team → Option Team
unfolding compute_team_ready_condition set_team_condition
set_team_conditions now team = elim (compute_team_ready_condition team.conditions) [
  | none ↦ none
  | some ready ↦ some (set_team_condition now ready team)
]
