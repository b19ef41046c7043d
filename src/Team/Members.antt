-- ===== src/Team/Members.antt =====
-- getUsersFromSCIM of internal/controller/team/team_controller.go.
use Prim.Native.String.{◌++◌}
use mathlib.Core.List.{◌++◌ as append}
use greenhouse.Prelude.{
  ℕ, ◌+◌, ltb, String, Bool, not, ◌||◌, ◌==◌, List, [], ◌∷◌, if◌then◌else◌, show_nat,
}
use greenhouse.Platform.{Errors}
use greenhouse.Conditions.{Condition, true_condition, false_condition}
use greenhouse.Scim.{
  QueryOptions, Resource, Http, Outcome, ended, broken, stuck, primary_email, attr_name,
  attr_emails, attr_display_name, attr_active, set_attributes, user_filter_by_group_display_name,
  initial_start_id, get_users,
}
use greenhouse.Team.{User, scim_all_members_valid}

abbrev pub user_of : Resource → User
user_of r = record {
  id = r.user_name;
  first_name = r.given_name;
  last_name = r.family_name;
  email = primary_email r;
}

abbrev pub is_malformed : User → Bool
is_malformed user =
    user.id == "" || user.first_name == "" || user.last_name == "" || user.email == ""

-- The local variables of the loop.
pub record Count : Type 0 where
  pub users : List User
  pub malformed : ℕ
  pub inactive : ℕ

-- the body of the loop
unfoldable pub count_resource : Resource → Count → Count
count_resource r c =
    if is_malformed (user_of r)
    then record c { malformed = c.malformed + 1 }
    else if not r.active
    then record c { inactive = c.inactive + 1 }
    else record c { users = append c.users (user_of r ∷ []) }

unfoldable pub count_resources : List Resource → Count → Count
unfolding count_resource
count_resources [] c = c
count_resources (r ∷ rs) c = count_resources rs (count_resource r c)

abbrev pub no_count : Count
no_count = record { users = []; malformed = 0; inactive = 0 }

-- the condition after the loop
unfoldable pub members_condition : ℕ → Count → Condition
members_condition now c =
    if ltb 0 (c.inactive + c.malformed)
    then false_condition now scim_all_members_valid "" (
        "SCIM members with issues: "
        ++ (show_nat c.inactive ++ (" inactive, " ++ (show_nat c.malformed ++ " malformed"))))
    else true_condition now scim_all_members_valid "" ""

abbrev pub query_of : String → QueryOptions
query_of mapped_idp_group = record {
  filter = user_filter_by_group_display_name mapped_idp_group;
  attributes = set_attributes (attr_name ∷ attr_emails ∷ attr_display_name ∷ attr_active ∷ []);
  excluded_attributes = "";
  start_id = initial_start_id;
}

-- The users and the condition, an error, or no end of the loop over the pages.
pub data Members (E : Type 0) : Type 0 where
  members : List User → Condition → Members E
  unknown_members : E → Members E
  endless : Members E

abbrev pub members_of : {E : Type 0} → ℕ → Outcome E → Members E
members_of now stuck = endless
members_of now (broken e options) = unknown_members e
members_of now (ended resources options) =
    let c = count_resources resources no_count in members c.users (members_condition now c)

unfoldable pub get_users_from_scim : {E : Type 0} → Errors E → Http E → ℕ → ℕ → String → Members E
unfolding count_resources members_condition
get_users_from_scim errors http fuel now mapped_idp_group =
    members_of now (get_users errors http fuel (query_of mapped_idp_group))
