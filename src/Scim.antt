-- ===== src/Scim.antt =====
-- internal/scim: the client of an identity provider (scim_client.go) and what it is asked and
-- answers (scim_types.go). Pages are followed in Scim/Pages.
pub mod Pages
use Prim.Native.String.{◌++◌}
use mathlib.Core.List.{◌++◌ as append}
use greenhouse.Prelude.{
  ℕ, zero, suc, nat_eq, String, Bool, true, false, not, ◌&&◌, ◌||◌, ◌==◌, Option, none, some, List,
  [], ◌∷◌, map, if◌then◌else◌, trim_space, show_nat,
}
use greenhouse.Platform.{Errors, Fetched, found, failed}

pub record Filter : Type 0 where
  pub expression : String

abbrev pub new_filter : String → String → String → Filter
new_filter attribute operator value = record {
  expression = attribute ++ (" " ++ (operator ++ (" \"" ++ (value ++ "\""))));
}

abbrev pub group_filter_by_display_name : String → Filter
group_filter_by_display_name display_name = new_filter "displayName" "eq" display_name

abbrev pub user_filter_by_group_display_name : String → Filter
user_filter_by_group_display_name display_name = new_filter "groups.display" "eq" display_name

abbrev pub attr_name : String
attr_name = "name"

abbrev pub attr_emails : String
attr_emails = "emails"

abbrev pub attr_display_name : String
attr_display_name = "displayName"

abbrev pub attr_active : String
attr_active = "active"

-- strings.Join(attributes, ",")
abbrev pub set_attributes : List String → String
set_attributes [] = ""
set_attributes (a ∷ []) = a
set_attributes (a ∷ b ∷ rest) = a ++ ("," ++ set_attributes (b ∷ rest))

abbrev pub initial_start_id : String
initial_start_id = "initial"

pub record QueryOptions : Type 0 where
  pub filter : Filter
  pub attributes : String
  pub excluded_attributes : String
  pub start_id : String

abbrev add_given : String → String → List (String × String) → List (String × String)
add_given key value rest = if trim_space value == "" then rest else (key, value) ∷ rest

-- toQuery, before url.Values encodes it
unfoldable pub to_query : QueryOptions → List (String × String)
to_query q = add_given "filter" q.filter.expression (
    add_given "attributes" q.attributes
      (add_given "excludedAttributes" q.excluded_attributes (add_given "startId" q.start_id [])))

pub record UserEmails : Type 0 where
  pub value : String
  pub primary : Bool

-- What is read of a resource.
pub record Resource : Type 0 where
  pub user_name : String
  pub family_name : String
  pub given_name : String
  pub active : Bool
  pub emails : List UserEmails

-- the loop of PrimaryEmail with its early return
abbrev pub first_primary : List UserEmails → String
first_primary [] = ""
first_primary (email ∷ emails) = if email.primary then email.value else first_primary emails

abbrev pub primary_email : Resource → String
primary_email r = first_primary r.emails

pub record ResponseBody : Type 0 where
  pub resources : List Resource
  pub next_id : String

abbrev pub user_path : String
user_path = "Users"

abbrev pub group_path : String
group_path = "Groups"

abbrev pub pagination_end_id : String
pagination_end_id = "end"

-- The answer to a GET of a path with a query: the status code and the decoded body.
abbrev pub Http : Type 0 → Type 0
Http E = String → List (String × String) → Fetched (ℕ × ResponseBody) E

-- `stuck` stands for a loop that has not ended when its fuel has run out. The options of the caller
-- come back as the loop leaves them.
pub data Outcome (E : Type 0) : Type 0 where
  ended : List Resource → QueryOptions → Outcome E
  broken : E → QueryOptions → Outcome E
  stuck : Outcome E

-- the test that ends the loop
abbrev pub is_last : String → String → Bool
is_last start_id next_id = start_id == "" || next_id == "" || next_id == pagination_end_id

module _ {E : Type 0} (errors : Errors E) (http : Http E) where
  unfoldable pub fetch_page : String → QueryOptions → Fetched (List Resource × String) E
  unfolding to_query
  fetch_page path options = elim (http path (to_query options)) [
    | failed e ↦ failed e
    | found r ↦
        if nat_eq r.0 200
        then found (r.1.resources, r.1.next_id)
        else failed (errors.new ("unexpected status code " ++ show_nat r.0))
  ]

  -- the loop, with what has been collected
  unfoldable pub fetch_from : ℕ → String → QueryOptions → List Resource → Outcome E
  unfolding fetch_page
  fetch_from zero path options all_resources = stuck
  fetch_from (suc fuel) path options all_resources = elim (fetch_page path options) [
    | failed e ↦ broken e options
    | found page ↦
        if is_last options.start_id page.1
        then ended (append all_resources page.0) options
        else fetch_from fuel path (record options { start_id = page.1 })
            (append all_resources page.0)
  ]

  -- fetchAllResources, for options that are not nil
  unfoldable pub fetch_all_resources : ℕ → String → QueryOptions → Outcome E
  unfolding fetch_from
  fetch_all_resources fuel path options = fetch_from fuel path options []

  abbrev pub get_users : ℕ → QueryOptions → Outcome E
  get_users fuel options = fetch_all_resources fuel user_path options

  abbrev pub get_groups : ℕ → QueryOptions → Outcome E
  get_groups fuel options = fetch_all_resources fuel group_path options
