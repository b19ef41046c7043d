-- ===== src/Team/Counted.antt =====
-- Which users a team gets (internal/controller/team/team_controller.go) from the pages of the identity
-- provider (internal/scim/scim_client.go).
use mathlib.Core.List.{append-nil, append_assoc}
use greenhouse.Prelude.{
  ℕ, ◌+◌, ltb, length, String, Bool, true, not, ◌&&◌, ◌≡◌, refl, sym, ap, ap₂, ◌∙◌, List, [], ◌∷◌,
  ◌++◌, arith, if◌then◌else◌, Bool-cases, inl, inr, Option, none, some,
}
use greenhouse.Platform.{Errors}
use greenhouse.Conditions.{is_true}
use greenhouse.Scim.{QueryOptions, Resource, Http, user_path}
use greenhouse.Scim.Pages.{Trail, concat, fetch_all_resources-Trail}
use greenhouse.Team.{User}
use greenhouse.Team.Members.{
  user_of, is_malformed, Count, count_resource, count_resources, no_count, members_condition,
  query_of, Members, members, get_users_from_scim, members_of, endless, unknown_members,
}

-- A resource that makes a member: complete and active.
abbrev pub is_member : Resource → Bool
is_member r = not (is_malformed (user_of r)) && r.active

abbrev pub users_of : List Resource → List User
users_of [] = []
users_of (r ∷ rs) = let rest = users_of rs in if is_member r then user_of r ∷ rest else rest

abbrev pub all_members : List Resource → Bool
all_members [] = true
all_members (r ∷ rs) = is_member r && all_members rs

users-count :
    (rs : List Resource) (c : Count) → (count_resources rs c).users ≡ c.users ++ users_of rs
unfolding count_resources count_resource
users-count [] c = sym (append-nil c.users)
users-count (r ∷ rs) c =
    users-count rs (count_resource r c) ∙ elim (Bool-cases (is_malformed (user_of r))) [
      | inl m ↦ rw (count_resource, m) refl
      | inr m ↦ elim (Bool-cases r.active) [
        | inl a ↦ rw (count_resource, m, a) (append_assoc c.users (user_of r ∷ []) (users_of rs))
        | inr a ↦ rw (count_resource, m, a) refl
      ]
    ]

clean-count :
    (rs : List Resource) (c : Count)
    → ltb 0 ((count_resources rs c).inactive + (count_resources rs c).malformed)
      ≡ not (not (ltb 0 (c.inactive + c.malformed)) && all_members rs)
unfolding count_resources count_resource
clean-count [] c = ground arith
clean-count (r ∷ rs) c =
    clean-count rs (count_resource r c) ∙ elim (Bool-cases (is_malformed (user_of r))) [
      | inl m ↦ rw (count_resource, m) (ground arith)
      | inr m ↦ elim (Bool-cases r.active) [
        | inl a ↦ rw (count_resource, m, a) refl
        | inr a ↦ rw (count_resource, m, a) (ground arith)
      ]
    ]

-- The condition is True exactly when every resource makes a member.
members_condition-is_true :
    (now : ℕ) (rs : List Resource)
    → is_true (members_condition now (count_resources rs no_count)) ≡ all_members rs
unfolding members_condition
members_condition-is_true now rs =
    let e = clean-count rs no_count in
    elim (Bool-cases (all_members rs)) [
      | inl a ↦ rw (members_condition, e, a) refl
      | inr a ↦ rw (members_condition, e, a) refl
    ]

-- the users, and whether the condition is True
abbrev pub summary : {E : Type 0} → Members E → Option (List User × Bool)
summary (members users c) = some (users, is_true c)
summary (unknown_members e) = none
summary endless = none

-- If the query for a group leads through pages to a last one, then with at least as much fuel as
-- there are pages, getUsersFromSCIM returns without an error the users of all the resources that are
-- complete and active, in their order, and its condition is True exactly when every resource is
-- both.
pub get_users_from_scim-users :
    {E : Type 0} (errors : Errors E) (http : Http E) (fuel now : ℕ) (group : String)
    (final : QueryOptions) (pages : List (List Resource))
    → Trail http user_path (query_of group) pages final
    → summary (get_users_from_scim errors http (fuel + length pages) now group)
      ≡ some (users_of (concat pages), all_members (concat pages))
unfolding get_users_from_scim
get_users_from_scim-users errors http fuel now group final pages t =
    let rs = concat pages in
    ap (λ o. summary (members_of now o)) (fetch_all_resources-Trail http user_path errors fuel t)
    ∙ ap₂ (λ us b. some (us, b)) (users-count rs no_count) (members_condition-is_true now rs)
