-- ===== src/Team/Examples.antt =====
-- A group whose members come in two pages, one of them inactive and one without an email address.
use greenhouse.Prelude.{
  ℕ, ◌<◌, arith, ap, sym, ◌∙◌, subst, eq_iff, Bool-cases, inl, inr, String, ◌≡◌, refl, Bool, true,
  false, ◌==◌, none, some, List, [], ◌∷◌, length, lookup, if◌then◌else◌, trim_space, ◌+◌,
}
use greenhouse.Platform.{Fetched, found, failed}
use greenhouse.Platform.Examples.{plain_errors}
use greenhouse.Scim.{
  QueryOptions, Resource, ResponseBody, UserEmails, Http, user_path, fetch_all_resources, to_query,
}
use greenhouse.Scim.Pages.{
  Trail, at_end, more, concat, Descends, Finished, fetch_all_resources-Finished,
}
use greenhouse.Team.Members.{query_of, get_users_from_scim}
use greenhouse.Team.Counted.{users_of, all_members, summary, get_users_from_scim-users}

abbrev resource : String → Bool → List UserEmails → Resource
resource name active emails = record {
  user_name = name;
  family_name = "Doe";
  given_name = "Jo";
  active = active;
  emails = emails;
}

abbrev mail : List UserEmails
mail = record { value = "a@x"; primary = false } ∷ record { value = "b@x"; primary = true } ∷ []

abbrev first_page : List Resource
first_page = resource "D1" true mail ∷ resource "D2" false mail ∷ []

abbrev second_page : List Resource
second_page = resource "D3" true [] ∷ resource "D4" true mail ∷ []

abbrev asks_second : List (String × String) → Bool
asks_second query = elim (lookup "startId" query) [ none ↦ false | some id ↦ id == "2" ]

abbrev page_if : Bool → Fetched (ℕ × ResponseBody) String
page_if is_second =
    if is_second
    then found (200, record { resources = second_page; next_id = "end" })
    else found (200, record { resources = first_page; next_id = "2" })

abbrev two_pages : Http String
two_pages path query = page_if (asks_second query)

abbrev second_query : QueryOptions
second_query = record (query_of "G") { start_id = "2" }

abbrev pages : List (List Resource)
pages = first_page ∷ second_page ∷ []

abbrev trail : Trail two_pages user_path (query_of "G") pages second_query
unfolding to_query lookup trim_space
trail =
    more (query_of "G") second_query first_page "2" (second_page ∷ []) refl refl refl refl
      (at_end second_query second_page refl)

-- The second page comes after all the others.
abbrev rank : String → ℕ
rank id = if id == "2" then 0 else 1

two_given : (trim_space "2" == "") ≡ false
unfolding trim_space
two_given = refl

asks_second-start :
    (options : QueryOptions) → options.start_id ≡ "2" → asks_second (to_query options) ≡ true
unfolding to_query lookup
asks_second-start options e = rw e (
    ground (
      arith,
      two_given,
      Bool-cases (trim_space options.filter.expression == ""),
      Bool-cases (trim_space options.attributes == ""),
      Bool-cases (trim_space options.excluded_attributes == ""),
    ))

abbrev next_of : Fetched (ℕ × ResponseBody) String → String
next_of (failed e) = ""
next_of (found r) = r.1.next_id

descends : Descends two_pages user_path rank
descends options page next_id h s n l = elim (Bool-cases (asks_second (to_query options))) [
  | inl b ↦
      (let e : "end" ≡ next_id = sym (ap (λ c. next_of (page_if c)) b) ∙ ap next_of h in
        absurd (ground (arith, l, eq_iff next_id "end", e)))
  | inr b ↦
      (let e : "2" ≡ next_id = sym (ap (λ c. next_of (page_if c)) b) ∙ ap next_of h in
        elim (Bool-cases (options.start_id == "2")) [
          | inl t ↦
              absurd
                (ground (arith, b, asks_second-start options ((eq_iff options.start_id "2").0 t)))
          | inr t ↦ subst (λ i. rank i < rank options.start_id) e (rw t (omega arith))
        ])
]

fetch_all_resources-Finished_example :
    Finished two_pages user_path plain_errors
      (query_of "G")
      (fetch_all_resources plain_errors two_pages 2 user_path (query_of "G"))
fetch_all_resources-Finished_example =
    fetch_all_resources-Finished two_pages user_path plain_errors rank descends 2 (query_of "G")
      (omega arith)

get_users_from_scim-users_example :
    summary (get_users_from_scim plain_errors two_pages (3 + length pages) 0 "G")
    ≡ some (users_of (concat pages), all_members (concat pages))
get_users_from_scim-users_example =
    get_users_from_scim-users plain_errors two_pages 3 0 "G" second_query pages trail
