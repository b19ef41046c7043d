-- ===== src/Scim/Pages.antt =====
-- The pages of an identity provider, and that the loop over them ends, and with what
-- (internal/scim/scim_client.go).
use mathlib.Core.List.{append-nil, append_assoc}
use Prim.Native.String.{◌++◌ as glue}
use greenhouse.Prelude.{
  ℕ, zero, suc, ◌+◌, ◌<◌, String, true, false, ◌==◌, eq_iff, ◌≡◌, refl, sym, ap, ◌∙◌, List, [], ◌∷◌,
  ◌++◌, arith, length, subst, show_nat, nat_eq, Bool-cases, inl, inr,
}
use greenhouse.Platform.{Errors, found, failed, Fetched-cases}
use greenhouse.Scim.{
  QueryOptions, Resource, ResponseBody, Http, Outcome, ended, broken, stuck, to_query, fetch_page,
  is_last, fetch_from, fetch_all_resources,
}

abbrev pub concat : List (List Resource) → List Resource
concat [] = []
concat (page ∷ pages) = page ++ concat pages

module _ {E : Type 0} (http : Http E) (path : String) where
  -- The provider answers a query with a page and the id of the next one.
  abbrev pub Answers : QueryOptions → List Resource → String → Type 0
  Answers options page next_id =
      http path (to_query options) ≡ found (200, record { resources = page; next_id = next_id })

  -- The pages that the provider gives for a query, one after the other, and the query for the last of
  -- them: a query without a start id has one page, and otherwise the last page is the one that
  -- names no next page, or the end.
  pub data Trail : QueryOptions → List (List Resource) → QueryOptions → Type 0 where
    unpaged :
        (options : QueryOptions) (page : List Resource) (next_id : String)
        → options.start_id ≡ ""
        → Answers options page next_id
        → Trail options (page ∷ []) options
    no_next :
        (options : QueryOptions) (page : List Resource)
        → Answers options page ""
        → Trail options (page ∷ []) options
    at_end :
        (options : QueryOptions) (page : List Resource)
        → Answers options page "end"
        → Trail options (page ∷ []) options
    more :
        (options final : QueryOptions) (page : List Resource) (next_id : String)
        (pages : List (List Resource))
        → (options.start_id == "") ≡ false
        → (next_id == "") ≡ false
        → (next_id == "end") ≡ false
        → Answers options page next_id
        → Trail (record options { start_id = next_id }) pages final
        → Trail options (page ∷ pages) final

  -- Each page that is named, other than the end, ranks below the one that names it, so that the
  -- provider does not lead back to a page.
  abbrev pub Descends : (String → ℕ) → Type 0
  Descends rank =
      (options : QueryOptions) (page : List Resource) (next_id : String)
      → Answers options page next_id
      → (options.start_id == "") ≡ false
      → (next_id == "") ≡ false
      → (next_id == "end") ≡ false
      → rank next_id < rank options.start_id

  module _ (errors : Errors E) where
    -- How a query ends: with the resources of all the pages, or with the error of one request.
    pub data Finished (options : QueryOptions) : Outcome E → Type 0 where
      all_pages :
          (pages : List (List Resource)) (final : QueryOptions)
          → Trail options pages final
          → Finished options (ended (concat pages) final)
      refused :
          (e : E) (final : QueryOptions)
          → http path (to_query final) ≡ failed e
          → Finished options (broken e final)
      bad_status :
          (code : ℕ) (body : ResponseBody) (final : QueryOptions)
          → http path (to_query final) ≡ found (code, body)
          → nat_eq code 200 ≡ false
          → Finished options
              (broken (errors.new (glue "unexpected status code " (show_nat code))) final)

    step-last :
        (fuel : ℕ) (options : QueryOptions) (page all : List Resource) (next_id : String)
        → Answers options page next_id
        → is_last options.start_id next_id ≡ true
        → fetch_from errors http (suc fuel) path options all ≡ ended (all ++ page) options
    unfolding fetch_from fetch_page
    step-last fuel options page all next_id h e = rw (fetch_from, fetch_page, h, e) refl

    step-more :
        (fuel : ℕ) (options : QueryOptions) (page all : List Resource) (next_id : String)
        → Answers options page next_id
        → is_last options.start_id next_id ≡ false
        → fetch_from errors http (suc fuel) path options all
          ≡ fetch_from errors http fuel path (record options { start_id = next_id }) (all ++ page)
    unfolding fetch_from fetch_page
    step-more fuel options page all next_id h e = rw (fetch_from, fetch_page, h, e) refl

    one_page :
        (fuel : ℕ) (options : QueryOptions) (page all : List Resource) (next_id : String)
        → Answers options page next_id
        → is_last options.start_id next_id ≡ true
        → fetch_from errors http (fuel + 1) path options all ≡ ended (all ++ (page ++ [])) options
    one_page fuel options page all next_id h e =
        let count : suc fuel ≡ fuel + 1 = omega arith in
        subst (λ n. fetch_from errors http n path options all ≡ ended (all ++ (page ++ [])) options)
          count (rw (append-nil page) (step-last fuel options page all next_id h e))

    fetch_from-Trail :
        {options final : QueryOptions} {pages : List (List Resource)} (fuel : ℕ)
        (all : List Resource)
        → Trail options pages final
        → fetch_from errors http (fuel + length pages) path options all
          ≡ ended (all ++ concat pages) final
    fetch_from-Trail fuel all (unpaged options page next_id s h) =
        one_page fuel options page all next_id h (ground (arith, eq_iff options.start_id "", s))
    fetch_from-Trail fuel all (no_next options page h) =
        one_page fuel options page all "" h (ground arith)
    fetch_from-Trail fuel all (at_end options page h) =
        one_page fuel options page all "end" h (ground arith)
    fetch_from-Trail fuel all (more options final page next_id pages s n l h t) =
        let count : suc (fuel + length pages) ≡ fuel + length (page ∷ pages) = omega arith in
        subst
          (λ n.
            fetch_from errors http n path options all ≡ ended (all ++ (page ++ concat pages)) final)
          count
          (step-more (fuel + length pages) options page all next_id h (ground (arith, s, n, l))
            ∙ (fetch_from-Trail fuel (all ++ page) t
                ∙ ap (λ l. ended l final) (append_assoc all page (concat pages))))

    -- If the provider gives pages for a query up to a last one, the loop ends with the resources of all
    -- the pages, in their order, given at least as much fuel as there are pages.
    pub fetch_all_resources-Trail :
        {options final : QueryOptions} {pages : List (List Resource)} (fuel : ℕ)
        → Trail options pages final
        → fetch_all_resources errors http (fuel + length pages) path options
          ≡ ended (concat pages) final
    unfolding fetch_all_resources
    fetch_all_resources-Trail fuel t = fetch_from-Trail fuel [] t

    -- An outcome with resources before those that it has.
    abbrev after : List Resource → Outcome E → Outcome E
    after all (ended resources options) = ended (all ++ resources) options
    after all (broken e options) = broken e options
    after all stuck = stuck

    after-nil : (out : Outcome E) → after [] out ≡ out
    after-nil (ended resources options) = refl
    after-nil (broken e options) = refl
    after-nil stuck = refl

    -- The end of a query after resources that have been collected.
    abbrev Ends : QueryOptions → List Resource → Outcome E → Type 0
    Ends options all out = (own : Outcome E) × Finished options own × (out ≡ after all own)

    -- A page before the pages of the query for the next one.
    page_before :
        (options : QueryOptions) (page all : List Resource) (next_id : String) (out own : Outcome E)
        → (options.start_id == "") ≡ false
        → (next_id == "") ≡ false
        → (next_id == "end") ≡ false
        → Answers options page next_id
        → Finished (record options { start_id = next_id }) own
        → out ≡ after (all ++ page) own
        → Ends options all out
    page_before options page all next_id out own s n l h (all_pages pages final t) e = (
      ended (page ++ concat pages) final,
      all_pages (page ∷ pages) final (more options final page next_id pages s n l h t),
      e ∙ ap (λ l. ended l final) (append_assoc all page (concat pages)),
    )
    page_before options page all next_id out own s n l h (refused x final r) e =
        (broken x final, refused x final r, e)
    page_before options page all next_id out own s n l h (bad_status code body final r c) e =
        (own, bad_status code body final r c, e)

    last_page :
        (fuel : ℕ) (options : QueryOptions) (page all : List Resource) (next_id : String)
        → Answers options page next_id
        → is_last options.start_id next_id ≡ true
        → Trail options (page ∷ []) options
        → Ends options all (fetch_from errors http (suc fuel) path options all)
    last_page fuel options page all next_id h e t = (
      ended (page ++ []) options,
      all_pages (page ∷ []) options t,
      step-last fuel options page all next_id h e
          ∙ ap (λ l. ended (all ++ l) options) (sym (append-nil page)),
    )

    module _ (rank : String → ℕ) (d : Descends rank) where
      -- What the loop does with a page, if it ends with less fuel.
      after_page :
          (fuel : ℕ) (options : QueryOptions) (page all : List Resource) (next_id : String)
          → ((o : QueryOptions) (l : List Resource)
              → rank o.start_id < fuel
              → Ends o l (fetch_from errors http fuel path o l))
          → rank options.start_id < suc fuel
          → Answers options page next_id
          → Ends options all (fetch_from errors http (suc fuel) path options all)
      after_page fuel options page all next_id rest b h =
          elim (Bool-cases (options.start_id == "")) [
            | inl s ↦
                last_page fuel options page all next_id h (ground (arith, s))
                  (unpaged options page next_id ((eq_iff options.start_id "").0 s) h)
            | inr s ↦ elim (Bool-cases (next_id == "")) [
              | inl n ↦
                  (let g : Answers options page "" =
                      subst (Answers options page) ((eq_iff next_id "").0 n) h in
                    last_page fuel options page all "" g (ground arith) (no_next options page g))
              | inr n ↦ elim (Bool-cases (next_id == "end")) [
                | inl l ↦
                    (let g : Answers options page "end" =
                        subst (Answers options page) ((eq_iff next_id "end").0 l) h in
                      last_page fuel options page all "end" g (ground arith)
                        (at_end options page g))
                | inr l ↦
                    (let lower = d options page next_id h s n l in
                      let (own, finished, e) =
                        rest (record options { start_id = next_id }) (all ++ page)
                          (omega (arith, lower, b)) in
                      page_before options page all next_id
                        (fetch_from errors http (suc fuel) path options all) own s n l h finished
                        (step-more fuel options page all next_id h (ground (arith, s, n, l)) ∙ e))
              ]
            ]
          ]

      fetch_from-Ends :
          (fuel : ℕ) (options : QueryOptions) (all : List Resource)
          → rank options.start_id < fuel
          → Ends options all (fetch_from errors http fuel path options all)
      unfolding fetch_from fetch_page
      fetch_from-Ends zero options all b = absurd (omega (arith, b))
      fetch_from-Ends (suc fuel) options all b =
          elim (Fetched-cases (http path (to_query options))) [
            | inr (e, h) ↦
                (broken e options, refused e options h, rw (fetch_from, fetch_page, h) refl)
            | inl ((code, body), h) ↦ elim (Bool-cases (nat_eq code 200)) [
              | inr c ↦ (
                broken (errors.new (glue "unexpected status code " (show_nat code))) options,
                bad_status code body options h c,
                rw (fetch_from, fetch_page, h, c) refl,
              )
              | inl c ↦
                  (let ok : code ≡ 200 = ground (arith, c) in
                    after_page fuel options body.resources all body.next_id (fetch_from-Ends fuel) b
                      (h ∙ ap (λ n. found (n, body)) ok))
            ]
          ]

      -- If each page that an answer names, other than the end, ranks below the one that was asked for,
      -- the loop ends, with more fuel than the rank of the first page: with the resources of all the
      -- pages that the provider gives for the query, in their order, or with the error of a
      -- request that was refused or answered with another status than 200.
      pub fetch_all_resources-Finished :
          (fuel : ℕ) (options : QueryOptions)
          → rank options.start_id < fuel
          → Finished options (fetch_all_resources errors http fuel path options)
      unfolding fetch_all_resources
      fetch_all_resources-Finished fuel options b =
          let (own, finished, e) = fetch_from-Ends fuel options [] b in
          subst (Finished options) (sym (after-nil own) ∙ sym e) finished
