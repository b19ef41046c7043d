-- ===== src/Authz/Decision.antt =====
-- When the webhook of cmd/authz/authorization.go allows an access.
use greenhouse.Prelude.{
  String, true, false, ◌≡◌, refl, sym, subst, inl, inr, ◌==◌, eq_iff, Option, some, List, contains,
  arith, Option-cases, Bool-cases,
}
use greenhouse.Platform.{Errors, Fetched, Fetched-cases, found, failed}
use greenhouse.Authz.{
  ResourceAttributes, SubjectAccessReview, Cluster, Denial, Response, http_error, respond,
  get_support_groups, fetch_resource_with_ownership, validate_team, authorize_access, review_access,
  handle_authorize,
}
use greenhouse.Authz.Rules.{
  MayAccess, IsOwned, IsSupportGroup, IsMember, Owned, Owned-fetch, Valid, Valid-validate_team,
  Members, Members-get_support_groups,
}

module _ {K E : Type 0} (errors : Errors E) (cluster : Cluster K E) where
  Sound : SubjectAccessReview → Response → Type 0
  Sound review (respond true message) = MayAccess errors cluster review
  Sound review (respond false message) = Unit
  Sound review (http_error message) = Unit

  Sound-authorize :
      (review : SubjectAccessReview) (attrs : ResourceAttributes) (l : List String)
      → review.resource_attributes ≡ some attrs
      → ((t : String) → contains l t ≡ true → IsMember errors cluster review attrs.namespace t)
      → (let (allowed, message) = authorize_access errors cluster attrs l in
          Sound review (respond allowed message))
  unfolding authorize_access Sound Owned Valid
  Sound-authorize review attrs l a m =
      elim (Fetched-cases (fetch_resource_with_ownership errors cluster attrs)) [
        | inr (d, e) ↦ rw (authorize_access, e) tt
        | inl (team, e) ↦
            (let owned : IsOwned errors cluster attrs team =
                subst (λ (r : Fetched String (Denial E)). Owned errors cluster attrs r) e
                  (Owned-fetch errors cluster attrs) in
              elim (Option-cases (validate_team errors cluster attrs.namespace team)) [
                | inr (d, v) ↦ rw (authorize_access, e, v) tt
                | inl v ↦
                    (let group : IsSupportGroup errors cluster attrs.namespace team =
                        subst
                          (λ (r : Option (Denial E)). Valid errors cluster attrs.namespace team r) v
                          (Valid-validate_team errors cluster attrs.namespace team) in
                      elim (Bool-cases (contains l team)) [
                        | inr n ↦ rw (authorize_access, e, v, n) tt
                        | inl c ↦
                            rw (authorize_access, e, v, c)
                              (record {
                                attrs = attrs;
                                team = team;
                                asked = a;
                                owned = owned;
                                group = group;
                                member = m team c;
                              })
                      ])
              ])
      ]

  pub review_access-respond :
      (review : SubjectAccessReview) (attrs : ResourceAttributes) (l : List String)
      → review.resource_attributes ≡ some attrs
      → (attrs.name == "") ≡ false
      → get_support_groups errors cluster review.user review.groups attrs.namespace ≡ found l
      → review_access errors cluster review ≡ (
          let (allowed, message) = authorize_access errors cluster attrs l in
          respond allowed message)
  unfolding review_access
  review_access-respond review attrs l a e g = rw (review_access, a, e, g) refl

  Sound-review_access :
      (review : SubjectAccessReview) → Sound review (review_access errors cluster review)
  unfolding review_access Members Sound
  Sound-review_access review = elim (Option-cases review.resource_attributes) [
    | inl n ↦ rw (review_access, n) tt
    | inr (attrs, a) ↦ elim (Bool-cases (attrs.name == "")) [
      | inl e ↦ rw (review_access, a, e) tt
      | inr e ↦
          elim (Fetched-cases
            (get_support_groups errors cluster review.user review.groups attrs.namespace)) [
              | inr (d, g) ↦ rw (review_access, a, e, g) tt
              | inl (l, g) ↦
                  (let members : (t : String)
                        → contains l t ≡ true
                        → IsMember errors cluster review attrs.namespace t =
                      subst
                        (λ (r : Fetched (List String) (Denial E)).
                          Members errors cluster review attrs.namespace r)
                        g (Members-get_support_groups errors cluster review attrs.namespace) in
                    subst (λ (r : Response). Sound review r)
                      (sym (review_access-respond review attrs l a e g))
                      (Sound-authorize review attrs l a members))
            ]
    ]
  ]

  -- What an allowing response shows, and no other.
  IfAllowed : Type 0 → Response → Type 0
  IfAllowed P (respond true message) = P
  IfAllowed P (respond false message) = Unit
  IfAllowed P (http_error message) = Unit

  IfAllowed-Sound :
      (review : SubjectAccessReview) (r : Response) (P : Type 0)
      → (MayAccess errors cluster review → P)
      → Sound review r
      → IfAllowed P r
  unfolding IfAllowed Sound
  IfAllowed-Sound review (respond true message) P f s = f s
  IfAllowed-Sound review (respond false message) P f s = tt
  IfAllowed-Sound review (http_error message) P f s = tt

  IfAllowed-handle :
      (method : String) (body : Fetched SubjectAccessReview E)
      → IfAllowed
          ((method ≡ "POST")
            × ((review : SubjectAccessReview) × (body ≡ found review)
                × MayAccess errors cluster review))
          (handle_authorize errors cluster method body)
  unfolding handle_authorize IfAllowed Sound
  IfAllowed-handle method (failed x) = elim (Bool-cases (method == "POST")) [
    | inl p ↦ rw (handle_authorize, p) tt
    | inr p ↦ rw (handle_authorize, p) tt
  ]
  IfAllowed-handle method (found review) = elim (Bool-cases (method == "POST")) [
    | inr p ↦ rw (handle_authorize, p) tt
    | inl p ↦
        rw (handle_authorize, p)
          (IfAllowed-Sound review (review_access errors cluster review) _
            (λ may. (ground (arith, eq_iff method "POST"), (review, refl, may)))
            (Sound-review_access review))
  ]

  -- If the webhook allows a request, the request was a POST with a review, the review names a
  -- resource, the resource is there and its owned-by label names a team, the team is in the
  -- resource's namespace and is a support group, and the identity belongs to the team: a user by the
  -- claim of the team among the groups, a ServiceAccount of that namespace by its own label.
  pub handle_authorize_sound :
      (method message : String) (body : Fetched SubjectAccessReview E)
      → handle_authorize errors cluster method body ≡ respond true message
      → (method ≡ "POST")
        × ((review : SubjectAccessReview) × (body ≡ found review) × MayAccess errors cluster review)
  unfolding IfAllowed
  handle_authorize_sound method message body h =
      subst
        (λ (r : Response).
          IfAllowed
            ((method ≡ "POST")
              × ((review : SubjectAccessReview) × (body ≡ found review)
                  × MayAccess errors cluster review))
            r)
        h (IfAllowed-handle method body)
