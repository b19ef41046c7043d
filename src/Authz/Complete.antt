-- ===== src/Authz/Complete.antt =====
-- The webhook of cmd/authz/authorization.go allows what its rules allow.
use Prim.Native.String.{◌++◌}
use greenhouse.Prelude.{
  String, true, false, ◌≡◌, refl, ◌∙◌, inl, inr, ◌==◌, eq_refl, none, List, [], ◌∷◌, contains,
  arith, List-cases,
}
use greenhouse.Platform.{Errors, found}
use greenhouse.Authz.{
  ResourceAttributes, SubjectAccessReview, Cluster, respond, claims, service_account_team,
  user_teams, get_support_groups, fetch_resource_with_ownership, validate_team, authorize_access,
  handle_authorize,
}
use greenhouse.Authz.Claims.{contains-claims}
use greenhouse.Authz.Rules.{MayAccess, IsOwned, IsSupportGroup, IsMember}
use greenhouse.Authz.Decision.{review_access-respond}

module _ {K E : Type 0} (errors : Errors E) (cluster : Cluster K E) where
  fetch-IsOwned :
      (attrs : ResourceAttributes) (team : String)
      → IsOwned errors cluster attrs team
      → fetch_resource_with_ownership errors cluster attrs ≡ found team
  unfolding fetch_resource_with_ownership
  fetch-IsOwned attrs team o =
      rw (fetch_resource_with_ownership, o.resolved, o.stored, o.owner) refl

  validate-IsSupportGroup :
      (namespace team : String)
      → IsSupportGroup errors cluster namespace team
      → validate_team errors cluster namespace team ≡ none
  unfolding validate_team
  validate-IsSupportGroup namespace team (labels, e, s) = rw (validate_team, e, s) refl

  user_teams-claims :
      (groups : List String) (t : String)
      → contains (claims groups) t ≡ true
      → user_teams errors cluster groups ≡ found (claims groups)
  unfolding user_teams
  user_teams-claims groups t h = elim (List-cases (claims groups)) [
    | inl e ↦ ground (arith, h)
    | inr (x, xs, e) ↦ rw (user_teams, e) refl
  ]

  groups-IsMember :
      (review : SubjectAccessReview) (namespace team : String)
      → IsMember errors cluster review namespace team
      → (l : List String) × (get_support_groups errors cluster review.user review.groups namespace
          ≡ found l)
        × (contains l team ≡ true)
  unfolding get_support_groups service_account_team
  groups-IsMember review namespace team (inl (n, c)) =
      let c' = contains-claims review.groups team ∙ c in
      (
        claims review.groups,
        rw (get_support_groups, n) (user_teams-claims review.groups team c'),
        c',
      )
  groups-IsMember review namespace team (inr (labels, n, e, o)) = (
    team ∷ [],
    rw (get_support_groups, n, service_account_team, e, o) refl,
    ground (arith, eq_refl team),
  )

  authorize-allows :
      (attrs : ResourceAttributes) (team : String) (l : List String)
      → IsOwned errors cluster attrs team
      → IsSupportGroup errors cluster attrs.namespace team
      → contains l team ≡ true
      → (let (allowed, message) = authorize_access errors cluster attrs l in
          respond allowed message)
        ≡ respond true ("authorized to access resource owned by " ++ team)
  unfolding authorize_access
  authorize-allows attrs team l o v c =
      rw
        (
          authorize_access,
          fetch-IsOwned attrs team o,
          validate-IsSupportGroup attrs.namespace team v,
          c,
        )
        refl

  -- The webhook allows every POST whose review names a resource that the identity may access: the
  -- resource's owned-by label names a team of its namespace that is a support group, and to which
  -- the identity belongs.
  pub handle_authorize_complete :
      (review : SubjectAccessReview) (may : MayAccess errors cluster review)
      → (may.attrs.name == "") ≡ false
      → handle_authorize errors cluster "POST" (found review)
        ≡ respond true ("authorized to access resource owned by " ++ may.team)
  unfolding handle_authorize
  handle_authorize_complete review may n =
      let (l, g, c) = groups-IsMember review may.attrs.namespace may.team may.member in
      review_access-respond errors cluster review may.attrs l may.asked n g
      ∙ authorize-allows may.attrs may.team l may.owned may.group c
