-- ===== src/Authz/Rules.antt =====
-- What an allowed access rests on, and how the steps of cmd/authz/authorization.go find it.
use Prim.Native.String.{◌++◌}
use greenhouse.Prelude.{
  String, true, false, ◌≡◌, sym, ◌∙◌, ap, ◌⊎◌, inl, inr, ◌==◌, eq_iff, Option, none, some, List,
  if◌then◌else◌, contains, Map, lookup, arith, Option-cases, List-cases, Bool-cases,
}
use greenhouse.Platform.{Errors, Fetched, Fetched-cases, found, failed}
use greenhouse.Owner.{label_key_owned_by, is_support_group}
use greenhouse.Authz.{
  ResourceAttributes, SubjectAccessReview, Cluster, Denial, support_group_claim_prefix,
  extract_service_account_name, claims, service_account_team, user_teams, get_support_groups,
  fetch_resource_with_ownership, validate_team,
}
use greenhouse.Authz.Claims.{contains-claims}

module _ {K E : Type 0} (errors : Errors E) (cluster : Cluster K E) where
  -- The resource is there and its owned-by label names the team.
  pub record IsOwned (attrs : ResourceAttributes) (team : String) : Type 0 where
    pub kind : K
    pub labels : Map String
    pub resolved :
        cluster.kind_for attrs.group
          (if attrs.version == "*" then "" else attrs.version)
          attrs.resource
        ≡ found kind
    pub stored : cluster.get_object kind attrs.namespace attrs.name ≡ found labels
    pub owner : lookup label_key_owned_by labels ≡ some team

  -- The namespace has the team, and it is a support group.
  abbrev pub IsSupportGroup : String → String → Type 0
  IsSupportGroup namespace team =
      (labels : Map String) × (cluster.get_team namespace team ≡ found labels)
      × (is_support_group labels ≡ true)

  -- The identity belongs to the team: a user by a claim among the groups, and a ServiceAccount of
  -- the namespace by its owned-by label.
  abbrev pub IsMember : SubjectAccessReview → String → String → Type 0
  IsMember review namespace team =
      ((extract_service_account_name review.user namespace ≡ "")
        × (contains review.groups (support_group_claim_prefix ++ team) ≡ true))
      ⊎ ((labels : Map String) × ((extract_service_account_name review.user namespace == "")
            ≡ false)
          × (cluster.get_service_account namespace
                (extract_service_account_name review.user namespace)
              ≡ found labels)
          × (lookup label_key_owned_by labels ≡ some team))

  unfoldable pub Owned : ResourceAttributes → Fetched String (Denial E) → Type 0
  Owned attrs (found team) = IsOwned attrs team
  Owned attrs (failed d) = Unit

  pub Owned-fetch :
      (attrs : ResourceAttributes)
      → Owned attrs (fetch_resource_with_ownership errors cluster attrs)
  unfolding fetch_resource_with_ownership Owned
  Owned-fetch attrs =
      elim (Fetched-cases (
        cluster.kind_for attrs.group (if attrs.version == "*" then "" else attrs.version)
          attrs.resource)) [
            | inr (x, e) ↦ rw (fetch_resource_with_ownership, e) tt
            | inl (kind, e) ↦
                elim (Fetched-cases (cluster.get_object kind attrs.namespace attrs.name)) [
                  | inr (x, e') ↦ rw (fetch_resource_with_ownership, e, e') tt
                  | inl (labels, e') ↦ elim (Option-cases (lookup label_key_owned_by labels)) [
                    | inl n ↦ rw (fetch_resource_with_ownership, e, e', n) tt
                    | inr (team, o) ↦
                        rw (fetch_resource_with_ownership, e, e', o)
                          (record {
                            kind = kind;
                            labels = labels;
                            resolved = e;
                            stored = e';
                            owner = o;
                          })
                  ]
                ]
          ]

  unfoldable pub Valid : String → String → Option (Denial E) → Type 0
  Valid namespace team none = IsSupportGroup namespace team
  Valid namespace team (some d) = Unit

  pub Valid-validate_team :
      (namespace team : String) → Valid namespace team (validate_team errors cluster namespace team)
  unfolding validate_team Valid
  Valid-validate_team namespace team = elim (Fetched-cases (cluster.get_team namespace team)) [
    | inr (x, e) ↦ rw (validate_team, e) tt
    | inl (labels, e) ↦ elim (Bool-cases (is_support_group labels)) [
      | inl s ↦ rw (validate_team, e, s) (labels, e, s)
      | inr s ↦ rw (validate_team, e, s) tt
    ]
  ]

  unfoldable pub Members : SubjectAccessReview → String → Fetched (List String) (Denial E) → Type 0
  Members review namespace (found l) =
      (t : String) → contains l t ≡ true → IsMember review namespace t
  Members review namespace (failed d) = Unit

  Members-user :
      (review : SubjectAccessReview) (namespace : String)
      → extract_service_account_name review.user namespace ≡ ""
      → Members review namespace (user_teams errors cluster review.groups)
  unfolding user_teams Members
  Members-user review namespace n = elim (List-cases (claims review.groups)) [
    | inl e ↦ rw (user_teams, e) tt
    | inr (x, xs, e) ↦
        rw (user_teams, e)
          (λ t h. inl (n, sym (contains-claims review.groups t) ∙ ap (λ l. contains l t) e ∙ h))
  ]

  Members-service_account :
      (review : SubjectAccessReview) (namespace : String)
      → (extract_service_account_name review.user namespace == "") ≡ false
      → Members review namespace (
          service_account_team errors cluster namespace
            (extract_service_account_name review.user namespace))
  unfolding service_account_team Members
  Members-service_account review namespace n =
      let name = extract_service_account_name review.user namespace in
      elim (Fetched-cases (cluster.get_service_account namespace name)) [
        | inr (x, e) ↦ rw (service_account_team, e) tt
        | inl (labels, e) ↦ elim (Option-cases (lookup label_key_owned_by labels)) [
          | inl l ↦ rw (service_account_team, e, l) tt
          | inr (team, o) ↦
              rw (service_account_team, e, o)
                (λ t h. inr (labels, n, e, o ∙ ap (λ u. some u) (ground (arith, eq_iff team t, h))))
        ]
      ]

  pub Members-get_support_groups :
      (review : SubjectAccessReview) (namespace : String)
      → Members review namespace
          (get_support_groups errors cluster review.user review.groups namespace)
  unfolding get_support_groups
  Members-get_support_groups review namespace =
      elim (Bool-cases (extract_service_account_name review.user namespace == "")) [
        | inl n ↦
            rw (get_support_groups, n)
              (Members-user review namespace
                (ground (arith, eq_iff (extract_service_account_name review.user namespace) "")))
        | inr n ↦ rw (get_support_groups, n) (Members-service_account review namespace n)
      ]

  -- What an allowed access rests on.
  pub record MayAccess (review : SubjectAccessReview) : Type 0 where
    pub attrs : ResourceAttributes
    pub team : String
    pub asked : review.resource_attributes ≡ some attrs
    pub owned : IsOwned attrs team
    pub group : IsSupportGroup attrs.namespace team
    pub member : IsMember review attrs.namespace team
