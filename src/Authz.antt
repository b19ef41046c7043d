-- ===== src/Authz.antt =====
-- The authorization webhook, cmd/authz/authorization.go: whether a user or a ServiceAccount may
-- access a resource. Metrics and logs are left out; a reason code goes to the metrics, and stands
-- beside its error here. What is proved is in Authz/Decision and Authz/Complete.
pub mod Claims
pub mod Rules
pub mod Decision
pub mod Complete
mod Examples
use Prim.Native.String.{◌++◌}
use greenhouse.Prelude.{
  String, Bool, true, false, ◌==◌, Option, none, some, List, [], ◌∷◌, if◌then◌else◌, contains, Map,
  lookup, cut_prefix,
}
use greenhouse.Platform.{Errors, Fetched, found, failed}
use greenhouse.Owner.{label_key_owned_by, is_support_group}

abbrev pub support_group_claim_prefix : String
support_group_claim_prefix = "support-group:"

-- authv1.ResourceAttributes and SubjectAccessReview, as far as they are read
pub record ResourceAttributes : Type 0 where
  pub namespace : String
  pub verb : String
  pub group : String
  pub version : String
  pub resource : String
  pub name : String

pub record SubjectAccessReview : Type 0 where
  pub user : String
  pub groups : List String
  pub resource_attributes : Option ResourceAttributes

-- What the webhook asks of the API server; objects are their labels. `K` is the kind of an object.
pub record Cluster (K E : Type 0) : Type 0 where
  pub kind_for : String → String → String → Fetched K E  -- group, version, resource
  pub get_object : K → String → String → Fetched (Map String) E  -- namespace, name
  pub get_service_account : String → String → Fetched (Map String) E
  pub get_team : String → String → Fetched (Map String) E

-- A reason code and an error.
pub record Denial (E : Type 0) : Type 0 where
  pub reason_code : String
  pub err : E

-- What is written to the client: an HTTP error, or the review with the answer and its reason.
pub data Response : Type 0 where
  http_error : String → Response
  respond : Bool → String → Response

unfoldable pub extract_service_account_name : String → String → String
extract_service_account_name username namespace =
    elim (cut_prefix username ("system:serviceaccount:" ++ (namespace ++ ":"))) [
      | none ↦ ""
      | some name ↦ name
    ]

-- The loop of getSupportGroups.
unfoldable pub claims : List String → List String
claims [] = []
claims (g ∷ groups) =
    let rest = claims groups in
    elim (cut_prefix g support_group_claim_prefix) [ none ↦ rest | some name ↦ name ∷ rest ]

module _ {K E : Type 0} (errors : Errors E) (cluster : Cluster K E) where
  abbrev denied : {O : Type 0} → String → E → Fetched O (Denial E)
  denied code err = failed (record { reason_code = code; err = err })

  -- The case of a ServiceAccount in getSupportGroups.
  unfoldable pub service_account_team : String → String → Fetched (List String) (Denial E)
  service_account_team namespace name = elim (cluster.get_service_account namespace name) [
    | failed e ↦
        denied "service_account_not_found"
          (errors.new ("ServiceAccount " ++ (name ++ " not found")))
    | found labels ↦ elim (lookup label_key_owned_by labels) [
      | none ↦ denied "no_owned_by_label" (errors.new "ServiceAccount missing owned-by label")
      | some team ↦ found (team ∷ [])
    ]
  ]

  -- The case of a user in getSupportGroups.
  unfoldable pub user_teams : List String → Fetched (List String) (Denial E)
  user_teams groups = elim (claims groups) [
    | [] ↦
        denied "no_support_group_claims"
          (errors.new "user has no support-group claims and is not an authorized ServiceAccount")
    | t ∷ ts ↦ found (t ∷ ts)
  ]

  -- getSupportGroups
  unfoldable pub get_support_groups :
      String → List String → String → Fetched (List String) (Denial E)
  get_support_groups username groups namespace =
      let name = extract_service_account_name username namespace in
      if name == "" then user_teams groups else service_account_team namespace name

  -- fetchResourceWithOwnership
  unfoldable pub fetch_resource_with_ownership : ResourceAttributes → Fetched String (Denial E)
  fetch_resource_with_ownership attrs =
      let version = if attrs.version == "*" then "" else attrs.version in
      elim (cluster.kind_for attrs.group version attrs.resource) [
        | failed e ↦ denied "kind_resolution_failed" e
        | found kind ↦ elim (cluster.get_object kind attrs.namespace attrs.name) [
          | failed e ↦ denied "object_not_found" e
          | found labels ↦ elim (lookup label_key_owned_by labels) [
            | none ↦ denied "no_owned_by_label" (errors.new "resource has no owned-by label")
            | some owner ↦ found owner
          ]
        ]
      ]

  -- validateTeam
  unfoldable pub validate_team : String → String → Option (Denial E)
  validate_team namespace team = elim (cluster.get_team namespace team) [
    | failed e ↦ some (record {
      reason_code = "object_not_found";
      err = errors.wrap ("team " ++ (team ++ " referenced in owned-by label does not exist")) e;
    })
    | found labels ↦
        if is_support_group labels
        then none
        else some (record {
          reason_code = "object_not_found";
          err = errors.new ("team " ++ (team ++ " is not a support-group"));
        })
  ]

  -- authorizeAccess: whether access is allowed, and the message
  unfoldable pub authorize_access : ResourceAttributes → List String → Bool × String
  authorize_access attrs support_groups = elim (fetch_resource_with_ownership attrs) [
    | failed d ↦ (false, "failed to fetch object: " ++ errors.text d.err)
    | found owner ↦ elim (validate_team attrs.namespace owner) [
      | some d ↦ (false, errors.text d.err)
      | none ↦
          if contains support_groups owner
          then (true, "authorized to access resource owned by " ++ owner)
          else (false, "support-group does not match resource owner")
    ]
  ]

  -- handleAuthorize, once the review is decoded
  unfoldable pub review_access : SubjectAccessReview → Response
  review_access review = elim review.resource_attributes [
    | none ↦ respond false "missing resource name in request"
    | some attrs ↦
        if attrs.name == ""
        then respond false "missing resource name in request"
        else elim (get_support_groups review.user review.groups attrs.namespace) [
          | failed d ↦ respond false (errors.text d.err)
          | found support_groups ↦
              (let (allowed, message) = authorize_access attrs support_groups in
                respond allowed message)
        ]
  ]

  -- handleAuthorize, of a method and of a body as the JSON decoder answers it
  unfoldable pub handle_authorize : String → Fetched SubjectAccessReview E → Response
  handle_authorize method body =
      if method == "POST"
      then elim body [
        | failed e ↦ http_error ("decode: " ++ errors.text e)
        | found review ↦ review_access review
      ]
      else http_error "invalid method"
