-- ===== src/Cluster/Token.antt =====
-- Tokens for remote clusters, of internal/controller/cluster/utils/token.go. A time and a duration are
-- nanoseconds.
use Prim.Native.Nat.{◌*◌, ◌/◌}
use greenhouse.Prelude.{
  ℕ, ◌+◌, ltb, nat_eq, String, Bool, true, false, not, ◌&&◌, ◌==◌, Option, none, some, List, [],
  ◌∷◌, if◌then◌else◌, Map, lookup,
}
use greenhouse.Platform.{Fetched, found, failed}
use greenhouse.Cluster.{
  Cluster, secret_type_kube_config, secret_type_oidc_config, service_account_name,
}

abbrev pub green_house_kube_config_key : String
green_house_kube_config_key = "greenhousekubeconfig"

abbrev pub oidc_audience : String
oidc_audience = "greenhouse"

-- time.Second
abbrev pub second : ℕ
second = 1000000000

-- Of a corev1.Secret: its data, none for a value that is nil.
abbrev pub SecretData : Type 0
SecretData = Map (Option String)

abbrev pub is_secret_contains_key : SecretData → String → Bool
is_secret_contains_key secret key = elim (lookup key secret) [
  | none ↦ false
  | some none ↦ false
  | some (some v) ↦ true
]

-- authenticationv1.TokenRequest: what is asked for, and the token that the API server fills in.
pub record TokenRequest : Type 0 where
  pub expiration_seconds : ℕ
  pub audiences : List String
  pub token : String
  pub expiration_timestamp : ℕ

-- The creation of a token request, for a service account of a name and a namespace: an error, or
-- the request as it comes back.
abbrev pub TokenClient : (W E : Type 0) → Type 0
TokenClient W E = String → String → TokenRequest → W → Fetched TokenRequest E × W

pub record TokenHelper (W E : Type 0) : Type 0 where
  pub in_cluster_client : TokenClient W E
  pub remote_cluster_client : TokenClient W E
  pub remote_cluster_bearer_token_validity : ℕ
  pub renew_remote_cluster_bearer_token_after : ℕ
  pub secret_type : String

-- What the code has from client-go and go-jose: the bearer token of a REST configuration, and the
-- expiry, in seconds, among the claims of a token, none if it cannot be parsed.
pub record TokenReader (E : Type 0) : Type 0 where
  pub to_rest_config : Fetched String E
  pub expiry_claim : String → Option ℕ

-- t.After(now + renew_after)
abbrev pub is_after : ℕ → ℕ → ℕ → Bool
is_after t now renew_after = ltb (now + renew_after) t

-- the test on the timestamp in the status
abbrev pub stored_is_valid : Cluster → ℕ → ℕ → Bool
stored_is_valid cluster now renew_after =
    let stored = cluster.status.bearer_token_expiration_timestamp in
    not (nat_eq stored 0) && is_after stored now renew_after

-- metav1.Unix(tokenInfo.Expiry, 0), for an expiry that is not negative
abbrev pub unix : ℕ → ℕ
unix seconds = seconds * second

abbrev pub requested :
    {W E : Type 0} → Fetched TokenRequest E × W → Fetched (Option TokenRequest) E × W
requested (found request, w) = (found (some request), w)
requested (failed e, w) = (failed e, w)

module _ {E : Type 0} (reader : TokenReader E) (cluster : Cluster) (now : ℕ) where
  unfoldable pub should_skip_token_renewal : ℕ → Bool
  should_skip_token_renewal renew_after = elim (reader.to_rest_config) [
    | failed e ↦ false
    | found bearer_token ↦ elim (reader.expiry_claim bearer_token) [
      | some expiry ↦ is_after (unix expiry) now renew_after
      | none ↦ stored_is_valid cluster now renew_after
    ]
  ]

module _ {W E : Type 0} (cluster : Cluster) where
  -- generateKubeConfigToken and generateOIDCToken
  abbrev pub generate_kube_config_token :
      TokenHelper W E → TokenRequest → W → Fetched TokenRequest E × W
  generate_kube_config_token t request w =
      t.remote_cluster_client service_account_name cluster.namespace request w

  abbrev pub generate_oidc_token : TokenHelper W E → TokenRequest → W → Fetched TokenRequest E × W
  generate_oidc_token t request w =
      t.in_cluster_client cluster.name cluster.namespace
        (record request { audiences = oidc_audience ∷ [] }) w

  unfoldable pub create_token_request : TokenHelper W E → W → Fetched TokenRequest E × W
  create_token_request t w =
      let request : TokenRequest = record {
        expiration_seconds = t.remote_cluster_bearer_token_validity / second;
        audiences = [];
        token = "";
        expiration_timestamp = 0;
      } in
      if t.secret_type == secret_type_kube_config
      then generate_kube_config_token t request w
      else if t.secret_type == secret_type_oidc_config
      then generate_oidc_token t request w
      else (found request, w)

-- GenerateTokenRequest: no request is a nil one
unfoldable pub generate_token_request :
    {W E : Type 0}
    → TokenReader E
    → Cluster
    → ℕ
    → TokenHelper W E
    → SecretData
    → W
    → Fetched (Option TokenRequest) E × W
unfolding should_skip_token_renewal create_token_request
generate_token_request reader cluster now t secret w =
    if not (is_secret_contains_key secret green_house_kube_config_key)
    then requested (create_token_request cluster t w)
    else if should_skip_token_renewal reader cluster now t.renew_remote_cluster_bearer_token_after
    then (found none, w)
    else requested (create_token_request cluster t w)
