-- ===== src/Cluster/Renewal.antt =====
-- When GenerateTokenRequest of internal/controller/cluster/utils/token.go keeps a token.
use Prim.Native.Nat.{◌-◌}
use greenhouse.Prelude.{
  ℕ, ◌+◌, ltb, nat_eq, String, ◌==◌, ◌||◌, not, ◌∙◌, Bool, false, ◌&&◌, ◌≡◌, refl, Option, none,
  some, arith, if◌then◌else◌, Bool-cases, inl, inr, Option-cases,
}
use greenhouse.Platform.{Fetched, found, failed, Fetched-cases}
use greenhouse.Cluster.{Cluster}
use greenhouse.Cluster.Token.{
  SecretData, is_secret_contains_key, green_house_kube_config_key, TokenRequest, TokenHelper,
  TokenReader, unix, should_skip_token_renewal, requested, create_token_request,
  generate_token_request,
}

-- until when the token of a cluster is valid, as far as that is known
abbrev pub expiry_of : {E : Type 0} → TokenReader E → Cluster → Option ℕ
expiry_of reader cluster = elim (reader.to_rest_config) [
  | failed e ↦ none
  | found bearer_token ↦ elim (reader.expiry_claim bearer_token) [
    | some expiry ↦ some (unix expiry)
    | none ↦
        if nat_eq cluster.status.bearer_token_expiration_timestamp 0
        then none
        else some cluster.status.bearer_token_expiration_timestamp
  ]
]

-- whether what is left until a time, nothing for one that has passed, is more than a duration
abbrev pub lasts : ℕ → ℕ → Option ℕ → Bool
lasts now duration none = false
lasts now duration (some t) = ltb duration (t - now)

-- whether a token can be asked for: only for the two types of secrets
abbrev pub has_token : String → Bool
has_token secret_type =
    secret_type == "greenhouse.sap/kubeconfig" || secret_type == "greenhouse.sap/oidc"

-- A count of the token requests that the clients have sent.
pub record Counts {W E : Type 0} (t : TokenHelper W E) (sent : W → ℕ) : Type 0 where
  pub remote :
      (name namespace : String) (request : TokenRequest) (w : W)
      → sent (t.remote_cluster_client name namespace request w).1 ≡ sent w + 1
  pub in_cluster :
      (name namespace : String) (request : TokenRequest) (w : W)
      → sent (t.in_cluster_client name namespace request w).1 ≡ sent w + 1

should_skip-lasts :
    {E : Type 0} (reader : TokenReader E) (cluster : Cluster) (now renew_after : ℕ)
    → should_skip_token_renewal reader cluster now renew_after
      ≡ lasts now renew_after (expiry_of reader cluster)
unfolding should_skip_token_renewal
should_skip-lasts reader cluster now renew_after = elim (Fetched-cases reader.to_rest_config) [
  | inr (e, h) ↦ rw (should_skip_token_renewal, h) refl
  | inl (token, h) ↦ elim (Option-cases (reader.expiry_claim token)) [
    | inr (expiry, s) ↦ rw (should_skip_token_renewal, h, s) (ground arith)
    | inl n ↦ elim (Bool-cases (nat_eq cluster.status.bearer_token_expiration_timestamp 0)) [
      | inl z ↦ rw (should_skip_token_renewal, h, n, z) refl
      | inr z ↦ rw (should_skip_token_renewal, h, n, z) (ground arith)
    ]
  ]
]

requested-sent :
    {W E : Type 0} (sent : W → ℕ) (r : Fetched TokenRequest E × W) → sent (requested r).1 ≡ sent r.1
requested-sent sent (found request, w) = refl
requested-sent sent (failed e, w) = refl

create-sent :
    {W E : Type 0} (cluster : Cluster) (t : TokenHelper W E) (sent : W → ℕ) (w : W)
    → Counts t sent
    → sent (create_token_request cluster t w).1
      ≡ (if has_token t.secret_type then sent w + 1 else sent w)
unfolding create_token_request
create-sent cluster t sent w counts =
    elim (Bool-cases (t.secret_type == "greenhouse.sap/kubeconfig")) [
      | inl h ↦ rw (create_token_request, h) (counts.remote _ _ _ w)
      | inr h ↦ elim (Bool-cases (t.secret_type == "greenhouse.sap/oidc")) [
        | inl o ↦ rw (create_token_request, h, o) (counts.in_cluster _ _ _ w)
        | inr o ↦ rw (create_token_request, h, o) refl
      ]
    ]

-- GenerateTokenRequest sends one token request, or none: it sends none exactly if the secret is of
-- neither type, or it has a kubeconfig and the time that is left until the expiry of the token in
-- use, as far as it is known, is more than the time at which tokens are to be renewed. The requests
-- are counted by `sent`.
pub generate_token_request-sent :
    {W E : Type 0} (reader : TokenReader E) (cluster : Cluster) (now : ℕ) (t : TokenHelper W E)
    (secret : SecretData) (sent : W → ℕ) (w : W)
    → Counts t sent
    → sent (generate_token_request reader cluster now t secret w).1 ≡ (
        if has_token t.secret_type
          && not (
              is_secret_contains_key secret green_house_kube_config_key
              && lasts now t.renew_remote_cluster_bearer_token_after (expiry_of reader cluster))
        then sent w + 1
        else sent w)
unfolding generate_token_request
generate_token_request-sent reader cluster now t secret sent w counts =
    let renew_after = t.renew_remote_cluster_bearer_token_after in
    let request = create_token_request cluster t w in
    let asked = requested-sent sent request ∙ create-sent cluster t sent w counts in
    let e = should_skip-lasts reader cluster now renew_after in
    elim (Bool-cases (is_secret_contains_key secret green_house_kube_config_key)) [
      | inr h ↦ rw (generate_token_request, h) (asked ∙ ground arith)
      | inl h ↦ elim (Bool-cases (lasts now renew_after (expiry_of reader cluster))) [
        | inl l ↦ rw (generate_token_request, h, e, l) (ground arith)
        | inr l ↦ rw (generate_token_request, h, e, l) (asked ∙ ground arith)
      ]
    ]
