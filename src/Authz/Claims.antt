-- ===== src/Authz/Claims.antt =====
-- The support-group claims among the groups of a user, in cmd/authz/authorization.go.
use Prim.Native.String.{String as Text, ◌++◌}
use text.Mathlib.TextEquality.{Char-path}
use greenhouse.Prelude.{
  String, ◌≡◌, refl, ap, inl, inr, eq_iff, some, List, [], ◌∷◌, contains, cut_prefix, arith,
  Option-cases, nil-append, cons-append,
}
use greenhouse.Authz.{support_group_claim_prefix, claims}

cut_prefix-append : (p t : String) → cut_prefix (p ++ t) p ≡ some t
unfolding cut_prefix
cut_prefix-append Text.[] t = ap (λ u. some u) (nil-append t)
cut_prefix-append (Text.◌∷◌ c p) t = rw (cons-append c p t) (ground (arith, cut_prefix-append p t))

append-cut_prefix : (s p t : String) → cut_prefix s p ≡ some t → s ≡ p ++ t
unfolding cut_prefix
append-cut_prefix s Text.[] t h = ground (arith, nil-append t, h)
append-cut_prefix Text.[] (Text.◌∷◌ d p) t h = ground (arith, h)
append-cut_prefix (Text.◌∷◌ c s) (Text.◌∷◌ d p) t h =
    ground (arith, cons-append d p t, append-cut_prefix s p t, Char-path c d)

-- The claims of a user are the teams whose claim is among the groups.
pub contains-claims :
    (groups : List String) (t : String)
    → contains (claims groups) t ≡ contains groups (support_group_claim_prefix ++ t)
unfolding claims
contains-claims [] t = refl
contains-claims (g ∷ groups) t = elim (Option-cases (cut_prefix g support_group_claim_prefix)) [
  | inl e ↦ ground (
    arith,
    contains-claims groups t,
    eq_iff g (support_group_claim_prefix ++ t),
    cut_prefix-append support_group_claim_prefix t,
  )
  | inr (name, e) ↦ ground (
    arith,
    contains-claims groups t,
    eq_iff g (support_group_claim_prefix ++ t),
    eq_iff name t,
    cut_prefix-append support_group_claim_prefix t,
    append-cut_prefix g support_group_claim_prefix name,
  )
]
