-- ===== src/Predicates/Flips.antt =====
-- Which changes of a condition the update functions of internal/clientutil/predicates.go see.
use greenhouse.Prelude.{
  Bool, false, not, ◌&&◌, ◌≡◌, refl, ap, String, Option, none, some, List, arith,
}
use greenhouse.Object.{ObjectMeta}
use greenhouse.Conditions.{
  ConditionStatus, Condition, condition_true, condition_false, condition_unknown, status_eq,
  get_condition_by_type, holds, is_ready_true, is_true, ready_condition,
}
use greenhouse.Team.{scim_api_available}
use greenhouse.Predicates.{
  Watched, organization, cluster, organization_update, cluster_update, scim_flipped, ready_flipped,
}

abbrev pub watched_organization : ObjectMeta → List Condition → Option Watched
watched_organization m conditions = some (record { metadata = m; kind = organization conditions })

abbrev pub watched_cluster : ObjectMeta → String → List Condition → Option Watched
watched_cluster m mode conditions = some (record { metadata = m; kind = cluster mode conditions })

-- whether there is a condition and its status is Unknown
abbrev pub is_unknown_in : Option Condition → Bool
is_unknown_in none = false
is_unknown_in (some c) = status_eq c.status condition_unknown

is_false-status :
    (s : ConditionStatus)
    → status_eq s condition_false
      ≡ (not (status_eq s condition_true) && not (status_eq s condition_unknown))
is_false-status condition_true = refl
is_false-status condition_false = refl
is_false-status condition_unknown = refl

scim_flipped-holds :
    (old new : Option Condition)
    → scim_flipped old new ≡ ((not (holds old) && not (is_unknown_in old)) && holds new)
scim_flipped-holds none none = refl
scim_flipped-holds (some o) none = ground arith
scim_flipped-holds none (some n) = refl
scim_flipped-holds (some o) (some n) = ap (λ b. b && is_true n) (is_false-status o.status)

ready_flipped-holds :
    (old new : Option Condition) → ready_flipped old new ≡ (not (holds old) && holds new)
ready_flipped-holds none none = refl
ready_flipped-holds (some o) none = ground arith
ready_flipped-holds none (some n) = refl
ready_flipped-holds (some o) (some n) = refl

-- An update of a cluster is let through exactly if its Ready condition is True and was not before. An
-- update of an organization is let through exactly if its SCIMAPIAvailable condition is True, was not
-- before, and was not Unknown either.
pub updates-flips :
    (m m' : ObjectMeta) (mode mode' : String) (old new : List Condition)
    → (cluster_update (watched_cluster m mode old) (watched_cluster m' mode' new)
        ≡ (not (is_ready_true old) && is_ready_true new))
      × (organization_update (watched_organization m old) (watched_organization m' new) ≡ (
          (not (holds (get_condition_by_type old scim_api_available))
            && not (is_unknown_in (get_condition_by_type old scim_api_available)))
          && holds (get_condition_by_type new scim_api_available)))
unfolding cluster_update organization_update is_ready_true
updates-flips m m' mode mode' old new = (
  ready_flipped-holds (get_condition_by_type old ready_condition)
      (get_condition_by_type new ready_condition),
  scim_flipped-holds (get_condition_by_type old scim_api_available)
      (get_condition_by_type new scim_api_available),
)
