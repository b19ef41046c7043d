-- ===== src/Predicates.antt =====
-- internal/clientutil/predicates.go: which events of watched objects cause a reconciliation. Of a
-- filter that is given to NewPredicateFuncs of controller-runtime, only the filter is modelled.
pub mod Flips
mod Examples
use greenhouse.Prelude.{
  String, Bool, true, false, not, ◌&&◌, ◌||◌, ◌==◌, Option, none, some, List, [], ◌∷◌, lookup,
  contains,
}
use greenhouse.Object.{ObjectMeta}
use greenhouse.Conditions.{
  Condition, ConditionStatus, status_eq, is_true, is_false, is_ready_true, get_condition_by_type,
  ready_condition,
}
use greenhouse.Team.{scim_api_available}

-- What the type assertions tell apart, with what is read of each kind.
pub data Kind : Type 0 where
  secret : String → Kind
  cluster : String → List Condition → Kind
  plugin : List Condition → Kind
  organization : List Condition → Kind
  other : Kind

pub record Watched : Type 0 where
  pub metadata : ObjectMeta
  pub kind : Kind

-- predicate.Funcs: an event whose function is none is let through
pub record Funcs : Type 0 where
  pub create : Option (Watched → Bool)
  pub update : Option (Option Watched → Option Watched → Bool)
  pub delete : Option (Watched → Bool)
  pub generic : Option (Watched → Bool)

abbrev never : Option (Watched → Bool)
never = some (λ o. false)

unfoldable pub filter_by_secret_types : List String → Watched → Bool
filter_by_secret_types types o = elim o.kind [
  | secret type ↦ contains types type
  | cluster mode conditions ↦ false
  | plugin conditions ↦ false
  | organization conditions ↦ false
  | other ↦ false
]

unfoldable pub cluster_by_access_mode : String → Watched → Bool
cluster_by_access_mode access_mode o = elim o.kind [
  | secret type ↦ false
  | cluster mode conditions ↦ mode == access_mode
  | plugin conditions ↦ false
  | organization conditions ↦ false
  | other ↦ false
]

unfoldable pub cluster_is_ready : Watched → Bool
cluster_is_ready o = elim o.kind [
  | secret type ↦ false
  | cluster mode conditions ↦ is_ready_true conditions
  | plugin conditions ↦ false
  | organization conditions ↦ false
  | other ↦ false
]

abbrev pub by_name : String → Watched → Bool
by_name name o = o.metadata.name == name

abbrev pub has_label_with_value : String → String → Watched → Bool
has_label_with_value key value o = elim (lookup key o.metadata.labels) [
  | none ↦ "" == value
  | some v ↦ v == value
]

-- The type assertions on the two objects of an update.
abbrev plugin_conditions : Option Watched → Option (List Condition)
plugin_conditions none = none
plugin_conditions (some o) = elim o.kind [
  | secret type ↦ none
  | cluster mode conditions ↦ none
  | plugin conditions ↦ some conditions
  | organization conditions ↦ none
  | other ↦ none
]

abbrev organization_conditions : Option Watched → Option (List Condition)
organization_conditions none = none
organization_conditions (some o) = elim o.kind [
  | secret type ↦ none
  | cluster mode conditions ↦ none
  | plugin conditions ↦ none
  | organization conditions ↦ some conditions
  | other ↦ none
]

abbrev cluster_conditions : Option Watched → Option (List Condition)
cluster_conditions none = none
cluster_conditions (some o) = elim o.kind [
  | secret type ↦ none
  | cluster mode conditions ↦ some conditions
  | plugin conditions ↦ none
  | organization conditions ↦ none
  | other ↦ none
]

-- a test of both objects, which fails if one is nil or of another type
abbrev both :
    (List Condition → List Condition → Bool)
    → Option (List Condition)
    → Option (List Condition)
    → Bool
both test none new = false
both test (some old) none = false
both test (some old) (some new) = test old new

abbrev pub ready_changed : Option Condition → Option Condition → Bool
ready_changed none none = false
ready_changed none (some new) = true
ready_changed (some old) none = true
ready_changed (some old) (some new) = not (status_eq old.status new.status)

abbrev pub scim_flipped : Option Condition → Option Condition → Bool
scim_flipped old none = false
scim_flipped none (some new) = is_true new
scim_flipped (some old) (some new) = is_false old && is_true new

abbrev pub ready_flipped : Option Condition → Option Condition → Bool
ready_flipped old none = false
ready_flipped none (some new) = is_true new
ready_flipped (some old) (some new) = not (is_true old) && is_true new

abbrev pub test_under :
    String → (Option Condition → Option Condition → Bool) → List Condition → List Condition → Bool
test_under t test old new = test (get_condition_by_type old t) (get_condition_by_type new t)

unfoldable pub plugin_update : Option Watched → Option Watched → Bool
plugin_update old new =
    both (test_under ready_condition ready_changed) (plugin_conditions old) (plugin_conditions new)

unfoldable pub organization_update : Option Watched → Option Watched → Bool
organization_update old new =
    both (test_under scim_api_available scim_flipped) (organization_conditions old)
      (organization_conditions new)

unfoldable pub cluster_update : Option Watched → Option Watched → Bool
cluster_update old new =
    both (test_under ready_condition ready_flipped) (cluster_conditions old)
      (cluster_conditions new)

abbrev pub plugin_with_status_ready_change : Funcs
plugin_with_status_ready_change = record {
  create = never;
  update = some plugin_update;
  delete = none;
  generic = never;
}

abbrev pub organization_scim_status_change : Funcs
organization_scim_status_change = record {
  create = never;
  update = some organization_update;
  delete = never;
  generic = never;
}

abbrev pub cluster_ready_status_change : Funcs
cluster_ready_status_change = record {
  create = never;
  update = some cluster_update;
  delete = never;
  generic = never;
}

-- the update function of PredicateIgnoreDeletingResources, for a new object that is not nil
abbrev pub ignore_deleting_update : Watched → Bool
ignore_deleting_update new = elim new.metadata.deletion_timestamp [ none ↦ true | some t ↦ false ]
