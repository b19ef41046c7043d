-- ===== src/Propagation/Examples.antt =====
-- A source that hands down labels exactly and by a prefix, and an annotation with an empty value.
use greenhouse.Prelude.{
  ◌≡◌, ◌≢◌, refl, ap, Bool, true, false, none, some, [], ◌∷◌, IsMap, lookup, contains, arith,
  if◌then◌else◌, trim_space, split_comma, cut_suffix, cut_prefix, ◌==◌,
}
use greenhouse.Object.{ObjectMeta}
use greenhouse.Propagation.{
  apply, copy_labels, get_applied_state, keys_to_propagate, propagate_labels_annotation,
  propagate_annotations_annotation, exact_keys, wild_prefixes,
}
use greenhouse.Propagation.Labels
use greenhouse.Propagation.Labels.{lookup-copy_labels}
use greenhouse.Propagation.Codec.{pairs, pairs-JsonLaws}
use greenhouse.Propagation.Apply.{
  lookup-labels-apply, labels-apply_idem, labels-apply_retracts, annotations-apply_idem,
  annotations-apply_flips,
}

abbrev plain : ObjectMeta
plain = record {
  name = "o";
  namespace = "org";
  labels = ("old", "z") ∷ [];
  annotations = [];
  finalizers = [];
  deletion_timestamp = none;
}

abbrev source : ObjectMeta
source = record plain {
  labels = ("team", "a") ∷ ("meta/x", "1") ∷ [];
  annotations =
      (propagate_labels_annotation, "team, meta/*")
      ∷ (propagate_annotations_annotation, "note")
      ∷ ("note", "")
      ∷ [];
}

-- The source once it declares no labels.
abbrev retracted : ObjectMeta
retracted = record source { annotations = [] }

source-IsMap : IsMap source.labels
unfolding lookup
source-IsMap = (refl, (refl, tt))

lookup-copy_labels_example : lookup "meta/x" (copy_labels ("meta/*" ∷ []) source plain).labels ≡ (
    if Labels.handed ("meta/*" ∷ []) source.labels "meta/x"
    then lookup "meta/x" source.labels
    else lookup "meta/x" plain.labels)
lookup-copy_labels_example = lookup-copy_labels ("meta/*" ∷ []) source plain "meta/x" source-IsMap

lookup-labels-apply_example : lookup "meta/x" (apply pairs source plain).labels ≡ (
    if Labels.handed (keys_to_propagate propagate_labels_annotation source) source.labels "meta/x"
    then lookup "meta/x" source.labels
    else if contains (get_applied_state pairs plain).label_keys "meta/x"
    then none
    else lookup "meta/x" plain.labels)
lookup-labels-apply_example = lookup-labels-apply pairs source plain source-IsMap "meta/x"

labels-apply_idem_example :
    lookup "team" (apply pairs source (apply pairs source plain)).labels
    ≡ lookup "team" (apply pairs source plain).labels
labels-apply_idem_example = labels-apply_idem pairs pairs-JsonLaws source plain source-IsMap "team"

team_handed :
    Labels.handed (keys_to_propagate propagate_labels_annotation source) source.labels "team" ≡ true
unfolding keys_to_propagate exact_keys wild_prefixes lookup trim_space split_comma cut_suffix
    cut_prefix
team_handed = refl

team_retracted :
    Labels.handed (keys_to_propagate propagate_labels_annotation retracted) retracted.labels "team"
    ≡ false
unfolding keys_to_propagate exact_keys wild_prefixes lookup trim_space split_comma cut_suffix
    cut_prefix
team_retracted = refl

labels-apply_retracts_example :
    lookup "team" (apply pairs retracted (apply pairs source plain)).labels ≡ none
labels-apply_retracts_example =
    labels-apply_retracts pairs pairs-JsonLaws source plain retracted source-IsMap source-IsMap
      "team" team_handed team_retracted

not_empty : lookup propagate_labels_annotation source.annotations ≢ some ""
unfolding lookup
not_empty =
    λ e. ground (arith, ap (λ o. elim o as (λ _. Bool) [ none ↦ true | some v ↦ v == "" ]) e)

annotations-apply_idem_example :
    lookup propagate_labels_annotation (apply pairs source (apply pairs source plain)).annotations
    ≡ lookup propagate_labels_annotation (apply pairs source plain).annotations
annotations-apply_idem_example =
    annotations-apply_idem pairs pairs-JsonLaws source plain propagate_labels_annotation refl
      not_empty

note_declared : contains (keys_to_propagate propagate_annotations_annotation source) "note" ≡ true
unfolding keys_to_propagate lookup trim_space split_comma
note_declared = refl

note_empty : lookup "note" source.annotations ≡ some ""
unfolding lookup
note_empty = refl

note_new : contains (get_applied_state pairs plain).annotation_keys "note" ≡ false
unfolding get_applied_state lookup
note_new = refl

annotations-apply_flips_example :
    (lookup "note" (apply pairs source plain).annotations ≡ some "")
    × (lookup "note" (apply pairs source (apply pairs source plain)).annotations ≡ none)
annotations-apply_flips_example =
    annotations-apply_flips pairs pairs-JsonLaws source plain "note" refl note_declared note_empty
      note_new
