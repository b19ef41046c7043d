-- ===== src/Tracking/Missing.antt =====
-- What computeReleaseValues (internal/controller/plugin/plugin_controller_flux.go) does if a
-- resource that a value refers to is not there.
use greenhouse.Prelude.{
  String, true, false, ◌≡◌, refl, ap, ◌∙◌, ◌==◌, Option, none, some, List, [], ◌∷◌, subst, sym,
  if◌then◌else◌,
}
use greenhouse.Platform.{Errors, Fetched, found, failed}
use greenhouse.Options.{PluginOptionValue, PluginValueFromSource, ExternalValueSource}
use greenhouse.Tracking.{Resource, ResourceClient, AnyValues, build_gvk, tracking_id}
use greenhouse.Tracking.Resolve.{
  resolve_by_name, option_of, select, select_after, resolve_kind, resolve_from,
  resolve_value_from_ref,
}
use greenhouse.Tracking.Release.{
  TrackingPlugin, CelResolver, resolve_values, track, compute_release_values,
}

module _ {V L S W A D E : Type 0} (errors : Errors E) (client : ResourceClient V L S W E)
    (any : AnyValues A E) (cel : String → Resource V → Fetched A E) (resolver : CelResolver L D E)
    (new_aggregate : List E → Option E) where
  -- A reference by name to a resource that the API server does not find.
  pub record IsDangling (kind namespace : String) (ref : ExternalValueSource L) (w : W)
      : Type 0 where
    pub named : (ref.name == "") ≡ false
    pub no_selector : ref.selector ≡ none
    pub of_kind : (ref.kind == "") ≡ false
    pub error : E
    pub missing : client.get (build_gvk ref.kind) namespace ref.name w ≡ failed error
    pub not_found : errors.is_not_found error ≡ true

  by_name-dangling :
      (kind namespace tracker : String) (ref : ExternalValueSource L) (w : W)
      → IsDangling kind namespace ref w
      → resolve_by_name errors client any cel (build_gvk ref.kind) namespace ref tracker w
        ≡ (found any.nil, w)
  unfolding resolve_by_name
  by_name-dangling kind namespace tracker ref w h =
      rw (resolve_by_name, h.missing, h.not_found) refl

  select-nil :
      (name kind namespace tracker : String) (ref : ExternalValueSource L) (tracked : List String)
      (w : W)
      → ref.selector ≡ none
      → any.is_nil any.nil ≡ true
      → select errors client any cel name namespace ref (build_gvk kind) tracker any.nil tracked w
        ≡ (found (none, tracked), w)
  unfolding select option_of
  select-nil name kind namespace tracker ref tracked w s nil = rw (select, s, nil) refl

  kind-dangling :
      (kind namespace tracker option : String) (ref : ExternalValueSource L) (w : W)
      → IsDangling kind namespace ref w
      → any.is_nil any.nil ≡ true
      → resolve_kind errors client any cel option namespace ref ref.kind tracker w
        ≡ (found (none, tracking_id ref.kind ref.name ∷ []), w)
  unfolding resolve_kind select_after
  kind-dangling kind namespace tracker option ref w h nil = rw h.named (
      ap (select_after errors client any cel option namespace ref ref.kind tracker)
        (by_name-dangling kind namespace tracker ref w h)
      ∙ select-nil option ref.kind namespace tracker ref (tracking_id ref.kind ref.name ∷ []) w
          h.no_selector nil)

  resolve-dangling :
      (kind namespace plugin option : String) (ref : ExternalValueSource L) (w : W)
      → IsDangling kind namespace ref w
      → any.is_nil any.nil ≡ true
      → resolve_value_from_ref errors client any cel kind namespace plugin option ref w
        ≡ (found (none, tracking_id ref.kind ref.name ∷ []), w)
  unfolding resolve_value_from_ref resolve_from
  resolve-dangling kind namespace plugin option ref w h nil =
      subst
        (λ k.
          resolve_kind errors client any cel option namespace ref k (tracking_id kind plugin) w
          ≡ (found (none, tracking_id ref.kind ref.name ∷ []), w))
        (sym (ap (λ b. if b then kind else ref.kind) h.of_kind))
        (kind-dangling kind namespace (tracking_id kind plugin) option ref w h nil)

  values-dangling :
      (plugin : TrackingPlugin) (template : Option D) (v : PluginOptionValue L)
      (from : PluginValueFromSource L) (ref : ExternalValueSource L)
      (vs : List (PluginOptionValue L)) (tracked : List String) (w : W)
      → v.value ≡ none
      → v.expression ≡ none
      → v.value_from ≡ some from
      → from.ref ≡ some ref
      → IsDangling plugin.kind plugin.namespace ref w
      → any.is_nil any.nil ≡ true
      → resolve_values errors client any cel resolver new_aggregate plugin template true
          (v ∷ vs)
          tracked
          w
        ≡ (none, w)
  unfolding resolve_values
  values-dangling plugin template v from ref vs tracked w hv he hf hr h nil =
      let missing = resolve-dangling plugin.kind plugin.namespace plugin.name v.name ref w h nil in
      rw (resolve_values, hv, he, hf, hr, missing) (ap (λ r. (none, r.1)) missing)

  -- If the first option value of a plugin refers by kind and name, without a selector, to a resource
  -- that is not there, values may be taken from other resources and expressions are not
  -- evaluated, then computeReleaseValues dereferences nil.
  pub compute_release_values-dangling :
      (plugin : TrackingPlugin) (v : PluginOptionValue L) (from : PluginValueFromSource L)
      (ref : ExternalValueSource L) (vs : List (PluginOptionValue L)) (w : W)
      → v.value ≡ none
      → v.expression ≡ none
      → v.value_from ≡ some from
      → from.ref ≡ some ref
      → IsDangling plugin.kind plugin.namespace ref w
      → any.is_nil any.nil ≡ true
      → compute_release_values errors client any cel resolver new_aggregate
          (found (v ∷ vs))
          plugin
          false
          true
          w
        ≡ (none, plugin, w)
  unfolding compute_release_values track
  compute_release_values-dangling plugin v from ref vs w hv he hf hr h nil =
      ap (track errors client any cel resolver new_aggregate plugin true)
        (values-dangling plugin none v from ref vs [] w hv he hf hr h nil)
