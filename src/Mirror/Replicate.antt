-- ===== src/Mirror/Replicate.antt =====
-- What of an ImageMirror (internal/ocimirror/image_mirror.go) warms the mirrors: EnsureChartReplicated,
-- EnsureImageReplicated and ReplicateOCIArtifacts.
use Prim.Native.String.{◌++◌}
use greenhouse.Prelude.{
  String, Bool, true, false, ◌==◌, Option, none, some, List, [], ◌∷◌, if◌then◌else◌, contains,
  sort_strings, Map,
}
use greenhouse.Platform.{Errors, Fetched, found, failed}
use greenhouse.Mirror.{
  References, RegistryMirror, RegistryMirrorConfig, add_seen, extract_unique_oci_refs,
  split_oci_ref, resolve_oci_ref,
}

-- The answers of a registry during a call: `manifest_fetcher` with the options of an ImageMirror.
-- `aggregate` is NewAggregate of apimachinery.
pub record Registry (M E : Type 0) : Type 0 where
  pub manifest_fetcher : String → Fetched M E
  pub aggregate : List E → Option E

-- the replicated reference, and the manifest, which may be nil, or the error
abbrev pub Replication : (M E : Type 0) → Type 0
Replication M E = String × Fetched (Option M) E

-- the loop of buildReplicationRef
abbrev pub is_mirror_domain : Map RegistryMirror → String → Bool
is_mirror_domain [] registry = false
is_mirror_domain ((key, mirror) ∷ rest) registry =
    if mirror.base_domain == registry then true else is_mirror_domain rest registry

module _ (refs : References) (config : RegistryMirrorConfig) where
  unfoldable pub build_replication_ref : String → String × String
  build_replication_ref oci_ref =
      let (registry, repo, tag_or_digest) = split_oci_ref refs oci_ref in
      if registry == config.primary_mirror
      then (oci_ref, oci_ref)
      else if is_mirror_domain config.registry_mirrors registry
      then (config.primary_mirror ++ ("/" ++ (repo ++ tag_or_digest)), oci_ref)
      else ("", "")

  unfoldable pub build_mirrored_oci_ref : String → String
  build_mirrored_oci_ref image_ref = elim (resolve_oci_ref refs config image_ref) [
    | none ↦ ""
    | some r ↦
        config.primary_mirror
        ++ ("/" ++ (r.mirror.sub_path ++ ("/" ++ (r.repository ++ r.tag_or_digest))))
  ]

  module _ {M E : Type 0} (errors : Errors E) (registry : Registry M E) where
    unfoldable pub trigger_replication : String → Fetched (Option M) E
    trigger_replication ref = elim (registry.manifest_fetcher ref) [
      | failed e ↦ failed (errors.wrap ("failed to fetch manifest for " ++ ref) e)
      | found manifest ↦ found (some manifest)
    ]

    unfoldable pub ensure_chart_replicated : String → Replication M E
    unfolding build_replication_ref trigger_replication
    ensure_chart_replicated oci_ref =
        let (replication_ref, return_ref) = build_replication_ref oci_ref in
        if replication_ref == ""
        then ("", found none)
        else (return_ref, trigger_replication replication_ref)

    unfoldable pub ensure_image_replicated : String → Replication M E
    unfolding build_mirrored_oci_ref ensure_chart_replicated
    ensure_image_replicated oci_ref =
        let mirrored_ref = build_mirrored_oci_ref oci_ref in
        if mirrored_ref == ""
        then ensure_chart_replicated oci_ref
        else (mirrored_ref, trigger_replication mirrored_ref)

    -- what one reference adds to the results of the others
    unfoldable pub add_result :
        String → Replication M E → List String × List E → List String × List E
    add_result ref (replicated_ref, failed e) (replicated, errs) =
        (replicated, errors.wrap ref e ∷ errs)
    add_result ref (replicated_ref, found m) (replicated, errs) =
        if replicated_ref == "" then (replicated, errs) else (ref ∷ replicated, errs)

    -- the loop of ReplicateOCIArtifacts over the references
    unfoldable pub replicate_refs : List String → List String → List String × List E
    unfolding add_result ensure_image_replicated
    replicate_refs already [] = ([], [])
    replicate_refs already (ref ∷ rest) =
        let results = replicate_refs already rest in
        if contains already ref
        then (ref ∷ results.0, results.1)
        else add_result ref (ensure_image_replicated ref) results

    -- the references of all the sets, each once
    unfoldable pub collect_refs : List String → List String → List String
    collect_refs seen [] = seen
    collect_refs seen (manifests ∷ rest) =
        collect_refs (add_seen seen (extract_unique_oci_refs refs manifests)) rest

    abbrev pub finish_refs : List String → List String → List String × Option E
    finish_refs already [] = ([], none)
    finish_refs already (ref ∷ rest) =
        let results = replicate_refs already (ref ∷ rest) in
        (sort_strings results.0, registry.aggregate results.1)

    unfoldable pub replicate_oci_artifacts : List String → List String → List String × Option E
    unfolding replicate_refs collect_refs
    replicate_oci_artifacts already manifest_sets =
        finish_refs already (collect_refs [] manifest_sets)
