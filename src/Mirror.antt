-- ===== src/Mirror.antt =====
-- internal/ocimirror: which images a registry mirror serves (ociref.go and the pure part of
-- registry_mirror.go). What is replicated is in Mirror/Replicate.
use Prim.Native.String.{◌++◌}
use greenhouse.Prelude.{
  ℕ, String, Bool, true, false, not, ◌||◌, ◌==◌, Option, none, some, List, [], ◌∷◌, ◌++◌ as append,
  if◌then◌else◌, contains, sort_strings, Map, lookup,
}
use greenhouse.Platform.{Errors}
pub mod Rewrite
pub mod Replicate
pub mod Replicated
mod Examples

-- What go-containerregistry's name.ParseReference finds in a reference: a tag or a digest.
pub data Identifier : Type 0 where
  tag : String → Identifier
  digest : String → Identifier

pub record Reference : Type 0 where
  pub registry_str : String
  pub repository_str : String
  pub identifier : Identifier

-- `parse_reference` is none for an error; `default_registry` is name.DefaultRegistry; `submatches`
-- are the first groups of the matches of imageFieldPattern, from regexp.
pub record References : Type 0 where
  pub parse_reference : String → Option Reference
  pub default_registry : String
  pub submatches : String → List String

-- the keys of a map that is used as a set, in the order in which they come
unfoldable pub add_seen : List String → List String → List String
add_seen seen [] = seen
add_seen seen (x ∷ xs) = add_seen (if contains seen x then seen else append seen (x ∷ [])) xs

abbrev docker_io : String
docker_io = "docker.io"

abbrev pub suffix : Identifier → String
suffix (tag t) = ":" ++ t
suffix (digest d) = "@" ++ d

-- the registry, the repository and the tag or digest
abbrev pub Parts : Type 0
Parts = String × String × String

pub record RegistryMirror : Type 0 where
  pub base_domain : String
  pub sub_path : String

-- The mirrors are a Go map: their order stands for the order of one run over it.
pub record RegistryMirrorConfig : Type 0 where
  pub primary_mirror : String
  pub registry_mirrors : Map RegistryMirror
  pub secret_name : String

pub record ResolvedOciRef : Type 0 where
  pub registry : String
  pub mirror : RegistryMirror
  pub repository : String
  pub tag_or_digest : String

module _ (refs : References) where
  unfoldable pub extract_unique_oci_refs : String → List String
  unfolding add_seen
  extract_unique_oci_refs manifests = sort_strings (add_seen [] (refs.submatches manifests))

  unfoldable pub split_oci_ref : String → Parts
  split_oci_ref image_ref = elim (refs.parse_reference image_ref) [
    | none ↦ (docker_io, image_ref, "")
    | some ref ↦ (
      if ref.registry_str == refs.default_registry then docker_io else ref.registry_str,
      ref.repository_str,
      suffix ref.identifier,
    )
  ]

  -- ResolveOCIRef of a configuration that is not nil
  unfoldable pub resolve_oci_ref : RegistryMirrorConfig → String → Option ResolvedOciRef
  unfolding split_oci_ref
  resolve_oci_ref c image_ref =
      let (registry, repo, tag_or_digest) = split_oci_ref image_ref in
      elim (lookup registry c.registry_mirrors) [
        | none ↦ none
        | some mirror ↦ some (record {
          registry = registry;
          mirror = mirror;
          repository = repo;
          tag_or_digest = tag_or_digest;
        })
      ]

-- the loop of validateRegistryMirrorConfig
abbrev check_mirrors : {E : Type 0} → Errors E → Map RegistryMirror → Option E
check_mirrors errors [] = none
check_mirrors errors ((registry, mirror) ∷ rest) =
    if registry == ""
    then some (errors.new "registry name cannot be empty")
    else if mirror.base_domain == ""
    then some (errors.new ("baseDomain cannot be empty for registry " ++ registry))
    else if mirror.sub_path == ""
    then some (errors.new ("subPath cannot be empty for registry " ++ registry))
    else check_mirrors errors rest

unfoldable pub validate_registry_mirror_config :
    {E : Type 0} → Errors E → RegistryMirrorConfig → Option E
validate_registry_mirror_config errors config =
    if config.primary_mirror == ""
    then some (errors.new "primaryMirror cannot be empty")
    else elim config.registry_mirrors [
      | [] ↦ some (errors.new "registryMirrors cannot be empty")
      | m ∷ ms ↦ check_mirrors errors (m ∷ ms)
    ]
