-- ===== src/Mirror/Examples.antt =====
-- A mirror of one registry, and two sets of manifests whose images are one to a line.
use greenhouse.Prelude.{
  String, ◌≡◌, refl, ◌==◌, none, some, List, [], ◌∷◌, if◌then◌else◌, has_prefix, split_on, text_lt,
  lookup, cut_prefix,
}
use greenhouse.Platform.{found, failed}
use greenhouse.Platform.Examples.{plain_errors}
use greenhouse.Mirror.{
  References, RegistryMirrorConfig, tag, digest, add_seen, extract_unique_oci_refs, resolve_oci_ref,
}
use greenhouse.Mirror.Rewrite.{build_image_transformations}
use greenhouse.Mirror.Replicate.{Registry, replicate_oci_artifacts}

abbrev plain_references : References
plain_references = record {
  parse_reference = λ s.
      if has_prefix s "quay.io/"
      then some (record { registry_str = "quay.io"; repository_str = "a/b"; identifier = tag "1" })
      else if s == "nginx"
      then some (record {
        registry_str = "index.docker.io";
        repository_str = "library/nginx";
        identifier = digest "sha";
      })
      else none;
  default_registry = "index.docker.io";
  submatches = λ s. split_on ";" s;
}

abbrev config : RegistryMirrorConfig
config = record {
  primary_mirror = "keppel.local";
  registry_mirrors = ("quay.io", record { base_domain = "mirror.local"; sub_path = "quay" }) ∷ [];
  secret_name = "";
}

abbrev registry : Registry String String
registry = record {
  manifest_fetcher = λ ref. if ref == "keppel.local/quay/a/b:1" then found "{}" else failed "404";
  aggregate = λ errs. elim errs [ [] ↦ none | e ∷ rest ↦ some e ];
}

abbrev sets : List String
sets = "nginx;quay.io/a/b:1" ∷ "quay.io/a/b:1;old" ∷ []

replicated :
    replicate_oci_artifacts plain_references config plain_errors registry ("old" ∷ []) sets
    ≡ ("old" ∷ "quay.io/a/b:1" ∷ [], none)
unfolding replicate_oci_artifacts split_on add_seen extract_unique_oci_refs text_lt resolve_oci_ref
    lookup cut_prefix
replicated = refl

rewritten :
    build_image_transformations plain_references config sets
    ≡ record { original = "quay.io/a/b"; mirrored = "mirror.local/quay/a/b" } ∷ []
unfolding build_image_transformations split_on extract_unique_oci_refs text_lt resolve_oci_ref
    lookup cut_prefix
rewritten = refl
