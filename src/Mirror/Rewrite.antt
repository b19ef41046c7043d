-- ===== src/Mirror/Rewrite.antt =====
-- BuildImageTransformations of internal/ocimirror/image_mirror.go.
use Prim.Native.String.{◌++◌}
use greenhouse.Prelude.{
  String, Option, none, some, List, [], ◌∷◌, ◌++◌ as append, if◌then◌else◌, contains,
}
use greenhouse.Mirror.{
  References, RegistryMirrorConfig, ResolvedOciRef, extract_unique_oci_refs, resolve_oci_ref,
}

pub record ImageTransform : Type 0 where
  pub original : String
  pub mirrored : String

-- the local variables
pub record Rewrites : Type 0 where
  pub seen : List String
  pub transforms : List ImageTransform

abbrev pub original_of : ResolvedOciRef → String
original_of r = r.registry ++ ("/" ++ r.repository)

abbrev pub mirrored_of : ResolvedOciRef → String
mirrored_of r = r.mirror.base_domain ++ ("/" ++ (r.mirror.sub_path ++ ("/" ++ r.repository)))

-- the body of the inner loop
unfoldable pub add_resolved : Option ResolvedOciRef → Rewrites → Rewrites
add_resolved none w = w
add_resolved (some r) w = if contains w.seen (original_of r) then w else record {
  seen = append w.seen (original_of r ∷ []);
  transforms =
      append w.transforms (record { original = original_of r; mirrored = mirrored_of r } ∷ []);
}

module _ (refs : References) (config : RegistryMirrorConfig) where
  unfoldable pub rewrite_refs : List String → Rewrites → Rewrites
  unfolding add_resolved
  rewrite_refs [] w = w
  rewrite_refs (ref ∷ rest) w = rewrite_refs rest (add_resolved (resolve_oci_ref refs config ref) w)

  unfoldable pub rewrite_sets : List String → Rewrites → Rewrites
  unfolding rewrite_refs
  rewrite_sets [] w = w
  rewrite_sets (manifests ∷ rest) w =
      rewrite_sets rest (rewrite_refs (extract_unique_oci_refs refs manifests) w)

  unfoldable pub build_image_transformations : List String → List ImageTransform
  unfolding rewrite_sets
  build_image_transformations manifest_sets =
      (rewrite_sets manifest_sets (record { seen = []; transforms = [] })).transforms
