-- ===== src/Mirror/Replicated.antt =====
-- Which references ReplicateOCIArtifacts of internal/ocimirror/image_mirror.go reports as replicated.
use greenhouse.Prelude.{String, Bool, false, not, ◌||◌, ◌==◌, List, [], ◌∷◌, contains}
use greenhouse.Platform.{Errors, found, failed}
use greenhouse.Mirror.{References, RegistryMirrorConfig}
use greenhouse.Mirror.Replicate.{Registry, Replication, ensure_image_replicated}

-- whether a reference was replicated without an error
abbrev pub succeeds : {M E : Type 0} → Replication M E → Bool
succeeds (ref, failed e) = false
succeeds (ref, found m) = not (ref == "")

module _ (refs : References) where
  -- whether some set of manifests has an image of the name
  abbrev pub is_listed : List String → String → Bool
  is_listed [] s = false
  is_listed (manifests ∷ rest) s = contains (refs.submatches manifests) s || is_listed rest s

module _ {M E : Type 0} (refs : References) (config : RegistryMirrorConfig) (errors : Errors E)
    (registry : Registry M E) (already : List String) where
  -- whether a reference was replicated before or is so now
  abbrev pub is_replicated : String → Bool
  is_replicated ref =
      contains already ref || succeeds (ensure_image_replicated refs config errors registry ref)
