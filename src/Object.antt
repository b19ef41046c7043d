-- ===== src/Object.antt =====
-- lifecycle.RuntimeObject (pkg/lifecycle/reconcile.go) and the metadata of Kubernetes objects, as far
-- as the program reads or writes them. A nil map or slice is the empty one.
use greenhouse.Prelude.{ℕ, String, Option, List, Map}
use greenhouse.Conditions.{Condition}

pub record ObjectMeta : Type 0 where
  pub name : String
  pub namespace : String
  pub labels : Map String
  pub annotations : Map String
  pub finalizers : List String
  pub deletion_timestamp : Option ℕ

-- `S` is the spec; the status is its conditions and the rest of it, `T`.
pub record RuntimeObject (S T : Type 0) : Type 0 where
  pub metadata : ObjectMeta
  pub open metadata use *
  pub spec : S
  pub conditions : List Condition
  pub status : T
