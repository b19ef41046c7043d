-- ===== src/ClientUtil.antt =====
-- internal/clientutil: CreateOrPatch and Patch (patch.go), Delete (delete.go) and IgnoreAlreadyExists
-- (error.go). The client is an interface for objects of one type `O`; the caller's object is also
-- the key, and comes back as the call leaves it.
pub mod Contract
mod Examples
use Prim.Native.String.{◌++◌}
use greenhouse.Prelude.{Bool, false, String, Option, none, some, if◌then◌else◌}
use greenhouse.Platform.{Errors, Fetched, found, failed}

pub record ObjectClient (O W E : Type 0) : Type 0 where
  pub get : O → W → Fetched O E  -- by the key of the object
  -- Create, Patch and its form for the status: a merge patch from the first object. The response is
  -- written into the object, which comes back.
  pub create : O → W → Option E × O × W
  pub patch : O → O → W → Option E × O × W
  pub patch_status : O → O → W → Option E × O × W
  pub delete : O → W → Option E × W
  pub is_deleting : O → Bool  -- has a deletion timestamp
  pub deep_equal : O → O → Bool  -- equality.Semantic.DeepEqual
  pub full_name : O → String  -- namespace/name

pub data OperationResult : Type 0 where
  unchanged created updated : OperationResult

pub data DeletionResult : Type 0 where
  deleted not_found not_changed : DeletionResult

module _ {O W E : Type 0} (errors : Errors E) (client : ObjectClient O W E) where
  abbrev pub Operation : Type 0
  Operation = (OperationResult × Option E) × O × W

  unfoldable pub ignore_already_exists : Option E → Option E
  ignore_already_exists none = none
  ignore_already_exists (some e) = if errors.is_already_exists e then none else some e

  patch_mutated : Bool → O → Option E × O → W → Operation
  patch_mutated status before (some e, after) w =
      ((unchanged, some (errors.wrap "mutating object failed" e)), after, w)
  patch_mutated status before (none, after) w =
      if client.deep_equal before after
      then ((unchanged, none), after, w)
      else (let (err, answered, w') =
            if status then client.patch_status before after w else client.patch before after w in
          (elim err [ none ↦ (updated, none) | some e ↦ (unchanged, some e) ], answered, w'))

  -- patch; `mutate` returns the error and the object that it leaves
  unfoldable pub patch : O → (O → Option E × O) → Bool → W → Operation
  unfolding patch_mutated
  patch obj mutate status w = patch_mutated status obj (mutate obj) w

  create_mutated : Option E × O → W → Operation
  unfolding ignore_already_exists
  create_mutated (some e, obj) w =
      ((unchanged, some (errors.wrap "mutating object failed" e)), obj, w)
  create_mutated (none, obj) w =
      let (err, answered, w') = client.create obj w in
      (
        elim err [ none ↦ (created, none) | some e ↦ (unchanged, ignore_already_exists (some e)) ],
        answered,
        w',
      )

  unfoldable pub create_or_patch : O → (O → Option E × O) → W → Operation
  unfolding patch create_mutated
  create_or_patch obj mutate w = elim (client.get obj w) [
    | failed e ↦
        if errors.is_not_found e
        then create_mutated (mutate obj) w
        else ((unchanged, some e), obj, w)
    | found o ↦
        if client.is_deleting o
        then (
          (
            unchanged,
            some (
                errors.new (
                  "the resource "
                  ++ client.full_name o
                  ++ " already exists but is marked for deletion")),
          ),
          o,
          w,
        )
        else patch o mutate false w
  ]

  unfoldable pub delete : O → W → (DeletionResult × Option E) × W
  delete obj w = elim (client.get obj w) [
    | failed e ↦ (if errors.is_not_found e then (not_found, none) else (not_changed, some e), w)
    | found o ↦
        (let (err, w') = client.delete o w in
          (elim err [ none ↦ (deleted, none) | some e ↦ (not_changed, some e) ], w'))
  ]
