-- ===== src/Lifecycle.antt =====
-- pkg/lifecycle/reconcile.go: the generic reconciliation of one resource.
-- A pointer receiver that is mutated comes back as a value; `W` is the state of everything outside.
-- The deep copy that the context carries (context.go) is the object as it was read. `now` is the
-- time of the call. Reconcile itself is in Lifecycle/Reconcile.
pub mod Reconcile
pub mod Store
pub mod Phases
pub mod Deletion
pub mod Progress
mod Examples
use Prim.Native.String.{◌++◌}
use greenhouse.Prelude.{
  ℕ, String, Bool, true, false, not, ◌&&◌, ◌==◌, Option, none, some, List, [], ◌∷◌, if◌then◌else◌,
  is_some, lookup, delete_func,
}
use greenhouse.Platform.{Errors, Fetched, Result}
use greenhouse.Object.{ObjectMeta, RuntimeObject}
use greenhouse.Conditions.{
  Condition, is_true, true_condition, false_condition, unknown_condition, ready_condition,
  delete_condition, suspended_condition, set_conditions, get_condition_by_type,
}

pub data ReconcileResult : Type 0 where
  success failure pending : ReconcileResult

abbrev pub deleted_reason : String
deleted_reason = "Deleted"

abbrev pub common_cleanup_finalizer : String
common_cleanup_finalizer = "greenhouse.sap/cleanup"

abbrev pub suspend_annotation : String
suspend_annotation = "greenhouse.sap/suspend"

abbrev pub reconcile_annotation : String
reconcile_annotation = "greenhouse.sap/reconcile"

abbrev is_deleted : Option Condition → Bool
is_deleted none = false
is_deleted (some c) = is_true c && c.reason == deleted_reason

module _ {S T : Type 0} where
  -- SetCondition and RemoveCondition, which every resource type implements alike
  abbrev pub set_condition : ℕ → Condition → RuntimeObject S T → RuntimeObject S T
  set_condition now c o = record o { conditions = set_conditions now o.conditions (c ∷ []) }

  abbrev pub remove_condition : String → RuntimeObject S T → RuntimeObject S T
  remove_condition type o = record o { conditions = delete_func o.conditions (λ c. c.type == type) }

  unfoldable pub is_resource_deleted : RuntimeObject S T → Bool
  is_resource_deleted o = is_deleted (get_condition_by_type o.conditions delete_condition)

  unfoldable pub is_resource_suspended : RuntimeObject S T → Bool
  is_resource_suspended o = is_some (lookup suspend_annotation o.annotations)

  unfoldable pub reconcile_annotation_value : RuntimeObject S T → String × Bool
  reconcile_annotation_value o = elim (lookup reconcile_annotation o.annotations) [
    | none ↦ ("", false)
    | some v ↦ (v, true)
  ]

-- The methods of a controller (Reconciler), each with the object and the world that it leaves.
pub record Reconciler (S T W E : Type 0) : Type 0 where
  pub ensure_created :
      RuntimeObject S T → W → (Result × ReconcileResult × Option E) × RuntimeObject S T × W
  pub ensure_deleted :
      RuntimeObject S T → W → (Result × ReconcileResult × Option E) × RuntimeObject S T × W
  pub ensure_suspended : RuntimeObject S T → W → (Result × Option E) × RuntimeObject S T × W

-- The requests that Reconcile makes of the API server, for the object with the given name. Update
-- writes metadata and spec; a patch of the status is computed from an old and a new object.
pub record KubeClient (S T W E : Type 0) : Type 0 where
  pub get : W → Fetched (RuntimeObject S T) E
  pub update : RuntimeObject S T → W → Option E × W
  pub patch_status : RuntimeObject S T → RuntimeObject S T → W → Option E × W

-- What the type of the resource implements: CanBeSuspended, and LastReconciledAtSetter if it does.
pub record Kind (T : Type 0) : Type 0 where
  pub can_be_suspended : Bool
  pub update_last_reconciled_at_status : Option (String → T → T)

pub record Outcome (W E : Type 0) : Type 0 where
  pub result : Result
  pub error : Option E
  pub world : W

module _ {E : Type 0} (errors : Errors E) (now : ℕ) where
  abbrev pub error_text : Option E → String
  error_text none = ""
  error_text (some e) = errors.text e

  -- The condition of a resource that was to be suspended.
  abbrev pub suspension : Option E → Condition
  suspension none =
      true_condition now suspended_condition "ResourceSuspended" "resource is suspended"
  suspension (some e) =
      false_condition now suspended_condition "ResourceSuspensionFailed"
        ("failed to suspend resource: " ++ errors.text e)

module _ {S T E : Type 0} (errors : Errors E) (now : ℕ) where
  unfoldable pub setup_delete_state :
      RuntimeObject S T → ReconcileResult → Option E → RuntimeObject S T
  setup_delete_state o success err =
      set_condition now
        (true_condition now delete_condition deleted_reason "resource is successfully deleted") o
  setup_delete_state o failure err =
      set_condition now
        (false_condition now delete_condition "FailingDeletion"
          ("resource deletion failed: " ++ error_text errors now err))
        o
  setup_delete_state o pending err =
      set_condition now
        (false_condition now delete_condition "PendingDeletion" "resource deletion is pending") o

  unfoldable pub setup_create_state :
      RuntimeObject S T → ReconcileResult → Option E → RuntimeObject S T
  setup_create_state o success err =
      set_condition now
        (true_condition now ready_condition "Created" "resource is successfully created") o
  setup_create_state o failure err =
      set_condition now
        (false_condition now ready_condition "FailingCreation"
          ("resource creation failed" ++ error_text errors now err))
        o
  setup_create_state o pending err =
      set_condition now
        (unknown_condition now ready_condition "PendingCreation" "resource creation is pending") o
