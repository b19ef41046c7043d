-- ===== src/Prelude/Slices.antt =====
-- A Go slice over its backing array, for loops that range over a slice while it is changed: `range`
-- reads the length once and the elements from the array, also after the slice has been shortened.
use Prim.Native.Nat.{ℕ, zero, suc, ◌+◌, ◌-◌}
use mathlib.Core.Bool.{Bool}
use mathlib.Core.Option.{Option, none, some}
use mathlib.Core.List.{List, [], ◌∷◌, ◌++◌}
use greenhouse.Prelude.Lists.{length, delete_func}

module _ {ℓ} {A : Type ℓ} where
  abbrev pub take : ℕ → List A → List A
  take zero xs = []
  take (suc n) [] = []
  take (suc n) (x ∷ xs) = x ∷ take n xs

  abbrev pub drop : ℕ → List A → List A
  drop zero xs = xs
  drop (suc n) [] = []
  drop (suc n) (x ∷ xs) = drop n xs

  abbrev pub replicate : ℕ → A → List A
  replicate zero a = []
  replicate (suc n) a = a ∷ replicate n a

  abbrev pub get_elem? : List A → ℕ → Option A
  get_elem? [] i = none
  get_elem? (x ∷ xs) zero = some x
  get_elem? (x ∷ xs) (suc i) = get_elem? xs i

pub record Slice {ℓ} (A : Type ℓ) : Type ℓ where
  pub array : List A
  pub len : ℕ

module _ {ℓ} {A : Type ℓ} where
  -- A slice that fills its array.
  abbrev pub of_list : List A → Slice A
  of_list xs = record { array = xs; len = length xs }

  abbrev pub visible : Slice A → List A
  visible s = take s.len s.array

  -- slices.DeleteFunc: what is kept moves to the front, and the rest of the slice is zeroed.
  unfoldable pub slice_delete_func : A → (A → Bool) → Slice A → Slice A
  slice_delete_func zero_value p s =
      let kept = delete_func (visible s) p in
      record {
        array = kept ++ (replicate (s.len - length kept) zero_value ++ drop s.len s.array);
        len = length kept;
      }

  -- A change of the elements that are in the slice, in place.
  unfoldable pub slice_update : (List A → List A) → Slice A → Slice A
  slice_update f s = record { array = f (visible s) ++ drop s.len s.array; len = s.len }

  -- append, into the array where it has room
  unfoldable pub slice_append : A → Slice A → Slice A
  slice_append x s = record { array = visible s ++ (x ∷ drop (s.len + 1) s.array); len = s.len + 1 }
