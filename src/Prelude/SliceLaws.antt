-- ===== src/Prelude/SliceLaws.antt =====
-- What is seen of a slice after each operation on it.
use Prim.Native.Nat.{ℕ, zero, suc, ◌+◌, ◌-◌, ◌≤◌}
use mathlib.Core.Path.{◌≡◌, refl, ap, ◌∙◌, sym}
use mathlib.Core.Bool.{Bool}
use mathlib.Core.List.{List, [], ◌∷◌, ◌++◌}
use native.Mathlib.Omega.{arith}
use native.Mathlib.Numerals.{add-one}
use greenhouse.Prelude.Lists.{length, delete_func, length-append}
use greenhouse.Prelude.Slices.{
  take, drop, replicate, Slice, visible, slice_delete_func, slice_update, slice_append,
}

module _ {ℓ} {A : Type ℓ} where
  pub take-length : (xs ys : List A) → take (length xs) (xs ++ ys) ≡ xs
  take-length [] ys = refl
  take-length (x ∷ xs) ys = ap (λ l. x ∷ l) (take-length xs ys)

  take_eq : (n : ℕ) (xs ys : List A) → n ≡ length xs → take n (xs ++ ys) ≡ xs
  take_eq n xs ys e = rw e (take-length xs ys)

  take-suc :
      (n : ℕ) (xs : List A) (y : A) (ys : List A)
      → n ≡ length xs
      → take (suc n) (xs ++ (y ∷ ys)) ≡ xs ++ (y ∷ [])
  take-suc n [] y ys e = rw e
  take-suc n (x ∷ xs) y ys e = rw e (ap (λ l. x ∷ l) (take-suc (length xs) xs y ys refl))

  pub length-take : (n : ℕ) (xs : List A) → n ≤ length xs → length (take n xs) ≡ n
  length-take zero xs h = refl
  length-take (suc n) [] h = absurd (omega arith)
  length-take (suc n) (x ∷ xs) h = omega (arith, length-take n xs (omega arith))

  -- The slice lies in its array.
  abbrev pub IsSlice : Slice A → Type 0
  IsSlice s = s.len ≤ length s.array

  pub visible-delete_func :
      (z : A) (p : A → Bool) (s : Slice A)
      → visible (slice_delete_func z p s) ≡ delete_func (visible s) p
  unfolding slice_delete_func
  visible-delete_func z p s = take-length (delete_func (visible s) p) _

  pub visible-append :
      (x : A) (s : Slice A) → IsSlice s → visible (slice_append x s) ≡ visible s ++ (x ∷ [])
  unfolding slice_append
  visible-append x s h =
      rw (add-one s.len) (
        take-suc s.len (visible s) x (drop (suc s.len) s.array) (sym (length-take s.len s.array h)))

  pub visible-update :
      (f : List A → List A) (s : Slice A)
      → IsSlice s
      → length (f (visible s)) ≡ length (visible s)
      → visible (slice_update f s) ≡ f (visible s)
  unfolding slice_update
  visible-update f s h e =
      take_eq s.len (f (visible s)) (drop s.len s.array) (sym (e ∙ length-take s.len s.array h))

  pub delete_func-IsSlice : (z : A) (p : A → Bool) (s : Slice A) → IsSlice (slice_delete_func z p s)
  unfolding slice_delete_func
  delete_func-IsSlice z p s = omega (
    arith,
    length-append (delete_func (visible s) p)
        (replicate (s.len - length (delete_func (visible s) p)) z ++ drop s.len s.array),
  )

  pub append-IsSlice : (x : A) (s : Slice A) → IsSlice s → IsSlice (slice_append x s)
  unfolding slice_append
  append-IsSlice x s h =
      omega (
        arith,
        length-append (visible s) (x ∷ drop (s.len + 1) s.array),
        length-take s.len s.array h,
      )

  pub update-IsSlice :
      (f : List A → List A) (s : Slice A)
      → IsSlice s
      → length (f (visible s)) ≡ length (visible s)
      → IsSlice (slice_update f s)
  unfolding slice_update
  update-IsSlice f s h e =
      omega (arith, length-append (f (visible s)) (drop s.len s.array), length-take s.len s.array h)
