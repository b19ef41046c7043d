-- ===== src/ClientUtil/Contract.antt =====
-- What it means that CreateOrPatch (internal/clientutil/patch.go) returns no error.
use greenhouse.Prelude.{
  true, false, ◌≡◌, Option, none, some, Option-cases, Bool-cases, inl, inr, arith,
}
use greenhouse.Platform.{Errors, found, failed, Fetched-cases}
use greenhouse.ClientUtil.{
  ObjectClient, OperationResult, unchanged, created, updated, create_or_patch, patch,
  ignore_already_exists,
}

module _ {O W E : Type 0} (errors : Errors E) (client : ObjectClient O W E) where
  -- The ways in which a call can succeed, each with its requests and their answers.
  pub data Succeeded (o : O) (mutate : O → Option E × O) (w : W)
      : OperationResult → O → W → Type 0 where
    -- None was found, and the caller's object, mutated, was created.
    made :
        (e : E)
        → client.get o w ≡ failed e
        → errors.is_not_found e ≡ true
        → (mutate o).0 ≡ none
        → (client.create (mutate o).1 w).0 ≡ none
        → Succeeded o mutate w created
            (client.create (mutate o).1 w).1
            (client.create (mutate o).1 w).2
    -- None was found, but another had been created in the meantime.
    raced :
        (e x : E)
        → client.get o w ≡ failed e
        → errors.is_not_found e ≡ true
        → (mutate o).0 ≡ none
        → (client.create (mutate o).1 w).0 ≡ some x
        → errors.is_already_exists x ≡ true
        → Succeeded o mutate w unchanged
            (client.create (mutate o).1 w).1
            (client.create (mutate o).1 w).2
    -- The one that was found was not being deleted and the mutation changed it: a patch from it to
    -- its mutation was made.
    changed :
        (p : O)
        → client.get o w ≡ found p
        → client.is_deleting p ≡ false
        → (mutate p).0 ≡ none
        → client.deep_equal p (mutate p).1 ≡ false
        → (client.patch p (mutate p).1 w).0 ≡ none
        → Succeeded o mutate w updated
            (client.patch p (mutate p).1 w).1
            (client.patch p (mutate p).1 w).2
    -- The one that was found was not being deleted and is as the mutation leaves it: nothing was
    -- written.
    current :
        (p : O)
        → client.get o w ≡ found p
        → client.is_deleting p ≡ false
        → (mutate p).0 ≡ none
        → client.deep_equal p (mutate p).1 ≡ true
        → Succeeded o mutate w unchanged (mutate p).1 w

  -- What an operation shows if it has no error.
  abbrev Shown : O → (O → Option E × O) → W → (OperationResult × Option E) × O × W → Type 0
  Shown o mutate w ((result, err), o', w') = err ≡ none → Succeeded o mutate w result o' w'

  ignored-already_exists :
      (x : E)
      → ignore_already_exists errors client (some x) ≡ none
      → errors.is_already_exists x ≡ true
  unfolding ignore_already_exists
  ignored-already_exists x h = ground (arith, h)

  Shown-found :
      (o p : O) (mutate : O → Option E × O) (w : W)
      → client.get o w ≡ found p
      → client.is_deleting p ≡ false
      → Shown o mutate w (patch errors client p mutate false w)
  unfolding patch
  Shown-found o p mutate w g d = elim (Option-cases (mutate p).0) [
    | inr (x, m) ↦ rw (patch, m) (λ n. absurd (ground (arith, n)))
    | inl m ↦ elim (Bool-cases (client.deep_equal p (mutate p).1)) [
      | inl q ↦ rw (patch, m, q) (λ n. current p g d m q)
      | inr q ↦ elim (Option-cases (client.patch p (mutate p).1 w).0) [
        | inr (x, f) ↦ rw (patch, m, q, f) (λ n. absurd (ground (arith, n)))
        | inl ok ↦ rw (patch, m, q, ok) (λ n. changed p g d m q ok)
      ]
    ]
  ]

  Shown-missing :
      (o : O) (mutate : O → Option E × O) (w : W) (e : E)
      → client.get o w ≡ failed e
      → errors.is_not_found e ≡ true
      → Shown o mutate w (create_or_patch errors client o mutate w)
  unfolding create_or_patch
  Shown-missing o mutate w e g m = elim (Option-cases (mutate o).0) [
    | inr (x, f) ↦ rw (create_or_patch, g, m, f) (λ n. absurd (ground (arith, n)))
    | inl k ↦ elim (Option-cases (client.create (mutate o).1 w).0) [
      | inl ok ↦ rw (create_or_patch, g, m, k, ok) (λ n. made e g m k ok)
      | inr (x, f) ↦
          rw (create_or_patch, g, m, k, f) (λ n. raced e x g m k f (ignored-already_exists x n))
    ]
  ]

  Shown-create_or_patch :
      (o : O) (mutate : O → Option E × O) (w : W)
      → Shown o mutate w (create_or_patch errors client o mutate w)
  unfolding create_or_patch
  Shown-create_or_patch o mutate w = elim (Fetched-cases (client.get o w)) [
    | inr (e, g) ↦ elim (Bool-cases (errors.is_not_found e)) [
      | inl m ↦ Shown-missing o mutate w e g m
      | inr m ↦ rw (create_or_patch, g, m) (λ n. absurd (ground (arith, n)))
    ]
    | inl (p, g) ↦ elim (Bool-cases (client.is_deleting p)) [
      | inl d ↦ rw (create_or_patch, g, d) (λ n. absurd (ground (arith, n)))
      | inr d ↦ rw (create_or_patch, g, d) (Shown-found o p mutate w g d)
    ]
  ]

  -- If CreateOrPatch returns no error, then either no object was found and the caller's, mutated, was
  -- created, or had been created in the meantime; or one was found that is not being deleted, and
  -- a patch from it to its mutation was made, or none as the mutation does not change it. The result,
  -- the object that the caller is left with and what was written are those of that case.
  pub create_or_patch-Succeeded :
      (o : O) (mutate : O → Option E × O) (w : W)
      → (create_or_patch errors client o mutate w).0.1 ≡ none
      → Succeeded o mutate w
          (create_or_patch errors client o mutate w).0.0
          (create_or_patch errors client o mutate w).1
          (create_or_patch errors client o mutate w).2
  create_or_patch-Succeeded o mutate w h = Shown-create_or_patch o mutate w h
