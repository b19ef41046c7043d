-- ===== src/Prelude/Maps.antt =====
-- Go's map[string]V as an association list; the order of its entries is one order of iteration.
use Prim.Native.String.{String}
use mathlib.Core.Path.{◌≡◌, refl}
use mathlib.Core.Option.{Option, none, some}
use mathlib.Core.List.{List, [], ◌∷◌}
use native.Mathlib.Omega.{arith}
use text.Mathlib.Text.{◌==◌}
use text.Mathlib.TextEquality.{eq_iff}
use greenhouse.Prelude.Tests.{if◌then◌else◌}

abbrev pub Map {ℓ} : Type ℓ → Type ℓ
Map V = List (String × V)

module _ {ℓ} {V : Type ℓ} where
  -- delete(m, key)
  unfoldable pub remove : String → Map V → Map V
  remove key [] = []
  remove key ((i, v) ∷ rest) =
      let left = remove key rest in if i == key then left else (i, v) ∷ left

  -- m[key], with whether the key is there
  unfoldable pub lookup : String → Map V → Option V
  lookup key [] = none
  lookup key ((i, v) ∷ rest) = if i == key then some v else lookup key rest

  -- A Go map has one entry for each key.
  abbrev pub IsMap : Map V → Type ℓ
  IsMap [] = Unit
  IsMap ((i, v) ∷ rest) = (lookup i rest ≡ none) × IsMap rest

  pub lookup-remove :
      (key i : String) (entries : Map V)
      → lookup i (remove key entries) ≡ (if key == i then none else lookup i entries)
  unfolding lookup remove
  lookup-remove key i [] = ground arith
  lookup-remove key i ((h, v) ∷ rest) =
      ground (arith, eq_iff h key, eq_iff h i, eq_iff key i, lookup-remove key i rest)

  -- m[key] = new
  unfoldable pub insert : String → V → Map V → Map V
  insert key new [] = (key, new) ∷ []
  insert key new ((i, old) ∷ rest) =
      if i == key then (key, new) ∷ rest else (i, old) ∷ insert key new rest

  pub lookup-insert :
      (key i : String) (new : V) (entries : Map V)
      → lookup i (insert key new entries) ≡ (if key == i then some new else lookup i entries)
  unfolding insert lookup
  lookup-insert key i new [] = refl
  lookup-insert key i new ((h, old) ∷ rest) =
      ground (arith, eq_iff h key, eq_iff h i, eq_iff key i, lookup-insert key i new rest)

pub ruleset map_laws = (lookup-insert, lookup-remove)
