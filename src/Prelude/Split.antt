-- ===== src/Prelude/Split.antt =====
-- strings.Split and strings.Join with a separator of one character, and what they make of each other.
use Prim.Native.Char.{Char, code}
use Prim.Native.String.{String, ◌++◌}
use Prim.Native.String.append
use text.Mathlib.TextEquality.{Char-path}
use mathlib.Core.Path.{◌≡◌, refl, ap, ◌∙◌}
use mathlib.Core.Logic.{inl, inr}
use mathlib.Core.Bool.{Bool, true, false, ◌||◌}
use mathlib.Core.List.{List, [], ◌∷◌}
use native.Mathlib.Omega.{arith}
use greenhouse.Prelude.Tests.{nat_eq, if◌then◌else◌, List-cases, Bool-cases}
use greenhouse.Prelude.Lists.{All}

cons_first : Char → List String → List String
cons_first c [] = []
cons_first c (s ∷ ss) = String.◌∷◌ c s ∷ ss

-- strings.Split(s, sep)
unfoldable pub split_on : Char → String → List String
unfolding cons_first
split_on sep String.[] = String.[] ∷ []
split_on sep (String.◌∷◌ c s) =
    let rest = split_on sep s in
    if nat_eq (code c) (code sep) then String.[] ∷ rest else cons_first c rest

unfoldable join_after : Char → String → List String → String
join_after sep s [] = s
join_after sep s (t ∷ ts) = s ++ String.◌∷◌ sep (join_after sep t ts)

-- strings.Join(l, sep)
unfoldable pub join_with : Char → List String → String
unfolding join_after
join_with sep [] = ""
join_with sep (s ∷ ss) = join_after sep s ss

abbrev pub is_cons : List String → Bool
is_cons [] = false
is_cons (s ∷ ss) = true

abbrev pub has_char : Char → String → Bool
has_char c String.[] = false
has_char c (String.◌∷◌ d s) = nat_eq (code d) (code c) || has_char c s

-- No text of the list has the character.
abbrev pub AreFree : Char → List String → Type 0
AreFree c l = All (λ s. has_char c s ≡ false) l

pub nil-append : (t : String) → "" ++ t ≡ t
nil-append t = λ i. append.nil t i

pub cons-append : (c : Char) (s t : String) → String.◌∷◌ c s ++ t ≡ String.◌∷◌ c (s ++ t)
cons-append c s t = λ i. append.cons c s t i

-- A separator ends a part that does not have it.
pub split_on-append :
    (sep : Char) (s t : String)
    → has_char sep s ≡ false
    → split_on sep (s ++ String.◌∷◌ sep t) ≡ s ∷ split_on sep t
unfolding split_on cons_first
split_on-append sep String.[] t h = rw (nil-append (String.◌∷◌ sep t)) (ground arith)
split_on-append sep (String.◌∷◌ c s) t h =
    rw (cons-append c s (String.◌∷◌ sep t)) (ground (arith, split_on-append sep s t))

pub split_on-free : (sep : Char) (s : String) → has_char sep s ≡ false → split_on sep s ≡ s ∷ []
unfolding split_on cons_first
split_on-free sep String.[] h = refl
split_on-free sep (String.◌∷◌ c s) h = ground (arith, split_on-free sep s)

split-join_after :
    (sep : Char) (s : String) (ss : List String)
    → AreFree sep (s ∷ ss)
    → split_on sep (join_after sep s ss) ≡ s ∷ ss
unfolding join_after
split-join_after sep s [] h = split_on-free sep s h.0
split-join_after sep s (t ∷ ts) h =
    split_on-append sep s (join_after sep t ts) h.0
    ∙ ap (λ l. s ∷ l) (split-join_after sep t ts h.1)

-- Parts without the separator come back from their join.
pub split-join :
    (sep : Char) (s : String) (ss : List String)
    → AreFree sep (s ∷ ss)
    → split_on sep (join_with sep (s ∷ ss)) ≡ s ∷ ss
unfolding join_with
split-join sep s ss h = split-join_after sep s ss h

pub split-join_list :
    (sep : Char) (l : List String)
    → is_cons l ≡ true
    → AreFree sep l
    → split_on sep (join_with sep l) ≡ l
split-join_list sep [] n h = ground (arith, n)
split-join_list sep (s ∷ ss) n h = split-join sep s ss h

-- Parts do not have the separator.
AreFree-cons_first :
    (sep c : Char) (l : List String)
    → nat_eq (code c) (code sep) ≡ false
    → AreFree sep l
    → AreFree sep (cons_first c l)
unfolding cons_first
AreFree-cons_first sep c [] e h = tt
AreFree-cons_first sep c (s ∷ ss) e h = (ground (arith, h.0), h.1)

pub split_on-AreFree : (sep : Char) (s : String) → AreFree sep (split_on sep s)
unfolding split_on
split_on-AreFree sep String.[] = (refl, tt)
split_on-AreFree sep (String.◌∷◌ c s) = elim (Bool-cases (nat_eq (code c) (code sep))) [
  | inl e ↦ rw e (refl, split_on-AreFree sep s)
  | inr e ↦ rw e (AreFree-cons_first sep c (split_on sep s) e (split_on-AreFree sep s))
]

join-cons_first :
    (sep c : Char) (s : String) (ss : List String)
    → join_with sep (cons_first c (s ∷ ss)) ≡ String.◌∷◌ c (join_with sep (s ∷ ss))
unfolding join_with join_after cons_first
join-cons_first sep c s [] = refl
join-cons_first sep c s (t ∷ ts) = cons-append c s (String.◌∷◌ sep (join_after sep t ts))

pub split_on-ne_nil : (sep : Char) (s : String) → is_cons (split_on sep s) ≡ true
unfolding split_on cons_first
split_on-ne_nil sep String.[] = refl
split_on-ne_nil sep (String.◌∷◌ c s) = elim (List-cases (split_on sep s)) [
  | inl e ↦ ground (arith, split_on-ne_nil sep s, e)
  | inr (x, xs, e) ↦ ground (arith, e)
]

join-nil_first :
    (sep : Char) (s : String) (ss : List String)
    → join_with sep ("" ∷ s ∷ ss) ≡ String.◌∷◌ sep (join_with sep (s ∷ ss))
unfolding join_with join_after
join-nil_first sep s ss = nil-append (String.◌∷◌ sep (join_after sep s ss))

join-split_step :
    (sep c : Char) (s : String) (l : List String)
    → split_on sep s ≡ l
    → is_cons l ≡ true
    → join_with sep l ≡ s
    → join_with sep (split_on sep (String.◌∷◌ c s)) ≡ String.◌∷◌ c s
unfolding split_on
join-split_step sep c s [] e n h = ground (arith, n)
join-split_step sep c s (x ∷ xs) e n h = elim (Bool-cases (nat_eq (code c) (code sep))) [
  | inl same ↦
      rw (same, e)
        (join-nil_first sep x xs
          ∙ (ap (λ t. String.◌∷◌ sep t) h
              ∙ ap (λ d. String.◌∷◌ d s) (Char-path sep c (ground (arith, same)))))
  | inr other ↦ rw (other, e) (join-cons_first sep c x xs ∙ ap (λ t. String.◌∷◌ c t) h)
]

-- A text comes back from its parts.
pub join-split : (sep : Char) (s : String) → join_with sep (split_on sep s) ≡ s
unfolding split_on join_with join_after
join-split sep String.[] = refl
join-split sep (String.◌∷◌ c s) =
    join-split_step sep c s (split_on sep s) refl (split_on-ne_nil sep s) (join-split sep s)
