-- ===== src/Prelude/Strings.antt =====
-- The functions of Go's package strings that the program calls, over the native texts.
use Prim.Native.Char.{Char, code}
use Prim.Native.Nat.{ℕ, zero, suc, ◌/◌, ◌%◌}
use Prim.Native.String.{String}
use mathlib.Core.Path.{◌≡◌, refl}
use mathlib.Core.Bool.{Bool, true, ◌&&◌, ◌||◌}
use mathlib.Core.Option.{Option, none, some}
use mathlib.Core.Option
use mathlib.Core.List.{List, [], ◌∷◌}
use text.Mathlib.Text.{◌==◌}
use greenhouse.Prelude.Tests.{ltb, leb, nat_eq, if◌then◌else◌, is_some}

-- unicode.IsSpace
unfoldable pub is_space : Char → Bool
is_space c =
    let n = code c in
    leb 9 n && leb n 13
    || nat_eq n 32
    || nat_eq n 0x85
    || nat_eq n 0xa0
    || nat_eq n 0x1680
    || leb 0x2000 n && leb n 0x200a
    || nat_eq n 0x2028
    || nat_eq n 0x2029
    || nat_eq n 0x202f
    || nat_eq n 0x205f
    || nat_eq n 0x3000

trim_left : String → String
unfolding is_space
trim_left String.[] = String.[]
trim_left (String.◌∷◌ c s) = if is_space c then trim_left s else String.◌∷◌ c s

trim_right : String → String
unfolding is_space
trim_right String.[] = String.[]
trim_right (String.◌∷◌ c s) =
    let rest = trim_right s in if is_space c && rest == "" then String.[] else String.◌∷◌ c rest

-- strings.TrimSpace
unfoldable pub trim_space : String → String
unfolding trim_left trim_right
trim_space s = trim_right (trim_left s)

cons_first : Char → List String → List String
cons_first c [] = []
cons_first c (s ∷ ss) = String.◌∷◌ c s ∷ ss

-- strings.SplitSeq(s, ","), collected
unfoldable pub split_comma : String → List String
unfolding cons_first
split_comma String.[] = String.[] ∷ []
split_comma (String.◌∷◌ c s) =
    let rest = split_comma s in if nat_eq (code c) b',' then String.[] ∷ rest else cons_first c rest

-- strings.CutPrefix: the rest, if the prefix is there
unfoldable pub cut_prefix : String → String → Option String
cut_prefix s String.[] = some s
cut_prefix String.[] (String.◌∷◌ d p) = none
cut_prefix (String.◌∷◌ c s) (String.◌∷◌ d p) =
    if nat_eq (code c) (code d) then cut_prefix s p else none

-- strings.HasPrefix
abbrev pub has_prefix : String → String → Bool
has_prefix s p = is_some (cut_prefix s p)

-- strings.CutSuffix: what stands before the suffix, if it is there
unfoldable pub cut_suffix : String → String → Option String
cut_suffix String.[] t = if "" == t then some "" else none
cut_suffix (String.◌∷◌ c s) t =
    if String.◌∷◌ c s == t
    then some ""
    else Option.map (λ before. String.◌∷◌ c before) (cut_suffix s t)

-- strings.Contains
unfoldable pub has_substring : String → String → Bool
has_substring String.[] p = has_prefix String.[] p
has_substring (String.◌∷◌ c s) p =
    let rest = has_substring s p in if has_prefix (String.◌∷◌ c s) p then true else rest

pick : ℕ → List Char → Char
pick n [] = "0"
pick zero (c ∷ cs) = c
pick (suc n) (c ∷ cs) = pick n cs

digit : ℕ → Char
unfolding pick
digit n = pick n ("0" ∷ "1" ∷ "2" ∷ "3" ∷ "4" ∷ "5" ∷ "6" ∷ "7" ∷ "8" ∷ "9" ∷ [])

decimal : ℕ → ℕ → String → String
unfolding digit
decimal zero n s = s
decimal (suc fuel) n s =
    let later = decimal fuel (n / 10) (String.◌∷◌ (digit (n % 10)) s) in
    if ltb n 10 then String.◌∷◌ (digit n) s else later

-- A number in decimal notation, as fmt's %d and strconv.Itoa write it.
unfoldable pub show_nat : ℕ → String
unfolding decimal
show_nat n = decimal (suc n) n ""

show_example : show_nat 1203 ≡ "1203"
unfolding show_nat
show_example = refl

trim_example : trim_space "  a b\t " ≡ "a b"
unfolding trim_space
trim_example = refl

split_example : split_comma "a,,bc" ≡ "a" ∷ "" ∷ "bc" ∷ []
unfolding split_comma
split_example = refl

suffix_example : cut_suffix "meta/*" "/*" ≡ some "meta"
unfolding cut_suffix
suffix_example = refl

prefix_example : cut_prefix "meta/x" "meta/" ≡ some "x"
unfolding cut_prefix
prefix_example = refl
