-- ===== src/Propagation/Codec.antt =====
-- A format for the applied state that stands in for encoding/json in tests of
-- pkg/lifecycle/propagation.go: a sequence of pairs, a letter that says what the pair is and a letter
-- of a text.
use Prim.Native.Char.{Char, code}
use Prim.Native.String.{String}
use Prim.Native.String.compare
use text.Mathlib.Text.{is_eq}
use greenhouse.Prelude.{
  ◌≡◌, refl, Option, none, some, List, [], ◌∷◌, nat_eq, if◌then◌else◌, ◌==◌, arith, ap, false,
}
use greenhouse.Propagation.{AppliedPropagatorState, Json, JsonLaws}

encode_text : String → String → String
encode_text String.[] rest = rest
encode_text (String.◌∷◌ c s) rest = String.◌∷◌ "c" (String.◌∷◌ c (encode_text s rest))

encode_texts : List String → String → String
unfolding encode_text
encode_texts [] rest = rest
encode_texts (s ∷ ss) rest = String.◌∷◌ "," (String.◌∷◌ " " (encode_text s (encode_texts ss rest)))

encode : AppliedPropagatorState → String
unfolding encode_texts
encode state = String.◌∷◌ ";" (
    String.◌∷◌ " " (
      encode_texts state.label_keys
        (String.◌∷◌ ";" (String.◌∷◌ " " (encode_texts state.annotation_keys "")))))

-- The text, the texts and the lists of texts that have begun.
abbrev Decoded : Type 0
Decoded = String × List String × List (List String)

take_pair : Char → Char → Decoded → Decoded
take_pair m c (s, l, ll) =
    if nat_eq (code m) b'c'
    then (String.◌∷◌ c s, l, ll)
    else if nat_eq (code m) b','
    then ("", s ∷ l, ll)
    else ("", [], l ∷ ll)

decode_parts : String → Decoded
unfolding take_pair
decode_parts String.[] = ("", [], [])
decode_parts (String.◌∷◌ m String.[]) = ("", [], [])
decode_parts (String.◌∷◌ m (String.◌∷◌ c rest)) = take_pair m c (decode_parts rest)

state_of : List (List String) → Option AppliedPropagatorState
state_of (l ∷ a ∷ []) = some (record { label_keys = l; annotation_keys = a })
state_of _ = none

decode : String → Option AppliedPropagatorState
unfolding decode_parts state_of
decode s = state_of (decode_parts s).2

decode-encode_text :
    (s rest : String)
    → (decode_parts rest).0 ≡ ""
    → decode_parts (encode_text s rest) ≡ (s, (decode_parts rest).1, (decode_parts rest).2)
unfolding encode_text decode_parts
decode-encode_text String.[] rest h = ground (arith, h)
decode-encode_text (String.◌∷◌ c s) rest h = rw (decode-encode_text s rest h) refl

decode-encode_texts :
    (ss : List String) (rest : String)
    → (decode_parts rest).0 ≡ ""
    → (decode_parts rest).1 ≡ []
    → decode_parts (encode_texts ss rest) ≡ ("", ss, (decode_parts rest).2)
unfolding encode_texts decode_parts
decode-encode_texts [] rest h n = ground (arith, h, n)
decode-encode_texts (s ∷ ss) rest h n =
    rw
      (
        decode-encode_text s (encode_texts ss rest)
            (ap (λ (d : Decoded). d.0) (decode-encode_texts ss rest h n)),
        decode-encode_texts ss rest h n,
      )
      refl

decode-encode : (state : AppliedPropagatorState) → decode (encode state) ≡ some state
unfolding decode encode decode_parts
decode-encode state =
    rw
      (
        decode-encode_texts state.label_keys
            (String.◌∷◌ ";" (String.◌∷◌ " " (encode_texts state.annotation_keys ""))) refl refl,
        decode-encode_texts state.annotation_keys "" refl refl,
      )
      refl

not_empty : (c : Char) (s : String) → (String.◌∷◌ c s == "") ≡ false
not_empty c s = ap (λ o. is_eq o) (λ i. compare.cons-nil c s i)

pub pairs : Json
unfolding encode decode
pairs = record { marshal = encode; unmarshal = decode }

pub pairs-JsonLaws : JsonLaws pairs
unfolding pairs encode
pairs-JsonLaws = record { unmarshal-marshal = decode-encode; marshal-ne_empty = λ s. not_empty _ _ }
