-- ===== src/Tracking/Ids.antt =====
-- Tracking ids, Kind/Name (internal/controller/plugin/plugin_values_resolver.go).
use Prim.Native.String.{String as Text, ◌++◌}
use greenhouse.Prelude.{
  String, ◌≡◌, refl, ap, ◌∙◌, sym, subst, false, List, [], ◌∷◌, arith, split_on, has_char,
  split_on-append, split_on-free, join-split, join_with, AreFree, split_on-AreFree, ◌↔◌, nil-append,
  cons-append,
}
use greenhouse.Platform.{Errors, found, failed}
use greenhouse.Tracking.{tracking_id, parse_tracking_id, two_parts}

slash : (name : String) → "/" ++ name ≡ Text.◌∷◌ "/" name
slash name = cons-append "/" "" name ∙ ap (λ t. Text.◌∷◌ "/" t) (nil-append name)

split-id :
    (kind name : String)
    → has_char "/" kind ≡ false
    → has_char "/" name ≡ false
    → split_on "/" (tracking_id kind name) ≡ kind ∷ name ∷ []
unfolding tracking_id
split-id kind name k n =
    rw (slash name)
      (split_on-append "/" kind name k ∙ ap (λ l. kind ∷ l) (split_on-free "/" name n))

two_parts-found :
    {E : Type 0} (e : E) (l : List String) (kind name : String)
    → two_parts (failed e) l ≡ found (kind, name)
    → l ≡ kind ∷ name ∷ []
two_parts-found e [] kind name h = ground (arith, h)
two_parts-found e (a ∷ []) kind name h = ground (arith, h)
two_parts-found e (a ∷ b ∷ []) kind name h = ground (arith, h)
two_parts-found e (a ∷ b ∷ c ∷ l) kind name h = ground (arith, h)

join-id : (kind name : String) → join_with "/" (kind ∷ name ∷ []) ≡ tracking_id kind name
unfolding tracking_id join_with
join-id kind name = rw (slash name) refl

-- An id is parsed into a kind and a name exactly if it is the tracking id made of them and neither
-- has a slash.
pub parse-tracking_id :
    {E : Type 0} (errors : Errors E) (id kind name : String)
    → (parse_tracking_id errors id ≡ found (kind, name))
      ↔ ((id ≡ tracking_id kind name) × (has_char "/" kind ≡ false) × (has_char "/" name ≡ false))
unfolding parse_tracking_id
parse-tracking_id errors id kind name = (
  λ h.
      (let parts = two_parts-found _ (split_on "/" id) kind name h in
        let free : AreFree "/" (kind ∷ name ∷ []) =
          subst (AreFree "/") parts (split_on-AreFree "/" id) in
        (
          sym (join-split "/" id) ∙ (ap (join_with "/") parts ∙ join-id kind name),
          free.0,
          free.1.0,
        )),
  λ h.
      ap (λ l. two_parts (failed (errors.new ("invalid tracking ID format: " ++ id))) l)
        (ap (split_on "/") h.0 ∙ split-id kind name h.1 h.2),
)
