-- ===== src/Tracking/Trackers.antt =====
-- The trackers of a resource as a list without the text that holds them: adding and removing one
-- (internal/controller/plugin/plugin_values_resolver.go).
use mathlib.Core.List.{◌++◌ as append}
use greenhouse.Prelude.{
  ◌≤◌, nat_eq, ltb, not, ◌&&◌, length, String, true, false, ◌≡◌, refl, sym, ap, ◌∙◌, subst, ◌==◌,
  eq_iff, eq_refl, Option, none, some, List, [], ◌∷◌, arith, if◌then◌else◌, lookup, remove,
  lookup-insert, lookup-remove, contains, contains-append, split_on, join_with, has_char, AreFree,
  is_cons, split-join_list, split_on-free, split_on-AreFree, Option-cases, Bool-cases, inl, inr,
}
use greenhouse.Object.{ObjectMeta}
use greenhouse.Tracking.{
  annotate, annotation_key_plugin_tracking_id, add_tracking_annotation,
  get_tracker_ids_from_annotations,
}
use greenhouse.Tracking.Remove.{without, keep_trackers, remove_tracker}

-- Reading what was written.
get-annotate :
    (value : String) (o : ObjectMeta)
    → (value == "") ≡ false
    → get_tracker_ids_from_annotations (annotate value o) ≡ split_on ";" value
unfolding get_tracker_ids_from_annotations
get-annotate value o h =
    rw
      (
        get_tracker_ids_from_annotations,
        lookup-insert annotation_key_plugin_tracking_id annotation_key_plugin_tracking_id value
            o.annotations,
        h,
      )
      refl

-- A list of parts that has a part which is not empty has no empty join.
join-ne_empty :
    (l : List String) (t : String)
    → is_cons l ≡ true
    → AreFree ";" l
    → contains l t ≡ true
    → (t == "") ≡ false
    → (join_with ";" l == "") ≡ false
unfolding split_on
join-ne_empty l t n f c h = elim (Bool-cases (join_with ";" l == "")) [
  | inr e ↦ e
  | inl e ↦
      (let parts : "" ∷ [] ≡ l =
          sym (ap (split_on ";") ((eq_iff (join_with ";" l) "").0 e)) ∙ split-join_list ";" l n f in
        let held : contains ("" ∷ []) t ≡ true = subst (λ m. contains m t ≡ true) (sym parts) c in
        absurd (ground (arith, held, h, eq_iff "" t, eq_iff t "")))
]

AreFree-append : (l m : List String) → AreFree ";" l → AreFree ";" m → AreFree ";" (append l m)
AreFree-append [] m hl hm = hm
AreFree-append (s ∷ l) m hl hm = (hl.0, AreFree-append l m hl.1 hm)

AreFree-without : (t : String) (l : List String) → AreFree ";" l → AreFree ";" (without t l)
AreFree-without t [] h = tt
AreFree-without t (s ∷ l) h = elim (Bool-cases (s == t)) [
  | inl e ↦ rw e (AreFree-without t l h.1)
  | inr e ↦ rw e (h.0, AreFree-without t l h.1)
]

length-without : (t : String) (l : List String) → length (without t l) ≤ length l
length-without t [] = omega arith
length-without t (s ∷ l) = elim (Bool-cases (s == t)) [
  | inl e ↦ rw e (omega (arith, length-without t l))
  | inr e ↦ rw e (omega (arith, length-without t l))
]

-- Nothing is taken out of a list that does not become shorter.
without-all :
    (t : String) (l : List String) → ltb (length (without t l)) (length l) ≡ false → without t l ≡ l
without-all t [] h = refl
without-all t (s ∷ l) h = elim (Bool-cases (s == t)) [
  | inl e ↦ absurd (ground (arith, h, e, length-without t l))
  | inr e ↦ rw e (ap (λ m. s ∷ m) (without-all t l (ground (arith, h, e))))
]

contains-without :
    (t : String) (l : List String) (s : String)
    → contains l s ≡ false
    → contains (without t l) s ≡ false
contains-without t [] s h = h
contains-without t (x ∷ l) s h = ground (arith, contains-without t l s)

is_cons-append : (l : List String) (t : String) → is_cons (append l (t ∷ [])) ≡ true
is_cons-append [] t = refl
is_cons-append (s ∷ l) t = refl

get-none :
    (o : ObjectMeta)
    → lookup annotation_key_plugin_tracking_id o.annotations ≡ none
    → get_tracker_ids_from_annotations o ≡ []
unfolding get_tracker_ids_from_annotations
get-none o e = rw (get_tracker_ids_from_annotations, e) refl

get-empty :
    (o : ObjectMeta) (v : String)
    → lookup annotation_key_plugin_tracking_id o.annotations ≡ some v
    → (v == "") ≡ true
    → get_tracker_ids_from_annotations o ≡ []
unfolding get_tracker_ids_from_annotations
get-empty o v e h = rw (get_tracker_ids_from_annotations, e, h) refl

get-some :
    (o : ObjectMeta) (v : String)
    → lookup annotation_key_plugin_tracking_id o.annotations ≡ some v
    → (v == "") ≡ false
    → get_tracker_ids_from_annotations o ≡ split_on ";" v
unfolding get_tracker_ids_from_annotations
get-some o v e h = rw (get_tracker_ids_from_annotations, e, h) refl

-- A list as a set: a new element is appended.
abbrev pub with_new : String → List String → List String
with_new t l = if contains l t then l else append l (t ∷ [])

get-annotate_one :
    (o : ObjectMeta) (t : String)
    → (t == "") ≡ false
    → has_char ";" t ≡ false
    → get_tracker_ids_from_annotations (annotate t o) ≡ t ∷ []
get-annotate_one o t n f = get-annotate t o n ∙ split_on-free ";" t f

get-annotate_join :
    (o : ObjectMeta) (l : List String) (t : String)
    → is_cons l ≡ true
    → AreFree ";" l
    → contains l t ≡ true
    → (t == "") ≡ false
    → get_tracker_ids_from_annotations (annotate (join_with ";" l) o) ≡ l
get-annotate_join o l t c f h n =
    get-annotate (join_with ";" l) o (join-ne_empty l t c f h n) ∙ split-join_list ";" l c f

contains-last : (l : List String) (t : String) → contains (append l (t ∷ [])) t ≡ true
contains-last l t = ground (arith, contains-append l (t ∷ []) t, eq_refl t)

add-val :
    (o : ObjectMeta) (t val : String)
    → (t == "") ≡ false
    → has_char ";" t ≡ false
    → lookup annotation_key_plugin_tracking_id o.annotations ≡ some val
    → (val == "") ≡ false
    → get_tracker_ids_from_annotations (add_tracking_annotation o t) ≡ with_new t (split_on ";" val)
unfolding add_tracking_annotation
add-val o t val n f e v = elim (Bool-cases (contains (split_on ";" val) t)) [
  | inl c ↦ rw (add_tracking_annotation, e, v, c) (get-some o val e v)
  | inr c ↦
      rw (add_tracking_annotation, e, v, c)
        (get-annotate_join o (append (split_on ";" val) (t ∷ [])) t
          (is_cons-append (split_on ";" val) t)
          (AreFree-append (split_on ";" val) (t ∷ []) (split_on-AreFree ";" val) (f, tt))
          (contains-last (split_on ";" val) t) n)
]

-- A tracker that is not empty and has no semicolon is appended to those of a resource, unless it is
-- there.
pub trackers-add :
    (o : ObjectMeta) (t : String)
    → (t == "") ≡ false
    → has_char ";" t ≡ false
    → get_tracker_ids_from_annotations (add_tracking_annotation o t)
      ≡ with_new t (get_tracker_ids_from_annotations o)
unfolding add_tracking_annotation
trackers-add o t n f =
    elim (Option-cases (lookup annotation_key_plugin_tracking_id o.annotations)) [
      | inl e ↦
          rw (add_tracking_annotation, e) (get-annotate_one o t n f)
          ∙ ap (with_new t) (sym (get-none o e))
      | inr (val, e) ↦ elim (Bool-cases (val == "")) [
        | inl v ↦
            rw (add_tracking_annotation, e, v) (get-annotate_one o t n f)
            ∙ ap (with_new t) (sym (get-empty o val e v))
        | inr v ↦ add-val o t val n f e v ∙ ap (with_new t) (sym (get-some o val e v))
      ]
    ]

-- The metadata after a removal that may have nothing to do.
abbrev pub after : ObjectMeta → Option ObjectMeta → ObjectMeta
after o none = o
after o (some updated) = updated

get-removed :
    (o : ObjectMeta)
    → get_tracker_ids_from_annotations
        (record o { annotations = remove annotation_key_plugin_tracking_id o.annotations })
      ≡ []
get-removed o = get-none _ (
    lookup-remove annotation_key_plugin_tracking_id annotation_key_plugin_tracking_id o.annotations
    ∙ refl)

empty_of_length : (l : List String) → nat_eq (length l) 0 ≡ true → l ≡ []
empty_of_length [] h = refl
empty_of_length (s ∷ l) h = absurd (ground (arith, h))

cons_of_length : (l : List String) → nat_eq (length l) 0 ≡ false → is_cons l ≡ true
cons_of_length [] h = ground (arith, h)
cons_of_length (s ∷ l) h = refl

full_part :
    (l : List String)
    → is_cons l ≡ true
    → contains l "" ≡ false
    → (t : String) × (contains l t ≡ true) × ((t == "") ≡ false)
full_part [] c h = absurd (ground (arith, c))
full_part (t ∷ l) c h = (t, ground (arith, eq_refl t), ground (arith, h))

remove-val :
    (o : ObjectMeta) (t val : String)
    → lookup annotation_key_plugin_tracking_id o.annotations ≡ some val
    → (val == "") ≡ false
    → contains (split_on ";" val) "" ≡ false
    → get_tracker_ids_from_annotations
        (after o (keep_trackers o (split_on ";" val) (without t (split_on ";" val))))
      ≡ without t (split_on ";" val)
unfolding keep_trackers
remove-val o t val e v w =
    let l = split_on ";" val in
    elim (Bool-cases (nat_eq (length (without t l)) 0)) [
      | inl z ↦ rw (keep_trackers, z) (get-removed o ∙ sym (empty_of_length (without t l) z))
      | inr z ↦ elim (Bool-cases (ltb (length (without t l)) (length l))) [
        | inr s ↦ rw (keep_trackers, z, s) (get-some o val e v ∙ sym (without-all t l s))
        | inl s ↦
            (let some_left = cons_of_length (without t l) z in
              let (x, held, full) = full_part (without t l) some_left (contains-without t l "" w) in
              rw (keep_trackers, z, s)
                (get-annotate_join o (without t l) x some_left
                  (AreFree-without t l (split_on-AreFree ";" val)) held full))
      ]
    ]

-- Removing a tracker from those of a resource, none of which is empty, leaves the others.
pub trackers-remove :
    (o : ObjectMeta) (t : String)
    → contains (get_tracker_ids_from_annotations o) "" ≡ false
    → get_tracker_ids_from_annotations (after o (remove_tracker o t))
      ≡ without t (get_tracker_ids_from_annotations o)
unfolding remove_tracker
trackers-remove o t w =
    elim (Option-cases (lookup annotation_key_plugin_tracking_id o.annotations)) [
      | inl e ↦ rw (remove_tracker, e) (get-none o e) ∙ ap (without t) (sym (get-none o e))
      | inr (val, e) ↦ elim (Bool-cases (val == "")) [
        | inl v ↦
            rw (remove_tracker, e, v) (get-empty o val e v)
            ∙ ap (without t) (sym (get-empty o val e v))
        | inr v ↦
            rw (remove_tracker, e, v)
              (remove-val o t val e v (ap (λ l. contains l "") (sym (get-some o val e v)) ∙ w))
            ∙ ap (without t) (sym (get-some o val e v))
      ]
    ]

-- Exactly the others are left.
others-without :
    (t : String) (l : List String) (s : String)
    → contains (without t l) s ≡ (contains l s && not (s == t))
others-without t [] s = refl
others-without t (x ∷ l) s =
    ground (arith, others-without t l s, eq_iff x s, eq_iff x t, eq_iff s t)

-- On the trackers of a resource, none of which is empty, the annotation refines a set: adding an id
-- that is not empty and has no semicolon appends it unless it is there, and after removing it, a
-- tracker is there exactly if it was and is another one.
pub trackers-set :
    (o : ObjectMeta) (t s : String)
    → (t == "") ≡ false
    → has_char ";" t ≡ false
    → contains (get_tracker_ids_from_annotations o) "" ≡ false
    → (get_tracker_ids_from_annotations (add_tracking_annotation o t)
        ≡ with_new t (get_tracker_ids_from_annotations o))
      × (contains (get_tracker_ids_from_annotations (after o (remove_tracker o t))) s
          ≡ (contains (get_tracker_ids_from_annotations o) s && not (s == t)))
trackers-set o t s n f w = (
  trackers-add o t n f,
  ap (λ l. contains l s) (trackers-remove o t w)
      ∙ others-without t (get_tracker_ids_from_annotations o) s,
)
