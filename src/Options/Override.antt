-- ===== src/Options/Override.antt =====
-- What stands under a name after option values are merged (internal/helm/utils.go, values.go).
use mathlib.Core.List.{Permᴰ}
use greenhouse.Prelude.{
  String, ◌≡◌, refl, ap, ap₂, subst, if_ind, ◌∙◌, ◌==◌, eq_iff, Option, none, some, List, [], ◌∷◌,
  arith, Bool-cases, Option-cases, inl, inr, if◌then◌else◌, sym, Bool, true, false, not, ◌&&◌,
}
use greenhouse.Options.{PluginOption, PluginOptionValue}
use greenhouse.Options.Validate.{sources}
use greenhouse.Options.Merge.{
  set_or_append_name_value, merge_plugin_option_values, defaults,
  merge_plugin_and_plugin_option_value_slice,
}

module _ {L : Type 0} where
  -- A list of option values as a map from names: the first value of a name counts.
  abbrev pub find : String → List (PluginOptionValue L) → Option (PluginOptionValue L)
  find name [] = none
  find name (v ∷ vs) = if v.name == name then some v else find name vs

  -- A value that is set over another of its name.
  abbrev pub overridden : Option (PluginOptionValue L) → PluginOptionValue L → PluginOptionValue L
  overridden none v = v
  overridden (some old) v = record old { value = v.value }

  -- The map after the values have been set in turn.
  abbrev pub overrides :
      String
      → Option (PluginOptionValue L)
      → List (PluginOptionValue L)
      → Option (PluginOptionValue L)
  overrides name o [] = o
  overrides name o (v ∷ vs) =
      overrides name (if v.name == name then some (overridden o v) else o) vs

  find-set :
      (vals : List (PluginOptionValue L)) (v : PluginOptionValue L) (name : String)
      → find name (set_or_append_name_value vals v)
        ≡ (if v.name == name then some (overridden (find name vals) v) else find name vals)
  unfolding set_or_append_name_value
  find-set [] v name = refl
  find-set (val ∷ vals) v name = ground (
    arith,
    eq_iff val.name v.name,
    eq_iff v.name name,
    eq_iff val.name name,
    find-set vals v name,
  )

  pub find-merge_plugin_option_values :
      (dst src : List (PluginOptionValue L)) (name : String)
      → find name (merge_plugin_option_values dst src) ≡ overrides name (find name dst) src
  unfolding merge_plugin_option_values
  find-merge_plugin_option_values dst [] name = refl
  find-merge_plugin_option_values dst (v ∷ vs) name =
      find-merge_plugin_option_values (set_or_append_name_value dst v) vs name
      ∙ ap (λ o. overrides name o vs) (find-set dst v name)

  -- A plain text under a name, if there is one.
  abbrev plain_or :
      String → Option String → Option (PluginOptionValue L) → Option (PluginOptionValue L)
  plain_or name none rest = rest
  plain_or name (some d) rest =
      some (record { name = name; value = some d; value_from = none; expression = none })

  -- What an option is by default.
  abbrev pub default_of : String → List PluginOption → Option (PluginOptionValue L)
  default_of name [] = none
  default_of name (option ∷ options) =
      let rest = default_of name options in
      if option.name == name then plain_or option.name option.default rest else rest

  find-defaults :
      (name : String) (options : List PluginOption)
      → find name (defaults options) ≡ default_of name options
  unfolding defaults
  find-defaults name [] = refl
  find-defaults name (option ∷ options) = elim (Option-cases option.default) [
    | inl e ↦ rw e (ground (arith, find-defaults name options))
    | inr (d, e) ↦ rw e (ground (arith, find-defaults name options))
  ]

  -- No two values of the list have one name.
  abbrev pub AreUnique : List (PluginOptionValue L) → Type 0
  AreUnique [] = Unit
  AreUnique (v ∷ vs) = (find v.name vs ≡ none) × AreUnique vs

  -- A value, if there is one, over a default, if there is one.
  abbrev pub over :
      Option (PluginOptionValue L) → Option (PluginOptionValue L) → Option (PluginOptionValue L)
  over d none = d
  over d (some v) = some (overridden d v)

  overrides-absent :
      (name : String) (o : Option (PluginOptionValue L)) (vs : List (PluginOptionValue L))
      → find name vs ≡ none
      → overrides name o vs ≡ o
  overrides-absent name o [] h = refl
  overrides-absent name o (v ∷ vs) h = ground (arith, overrides-absent name o vs)

  overrides-over :
      (name : String) (o : Option (PluginOptionValue L)) (vs : List (PluginOptionValue L))
      → AreUnique vs
      → overrides name o vs ≡ over o (find name vs)
  overrides-over name o [] u = refl
  overrides-over name o (v ∷ vs) u = elim (Bool-cases (v.name == name)) [
    | inl e ↦
        rw e (
          overrides-absent name (some (overridden o v)) vs
            (ground (arith, eq_iff v.name name, u.0)))
    | inr e ↦ rw e (overrides-over name o vs u.1)
  ]

  -- The values of a list have distinct names, and are the same map as those of another.
  abbrev SameMap : List (PluginOptionValue L) → List (PluginOptionValue L) → Type 0
  SameMap l m = AreUnique m × ((name : String) → find name l ≡ find name m)

  swapped :
      (a b : PluginOptionValue L) (l : List (PluginOptionValue L))
      → AreUnique (a ∷ b ∷ l)
      → SameMap (a ∷ b ∷ l) (b ∷ a ∷ l)
  swapped a b l u =
      let other : (b.name == a.name) ≡ false = ground (arith, u.0) in
      let absent : find a.name l ≡ none = ground (arith, u.0) in
      (
        (ground (arith, u.1.0, other, eq_iff a.name b.name, eq_iff b.name a.name), (absent, u.1.1)),
        λ name. ground (arith, other, eq_iff a.name name, eq_iff b.name name, eq_iff b.name a.name),
      )

  -- A permutation of values of distinct names is the same map.
  permuted : {l m : List (PluginOptionValue L)} → Permᴰ l m → AreUnique l → SameMap l m
  permuted Permᴰ.nil u = (tt, λ name. refl)
  permuted (Permᴰ.cons {a} {b} {l₁} {l₂} e p) u =
      let (u', h) = permuted p u.1 in
      (
        (subst (λ v. find v.name l₂ ≡ none) e (sym (h a.name) ∙ u.0), u'),
        λ name. ap₂ (λ v o. if v.name == name then some v else o) e (h name),
      )
  permuted (Permᴰ.swap {a} {b} {a'} {b'} {l} e e') u =
      subst (λ v. SameMap (a ∷ b ∷ l) (v ∷ b' ∷ l)) e'
        (subst (λ v. SameMap (a ∷ b ∷ l) (b ∷ v ∷ l)) e (swapped a b l u))
  permuted (Permᴰ.trans p q) u =
      let (u', h) = permuted p u in let (u'', h') = permuted q u' in (u'', λ name. h name ∙ h' name)

  set-AreUnique :
      (vals : List (PluginOptionValue L)) (v : PluginOptionValue L)
      → AreUnique vals
      → AreUnique (set_or_append_name_value vals v)
  unfolding set_or_append_name_value
  set-AreUnique [] v u = (refl, tt)
  set-AreUnique (x ∷ vals) v u = elim (Bool-cases (x.name == v.name)) [
    | inl e ↦ rw (set_or_append_name_value, e) u
    | inr e ↦
        rw (set_or_append_name_value, e)
          (
            find-set vals v x.name
                ∙ ground (arith, e, eq_iff v.name x.name, eq_iff x.name v.name, u.0),
            set-AreUnique vals v u.1,
          )
  ]

  merge-AreUnique :
      (dst src : List (PluginOptionValue L))
      → AreUnique dst
      → AreUnique (merge_plugin_option_values dst src)
  unfolding merge_plugin_option_values
  merge-AreUnique dst [] u = u
  merge-AreUnique dst (v ∷ vs) u =
      merge-AreUnique (set_or_append_name_value dst v) vs (set-AreUnique dst v u)

-- No option of the list has the name.
abbrev pub is_unnamed : String → List PluginOption → Bool
is_unnamed name [] = true
is_unnamed name (option ∷ options) = not (option.name == name) && is_unnamed name options

-- No two options of the list have one name.
abbrev pub AreDistinct : List PluginOption → Type 0
AreDistinct [] = Unit
AreDistinct (option ∷ options) = (is_unnamed option.name options ≡ true) × AreDistinct options

default_of-unnamed :
    (L : Type 0) (name : String) (options : List PluginOption)
    → is_unnamed name options ≡ true
    → default_of {L = L} name options ≡ none
default_of-unnamed L name [] h = refl
default_of-unnamed L name (option ∷ options) h =
    let other : (option.name == name) ≡ false = ground (arith, h) in
    rw other (default_of-unnamed L name options (ground (arith, h)))

defaults-AreUnique :
    (L : Type 0) (options : List PluginOption)
    → AreDistinct options
    → AreUnique {L = L} (defaults options)
unfolding defaults
defaults-AreUnique L [] d = tt
defaults-AreUnique L (option ∷ options) d = elim (Option-cases option.default) [
  | inl e ↦ rw e (defaults-AreUnique L options d.1)
  | inr (x, e) ↦ rw e (
    find-defaults option.name options ∙ default_of-unnamed L option.name options d.0,
    defaults-AreUnique L options d.1,
  )
]

module _ {L : Type 0} where
  -- Option values of distinct names, and options of distinct names, refine a map: whatever order the
  -- sort gives them, what is found under a name after the merge with the options of the definition
  -- is the given value, its plain text over the default of the option if that has one, and the
  -- default if no value is given.
  pub find-merge_plugin :
      (sort : List (PluginOptionValue L) → List (PluginOptionValue L)) (options : List PluginOption)
      (values : List (PluginOptionValue L)) (name : String)
      → ((l : List (PluginOptionValue L)) → Permᴰ l (sort l))
      → AreDistinct options
      → AreUnique values
      → find name (merge_plugin_and_plugin_option_value_slice sort (some options) values)
        ≡ over (default_of name options) (find name values)
  unfolding merge_plugin_and_plugin_option_value_slice
  find-merge_plugin sort options values name perm distinct u =
      let merged = merge_plugin_option_values (defaults options) values in
      let (_, same) =
        permuted (perm merged)
          (merge-AreUnique (defaults options) values (defaults-AreUnique L options distinct)) in
      sym (same name)
      ∙ (find-merge_plugin_option_values (defaults options) values name
          ∙ (overrides-over name (find name (defaults options)) values u
              ∙ ap (λ d. over d (find name values)) (find-defaults name options)))

  -- A default is a plain text.
  abbrev Plain : Option (PluginOptionValue L) → Type 0
  Plain none = Unit
  Plain (some d) = (d.value_from ≡ none) × (d.expression ≡ none)

Plain-plain_or :
    (L : Type 0) (name : String) (d : Option String) (rest : Option (PluginOptionValue L))
    → Plain rest
    → Plain (plain_or name d rest)
Plain-plain_or L name none rest h = h
Plain-plain_or L name (some d) rest h = (refl, refl)

Plain-default_of :
    (L : Type 0) (name : String) (options : List PluginOption)
    → Plain (default_of {L = L} name options)
Plain-default_of L name [] = tt
Plain-default_of L name (option ∷ options) =
    if_ind (Plain {L = L}) (option.name == name)
      (λ _.
        Plain-plain_or L option.name option.default (default_of {L = L} name options)
          (Plain-default_of L name options))
      (λ _. Plain-default_of L name options)

module _ {L : Type 0} where
  -- Among values and options of distinct names, a value without a plain text, such as a reference or
  -- an expression, is lost if its option has a default: whatever order the sort gives, what is found
  -- under its name after the merge has no source at all.
  pub merge-loses_reference :
      (sort : List (PluginOptionValue L) → List (PluginOptionValue L)) (options : List PluginOption)
      (values : List (PluginOptionValue L)) (name : String) (d v : PluginOptionValue L)
      → ((l : List (PluginOptionValue L)) → Permᴰ l (sort l))
      → AreDistinct options
      → AreUnique values
      → default_of name options ≡ some d
      → find name values ≡ some v
      → v.value ≡ none
      → (merged : PluginOptionValue L) × (find name
            (merge_plugin_and_plugin_option_value_slice sort (some options) values)
          ≡ some merged)
        × (sources merged ≡ 0)
  merge-loses_reference sort options values name d v perm distinct u hd hv e =
      let p : Plain (some d) = subst Plain hd (Plain-default_of L name options) in
      (
        record d { value = v.value },
        find-merge_plugin sort options values name perm distinct u ∙ ap₂ over hd hv,
        rw (e, p.0, p.1) refl,
      )
