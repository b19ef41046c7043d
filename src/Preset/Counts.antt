-- ===== src/Preset/Counts.antt =====
-- What the status of a PluginPreset says of its plugins
-- (internal/controller/plugin/pluginpreset_controller.go).
use mathlib.Core.List.{◌++◌ as append}
use greenhouse.Prelude.{
  ℕ, ◌+◌, ◌≤◌, ltb, nat_eq, length, Bool, true, false, ◌&&◌, ◌≡◌, refl, ◌∙◌, Option, none, some,
  List, [], ◌∷◌, arith, if◌then◌else◌, Bool-cases, inl, inr,
}
use greenhouse.Platform.{found}
use greenhouse.Conditions.{
  Condition, is_true, get_condition_by_type, ready_condition, holds, set_conditions,
}
use greenhouse.Conditions.Given.{holds-status, status-given}
use greenhouse.Preset.{
  Plugin, PluginPreset, ManagedPluginStatus, PresetClient, all_plugins_ready, set_preset_condition,
}
use greenhouse.Preset.Statuses.{
  Tally, managed_status, add_plugin, tally_plugins, no_tally, all_plugins_ready_condition,
  store_tally, reconcile_plugin_statuses,
}

length-snoc :
    (l : List ManagedPluginStatus) (x : ManagedPluginStatus)
    → length (append l (x ∷ [])) ≡ length l + 1
length-snoc [] x = refl
length-snoc (y ∷ l) x = ground (arith, length-snoc l x)

-- The Ready conditions of the plugins that have one.
abbrev pub reported : List Plugin → List Condition
reported [] = []
reported (p ∷ ps) =
    let rest = reported ps in
    elim (get_condition_by_type p.conditions ready_condition) [ none ↦ rest | some c ↦ c ∷ rest ]

abbrev pub all_true : List Condition → Bool
all_true [] = true
all_true (c ∷ cs) = is_true c && all_true cs

abbrev count_true : List Condition → ℕ
count_true [] = 0
count_true (c ∷ cs) = let n = count_true cs in if is_true c then n + 1 else n

-- what a tally comes to, in terms of the conditions of the plugins
record IsSum (before after : Tally) (cs : List Condition) : Type 0 where
  total : length after.statuses ≡ length before.statuses + length cs
  ready : after.ready_count ≡ before.ready_count + count_true cs
  all :
      after.ready_count + after.failed_count ≡ before.ready_count + before.failed_count + length cs

add_plugin-IsSum :
    (p : Plugin) (o : Option Condition) (rest : List Condition) (t after : Tally)
    → IsSum (add_plugin p o t) after rest
    → IsSum t after (elim o [ none ↦ rest | some c ↦ c ∷ rest ])
unfolding add_plugin
add_plugin-IsSum p none rest t after h = h
add_plugin-IsSum p (some c) rest t after h =
    let snoc = length-snoc t.statuses (managed_status p c) in
    elim (Bool-cases (is_true c)) [
      | inl b ↦ record {
        total = ground (arith, h.total, snoc, b);
        ready = ground (arith, h.ready, b);
        all = ground (arith, h.all, b);
      }
      | inr b ↦ record {
        total = ground (arith, h.total, snoc, b);
        ready = ground (arith, h.ready, b);
        all = ground (arith, h.all, b);
      }
    ]

tally-IsSum : (ps : List Plugin) (t : Tally) → IsSum t (tally_plugins ps t) (reported ps)
unfolding tally_plugins
tally-IsSum [] t = record { total = omega arith; ready = omega arith; all = omega arith }
tally-IsSum (p ∷ ps) t =
    let o = get_condition_by_type p.conditions ready_condition in
    add_plugin-IsSum p o (reported ps) t (tally_plugins (p ∷ ps) t)
      (tally-IsSum ps (add_plugin p o t))

count_true-le : (cs : List Condition) → count_true cs ≤ length cs
count_true-le [] = omega arith
count_true-le (c ∷ cs) = ground (arith, count_true-le cs)

all_true-count : (cs : List Condition) → nat_eq (count_true cs) (length cs) ≡ all_true cs
all_true-count [] = refl
all_true-count (c ∷ cs) = ground (arith, count_true-le cs, all_true-count cs)

abbrev pub has_any : List Condition → Bool
has_any [] = false
has_any (c ∷ cs) = true

has_any-length : (cs : List Condition) → ltb 0 (length cs) ≡ has_any cs
has_any-length [] = refl
has_any-length (c ∷ cs) = ground arith

type-all_plugins_ready :
    (now : ℕ) (t : Tally) → (all_plugins_ready_condition now t).type ≡ all_plugins_ready
unfolding all_plugins_ready_condition
type-all_plugins_ready now t =
    elim (Bool-cases (ltb 0 (length t.statuses) && nat_eq t.ready_count (length t.statuses))) [
      | inl h ↦ rw (all_plugins_ready_condition, h) refl
      | inr h ↦ rw (all_plugins_ready_condition, h) refl
    ]

is_true-all_plugins_ready :
    (now : ℕ) (t : Tally)
    → is_true (all_plugins_ready_condition now t)
      ≡ (ltb 0 (length t.statuses) && nat_eq t.ready_count (length t.statuses))
unfolding all_plugins_ready_condition
is_true-all_plugins_ready now t =
    elim (Bool-cases (ltb 0 (length t.statuses) && nat_eq t.ready_count (length t.statuses))) [
      | inl h ↦ rw (all_plugins_ready_condition, h) refl
      | inr h ↦ rw (all_plugins_ready_condition, h) refl
    ]

tally-all_true :
    (ps : List Plugin)
    → (ltb 0 (length (tally_plugins ps no_tally).statuses)
        && nat_eq
            (tally_plugins ps no_tally).ready_count
            (length (tally_plugins ps no_tally).statuses))
      ≡ (has_any (reported ps) && all_true (reported ps))
tally-all_true ps =
    let sum = tally-IsSum ps no_tally in
    ground (arith, sum.total, sum.ready, has_any-length (reported ps), all_true-count (reported ps))

-- What the status says of the plugins that have a Ready condition: how many they are, how many of
-- them are ready or not, and in AllPluginsReady whether there are some and all of them are ready.
pub record IsCounted (plugins : List Plugin) (preset : PluginPreset) : Type 0 where
  pub total : preset.status.total_plugins ≡ length (reported plugins)
  pub parts :
      preset.status.ready_plugins + preset.status.failed_plugins ≡ preset.status.total_plugins
  pub shown :
      holds (get_condition_by_type preset.conditions all_plugins_ready)
      ≡ (has_any (reported plugins) && all_true (reported plugins))

store_tally-IsCounted :
    (now : ℕ) (preset : PluginPreset) (ps : List Plugin)
    → IsCounted ps (store_tally now (tally_plugins ps no_tally) preset)
unfolding store_tally set_preset_condition
store_tally-IsCounted now preset ps =
    let t = tally_plugins ps no_tally in
    let c = all_plugins_ready_condition now t in
    let sum = tally-IsSum ps no_tally in
    let stored = set_conditions now preset.conditions (c ∷ []) in
    record {
      total = omega (arith, sum.total);
      parts = omega (arith, sum.all, sum.total);
      shown =
          holds-status stored all_plugins_ready c.status (
            status-given now preset.conditions [] c [] all_plugins_ready (refl, tt)
              (type-all_plugins_ready now t))
          ∙ (is_true-all_plugins_ready now t ∙ tally-all_true ps);
    }

-- If the plugins of a PluginPreset can be listed, reconcilePluginStatuses counts those that have a
-- Ready condition, the ready and the failed ones add up to them, and AllPluginsReady is True exactly
-- if there are some and the Ready condition of each of them is True.
pub reconcile_plugin_statuses-IsCounted :
    {W E : Type 0} (client : PresetClient W E) (now : ℕ) (preset : PluginPreset) (w : W)
    (plugins : List Plugin)
    → client.list preset.namespace preset.name w ≡ found plugins
    → IsCounted plugins (reconcile_plugin_statuses client now preset w).1
unfolding reconcile_plugin_statuses
reconcile_plugin_statuses-IsCounted client now preset w plugins h =
    rw (reconcile_plugin_statuses, h) (store_tally-IsCounted now preset plugins)
