-- ===== src/TeamRbac/Stuck.antt =====
-- EnsureDeleted of teamrolebinding_controller.go (internal/controller/teamrbac), of a binding that was
-- propagated to a cluster which no longer exists.
use greenhouse.Prelude.{
  ℕ, zero, suc, ◌+◌, String, ◌≡◌, ◌≢◌, refl, true, false, ◌==◌, none, List, [], Bool-cases,
  Option-cases, inl, inr, ◌∷◌, ◌++◌, arith, All, is_some, get_elem?,
}
use greenhouse.Prelude.SliceLaws.{IsSlice}
use greenhouse.Platform.{Errors, Fetched, Fetched-cases, found, failed}
use greenhouse.Conditions.{condition_false, is_ready_true}
use greenhouse.Lifecycle.{success, pending}
use greenhouse.TeamRbac.{TeamRoleBinding, set_propagation_status, remove_propagation_status}
use greenhouse.TeamRbac.Cleanup.{
  Cluster, Hub, drop_not_ready, list_clusters, combine_from, combine_cluster_lists, has_name,
  cleanup_cluster,
}
use greenhouse.TeamRbac.Controller.{Answer, answer, delete_from, ensure_deleted}
use greenhouse.TeamRbac.Status.{
  reported, propagation_of, reported-set, set-IsSlice, reported-remove, remove-IsSlice,
}

-- A binding of the namespace with a status for the cluster `n`.
pub record Reports {L : Type 0} (namespace n : String) (trb : TeamRoleBinding L) : Type 0 where
  pub slice : IsSlice trb.status
  pub entry : is_some (reported trb n) ≡ true
  pub place : trb.namespace ≡ namespace

-- None of these clusters is `n`.
abbrev pub OthersThan : String → List Cluster → Type 0
OthersThan n = All (λ (c : Cluster). (c.name == n) ≡ false)

OthersThan-snoc :
    (n : String) (cs : List Cluster) (c : Cluster)
    → OthersThan n cs
    → (c.name == n) ≡ false
    → OthersThan n (cs ++ c ∷ [])
OthersThan-snoc n [] c h e = (e, tt)
OthersThan-snoc n (d ∷ cs) c h e = (h.0, OthersThan-snoc n cs c h.1 e)

module _ {L : Type 0} {ns n : String} where
  pub Reports-set :
      (now : ℕ) (m : String) (reason message : String) (trb : TeamRoleBinding L)
      → Reports ns n trb
      → Reports ns n (set_propagation_status now m condition_false reason message trb)
  Reports-set now m reason message trb r = record {
    slice = set-IsSlice now m condition_false reason message trb r.slice;
    entry =
        rw (reported-set now m condition_false reason message trb r.slice n)
          (ground (arith, r.entry));
    place = unfold set_propagation_status in r.place;
  }

  pub Reports-remove :
      (m : String) (trb : TeamRoleBinding L)
      → (m == n) ≡ false
      → Reports ns n trb
      → Reports ns n (remove_propagation_status m trb)
  Reports-remove m trb e r = record {
    slice = remove-IsSlice m trb;
    entry = rw (reported-remove m trb n, e) r.entry;
    place = unfold remove_propagation_status in r.place;
  }

module _ {L Sel P A W E : Type 0} (errors : Errors E) (hub : Hub L Sel P A W E) (now : ℕ)
    (ns n : String)
    -- no cluster `n` exists in the namespace
    (not_got : (m : String) (w : W) (c : Cluster)
      → hub.get_cluster ns m w ≡ found c
      → (c.name == n) ≡ false)
    (not_listed : (sel : Sel) (w : W) (cs : List Cluster)
      → hub.list_clusters ns sel w ≡ found cs
      → OthersThan n cs)
    (named : ("" == n) ≡ false) where
  abbrev Kept : List Cluster → TeamRoleBinding L → Type 0
  Kept cs trb = OthersThan n cs × Reports ns n trb

  Kept-drop_not_ready :
      (cs : List Cluster) (trb : TeamRoleBinding L)
      → OthersThan n cs
      → Reports ns n trb
      → Kept (drop_not_ready errors hub now cs trb).0 (drop_not_ready errors hub now cs trb).1
  unfolding drop_not_ready
  Kept-drop_not_ready [] trb o r = (tt, r)
  Kept-drop_not_ready (c ∷ cs) trb o r = elim (Bool-cases (is_ready_true c.conditions)) [
    | inl e ↦ rw e (let (o', r') = Kept-drop_not_ready cs trb o.1 r in ((o.0, o'), r'))
    | inr e ↦ rw e (Kept-drop_not_ready cs _ o.1 (Reports-set now c.name _ _ trb r))
  ]

  Kept-combine_from :
      (w : W) (left i : ℕ) (cs : List Cluster) (trb : TeamRoleBinding L)
      → OthersThan n cs
      → Reports ns n trb
      → Kept
          (combine_from errors hub now w left i cs trb).1
          (combine_from errors hub now w left i cs trb).2
  unfolding combine_from
  Kept-combine_from w zero i cs trb o r = (o, r)
  Kept-combine_from w (suc left) i cs trb o r = elim (Option-cases (get_elem? trb.status.array i)) [
    | inl e ↦ rw (e, combine_from) (o, r)
    | inr (ps, e) ↦ elim (Bool-cases (has_name cs ps.cluster_name)) [
      | inl old ↦ rw (e, combine_from, old) (Kept-combine_from w left (i + 1) cs trb o r)
      | inr new ↦ elim (Fetched-cases (hub.get_cluster trb.namespace ps.cluster_name w)) [
        | inl (c, got) ↦
            rw (e, combine_from, new, got)
              (Kept-combine_from w left (i + 1) (cs ++ c ∷ []) trb
                (OthersThan-snoc n cs c o (not_got ps.cluster_name w c (rw r.place at got))) r)
        | inr (x, got) ↦ elim (Bool-cases (errors.is_not_found x)) [
          | inl gone ↦
              rw (e, combine_from, new, got, gone)
                (Kept-combine_from w left (i + 1) cs (remove_propagation_status "" trb) o
                  (Reports-remove "" trb named r))
          | inr other ↦ rw (e, combine_from, new, got, other) (o, r)
        ]
      ]
    ]
  ]

  Reports-delete_from :
      (cs : List Cluster) (trb : TeamRoleBinding L) (w : W)
      → OthersThan n cs
      → Reports ns n trb
      → Reports ns n (delete_from errors hub now cs trb w).0
  unfolding delete_from
  Reports-delete_from [] trb w o r = r
  Reports-delete_from (c ∷ cs) trb w o r =
      elim (Option-cases (cleanup_cluster errors hub now trb c w).0) [
        | inl e ↦
            rw (e, delete_from)
              (Reports-delete_from cs (remove_propagation_status c.name trb) _ o.1
                (Reports-remove c.name trb o.0 r))
        | inr (x, e) ↦ rw (e, delete_from) (Reports-delete_from cs trb _ o.1 r)
      ]

  -- The binding still reports `n`, and if clusters were listed, none is `n`.
  abbrev Listed : Fetched (List Cluster) E → TeamRoleBinding L → Type 0
  Listed (found cs) trb = Kept cs trb
  Listed (failed e) trb = Reports ns n trb

  Listed-list_clusters :
      (trb : TeamRoleBinding L) (w : W)
      → Reports ns n trb
      → Listed (list_clusters errors hub now trb w).0 (list_clusters errors hub now trb w).1
  unfolding list_clusters
  Listed-list_clusters trb w r = elim (Bool-cases (trb.spec.cluster_selector.name == "")) [
    | inl unnamed ↦
        elim (Fetched-cases
          (hub.label_selector_as_selector trb.spec.cluster_selector.label_selector)) [
            | inr (x, e) ↦ rw (unnamed, e, list_clusters) r
            | inl (sel, e) ↦ elim (Fetched-cases (hub.list_clusters trb.namespace sel w)) [
              | inr (x, e') ↦ rw (unnamed, e, e', list_clusters) r
              | inl (cs, e') ↦
                  rw (unnamed, e, e', list_clusters)
                    (Kept-drop_not_ready cs trb (not_listed sel w cs (rw r.place at e')) r)
            ]
          ]
    | inr name ↦
        elim (Fetched-cases (hub.get_cluster trb.namespace trb.spec.cluster_selector.name w)) [
          | inl (c, e) ↦ rw (name, e, list_clusters) ((not_got _ w c (rw r.place at e), tt), r)
          | inr (x, e) ↦ elim (Bool-cases (errors.is_not_found x)) [
            | inl gone ↦ rw (name, e, list_clusters, gone) (tt, r)
            | inr other ↦ rw (name, e, list_clusters, other) r
          ]
        ]
  ]

  not_empty : (trb : TeamRoleBinding L) → Reports ns n trb → trb.status.len ≢ zero
  unfolding propagation_of
  not_empty trb r e = ground (arith, r.entry)

  abbrev Stuck : Answer errors hub now → Type 0
  Stuck a = (a.0.1 ≢ success) × Reports ns n a.1

  abbrev ending : TeamRoleBinding L → W → Answer errors hub now
  ending trb w = elim trb.status.len [
    | zero ↦ answer errors hub now success none trb w
    | suc m ↦ answer errors hub now pending none trb w
  ]

  Stuck-ending : (trb : TeamRoleBinding L) (w : W) → Reports ns n trb → Stuck (ending trb w)
  Stuck-ending trb w r = by_len trb.status.len refl
    where
      by_len :
          (k : ℕ)
          → trb.status.len ≡ k
          → Stuck (elim k [
            | zero ↦ answer errors hub now success none trb w
            | suc m ↦ answer errors hub now pending none trb w
          ])
      by_len zero e = elim (not_empty trb r e) [ ]
      by_len (suc k) e = ((λ p. ground (arith, p)), r)

  -- EnsureDeleted never answers Success for a binding that reports a cluster by a name that is not
  -- empty and that no cluster of its namespace has: neither listed nor got from the API server.
  -- The binding that it leaves still reports that cluster. It is assumed that the statuses lie in
  -- their array.
  pub ensure_deleted-stuck :
      (trb : TeamRoleBinding L) (w : W)
      → Reports ns n trb
      → ((ensure_deleted errors hub now trb w).0.1 ≢ success)
        × Reports ns n (ensure_deleted errors hub now trb w).1
  unfolding ensure_deleted combine_cluster_lists
  ensure_deleted-stuck trb w r = elim (Fetched-cases (list_clusters errors hub now trb w).0) [
    | inr (x, e) ↦
        rw (e, ensure_deleted) ((λ p. ground (arith, p)), rw e at (Listed-list_clusters trb w r))
    | inl (cs, e) ↦
        (let (o, r') = rw e at (Listed-list_clusters trb w r) in
          let trb' = (list_clusters errors hub now trb w).1 in
          let (o', r'') = Kept-combine_from w trb'.status.len 0 cs trb' o r' in
          elim (Option-cases (combine_cluster_lists errors hub now w cs trb').0) [
            | inr (x, e') ↦ rw (e, ensure_deleted, e') ((λ p. ground (arith, p)), r'')
            | inl e' ↦
                rw (e, ensure_deleted, e') (Stuck-ending _ _ (Reports-delete_from _ _ w o' r''))
          ])
  ]
