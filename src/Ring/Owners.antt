-- ===== src/Ring/Owners.antt =====
-- What a client of `preferenceList` relies on: which nodes the list names, and for whom they hold
-- hints.
use driftstore.Prelude.{
  ℕ, ◌-◌, ◌≤◌, ◌≡◌, refl, Bool, true, false, List, [], ◌∷◌, ◌++◌, map, none, some, arith, length,
  take, drop, append-take-drop, length-take, take-append, drop_all, take-nil, length-map, ap₂,
  Pairwise, Pairwise-take, Pairwise-keep_if, keep_if-All, All-take, All-map, ◌≢◌, Bool-cases, inl,
  inr, keep_if, keep_if-append, length-keep_if_le, length-keep_if_split, All, ap, sym, ◌∙◌, dec_le,
}
use mathlib.Core.List.{map-append}
use driftstore.Text.{Text}
use driftstore.Ring.{PreferenceListEntry, RingMap, natural, contains, preference_list}
use driftstore.Ring.Clockwise.{clockwise, IsRing}
use driftstore.Ring.Preference.{
  fresh, hints, reachable, unreachable, assign, preference_list-assign,
}

abbrev pub node_ids : List PreferenceListEntry → List Text
node_ids = map (λ e. e.node_id)

-- the owners for whom the entries hold hints, in order
abbrev pub hint_targets : List PreferenceListEntry → List Text
hint_targets [] = []
hint_targets (e ∷ es) = elim e.hint_for_node_id [
  | none ↦ hint_targets es
  | some target ↦ target ∷ hint_targets es
]

node_ids-natural : (ns : List Text) → node_ids (map natural ns) ≡ ns
node_ids-natural [] = refl
node_ids-natural (n ∷ ns) = ap (◌∷◌ n) (node_ids-natural ns)

node_ids-hints : (cs ps : List Text) → node_ids (hints cs ps) ≡ take (length ps) cs
unfolding hints
node_ids-hints [] [] = refl
node_ids-hints [] (p ∷ ps) = refl
node_ids-hints (c ∷ cs) [] = refl
node_ids-hints (c ∷ cs) (p ∷ ps) = ap (◌∷◌ c) (node_ids-hints cs ps)

hint_targets-natural :
    (ns : List Text) (es : List PreferenceListEntry)
    → hint_targets (map natural ns ++ es) ≡ hint_targets es
hint_targets-natural [] es = refl
hint_targets-natural (n ∷ ns) es = hint_targets-natural ns es

hint_targets-hints : (cs ps : List Text) → hint_targets (hints cs ps) ≡ take (length cs) ps
unfolding hints
hint_targets-hints [] ps = refl
hint_targets-hints (c ∷ cs) [] = refl
hint_targets-hints (c ∷ cs) (p ∷ ps) = ap (◌∷◌ p) (hint_targets-hints cs ps)

module _ (n_max : ℕ) (is_reachable : Text → Bool) where
  -- enough nodes: as many holders are wanted as owners are missing
  take_missing :
      (ds : List Text)
      → take
          (length (unreachable n_max is_reachable (take n_max ds)))
          (reachable n_max is_reachable (drop n_max ds))
        ≡ take
            (n_max - length (reachable n_max is_reachable (take n_max ds)))
            (reachable n_max is_reachable (drop n_max ds))
  take_missing ds = elim (dec_le n_max (length ds)) [
    | yes many ↦
        ap (λ k. take k (reachable n_max is_reachable (drop n_max ds)))
          (omega (arith, length-keep_if_split is_reachable (take n_max ds), length-take n_max ds))
    | no few ↦ rw (drop_all n_max ds (omega arith), take-nil, take-nil)
  ]

  node_ids-assign :
      (ds : List Text)
      → node_ids (assign n_max is_reachable ds) ≡ take n_max (reachable n_max is_reachable ds)
  unfolding assign
  node_ids-assign ds =
      let owners = reachable n_max is_reachable (take n_max ds) in
      let behind = reachable n_max is_reachable (drop n_max ds) in
      let few : length owners ≤ n_max =
        omega (arith, length-keep_if_le is_reachable (take n_max ds), length-take n_max ds) in
      let split : owners ++ behind ≡ reachable n_max is_reachable ds =
        sym (keep_if-append is_reachable (take n_max ds) (drop n_max ds))
        ∙ ap (keep_if is_reachable) (append-take-drop n_max ds) in
      map-append (λ e. e.node_id) (map natural owners) _
      ∙ ap₂ ◌++◌ (node_ids-natural owners) (node_ids-hints behind _ ∙ take_missing ds)
      ∙ sym (take-append n_max owners behind few)
      ∙ ap (take n_max) split

  hint_targets-assign :
      (ds : List Text)
      → hint_targets (assign n_max is_reachable ds)
        ≡ take
            (length (reachable n_max is_reachable (drop n_max ds)))
            (unreachable n_max is_reachable (take n_max ds))
  unfolding assign
  hint_targets-assign ds =
      hint_targets-natural (reachable n_max is_reachable (take n_max ds)) _
      ∙ hint_targets-hints (reachable n_max is_reachable (drop n_max ds)) _

  module _ (ring : RingMap) (key_hash : ℕ) (is_ring : IsRing ring) where
    -- On a map in ascending order the list names the first N reachable nodes, of the distinct
    -- nodes clockwise from the hash.
    pub node_ids-preference_list :
        node_ids (preference_list n_max is_reachable ring key_hash)
        ≡ take n_max (reachable n_max is_reachable (fresh [] (clockwise key_hash ring)))
    node_ids-preference_list =
        ap node_ids (preference_list-assign n_max is_reachable ring key_hash is_ring)
        ∙ node_ids-assign (fresh [] (clockwise key_hash ring))

    -- On a map in ascending order the owners that have a hint holder are the first unreachable
    -- ones among the first N distinct nodes clockwise, as many as there are reachable nodes
    -- behind those N.
    pub hint_targets-preference_list :
        hint_targets (preference_list n_max is_reachable ring key_hash)
        ≡ take
            (length
              (reachable n_max is_reachable (drop n_max (fresh [] (clockwise key_hash ring)))))
            (unreachable n_max is_reachable (take n_max (fresh [] (clockwise key_hash ring))))
    hint_targets-preference_list =
        ap hint_targets (preference_list-assign n_max is_reachable ring key_hash is_ring)
        ∙ hint_targets-assign (fresh [] (clockwise key_hash ring))

contains-false : (x : Text) (ys : List Text) → contains x ys ≡ false → All (λ y. y ≢ x) ys
unfolding contains
contains-false x [] h = tt
contains-false x (y ∷ ys) h = (λ e. ground arith, contains-false x ys (ground arith))

fresh-apart : (seen cs : List Text) → All (λ d. All (λ y. y ≢ d) seen) (fresh seen cs)
unfolding fresh
fresh-apart seen [] = tt
fresh-apart seen (c ∷ cs) = elim (Bool-cases (contains c seen)) [
  | inl met ↦ rw (met, fresh) (fresh-apart seen cs)
  | inr new ↦
      rw (new, fresh)
        (
          contains-false c seen new,
          All-map (λ d. All (λ y. y ≢ d) (c ∷ seen)) (λ d. All (λ y. y ≢ d) seen) (λ d h. h.1) _
              (fresh-apart (c ∷ seen) cs),
        )
]

pub fresh-distinct : (seen cs : List Text) → Pairwise ◌≢◌ (fresh seen cs)
unfolding fresh
fresh-distinct seen [] = tt
fresh-distinct seen (c ∷ cs) = elim (Bool-cases (contains c seen)) [
  | inl met ↦ rw (met, fresh) (fresh-distinct seen cs)
  | inr new ↦
      rw (new, fresh)
        (
          All-map (λ d. All (λ y. y ≢ d) (c ∷ seen)) (λ d. c ≢ d) (λ d h. h.0) _
              (fresh-apart (c ∷ seen) cs),
          fresh-distinct (c ∷ seen) cs,
        )
]

-- On a map in ascending order the list names at most N nodes, each of them reachable and none of
-- them twice.
pub preference_list_distinct :
    (n_max : ℕ) (is_reachable : Text → Bool) (ring : RingMap) (key_hash : ℕ)
    → IsRing ring
    → (length (preference_list n_max is_reachable ring key_hash) ≤ n_max)
      × All
          (λ n. is_reachable n ≡ true)
          (node_ids (preference_list n_max is_reachable ring key_hash))
      × Pairwise ◌≢◌ (node_ids (preference_list n_max is_reachable ring key_hash))
preference_list_distinct n_max is_reachable ring key_hash is_ring =
    let ds = fresh [] (clockwise key_hash ring) in
    let named = node_ids-preference_list n_max is_reachable ring key_hash is_ring in
    let up = keep_if is_reachable ds in
    (
      omega (
        arith,
        length-map (preference_list n_max is_reachable ring key_hash) (λ e. e.node_id),
        ap length named,
        length-take n_max up,
      ),
      rw named (All-take (λ n. is_reachable n ≡ true) n_max up (keep_if-All is_reachable ds)),
      rw named (
          Pairwise-take ◌≢◌ n_max up
            (Pairwise-keep_if ◌≢◌ is_reachable ds (fresh-distinct [] (clockwise key_hash ring)))),
    )
