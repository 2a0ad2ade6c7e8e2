-- ===== src/Ring/Natural.antt =====
-- The nodes that the entries of a preference list stand for: of the first N distinct nodes clockwise,
-- each once at most, whoever is reachable.
use driftstore.Prelude.{
  ℕ, ◌≡◌, ◌≢◌, ◌≤◌, refl, Bool, true, not, List, [], ◌∷◌, ◌++◌, map, none, some, arith, length,
  take, drop, length-take, Pairwise, Pairwise-take, Pairwise-keep_if, keep_if, keep_if-All, All,
  All-take, All-append, All-keep_if, All-map, All-of_In, In, ap, sym, subst, ◌∙◌,
}
use driftstore.Text.{Text}
use driftstore.Ring.{PreferenceListEntry, RingMap, natural, preference_list}
use driftstore.Ring.Clockwise.{clockwise, IsRing}
use driftstore.Ring.Preference.{fresh, hints, assign, preference_list-assign}
use driftstore.Ring.Owners.{fresh-distinct}

-- the node that an entry names, or the one that it holds a hint for
abbrev pub owner_of : PreferenceListEntry → Text
owner_of entry = elim entry.hint_for_node_id [ none ↦ entry.node_id | some owner ↦ owner ]

abbrev pub owner_ids : List PreferenceListEntry → List Text
owner_ids = map owner_of

-- the nodes that a key belongs to
unfoldable pub natural_nodes : ℕ → RingMap → ℕ → List Text
natural_nodes n_max ring key_hash = take n_max (fresh [] (clockwise key_hash ring))

pub length-natural_nodes_le :
    (n_max : ℕ) (ring : RingMap) (key_hash : ℕ) → length (natural_nodes n_max ring key_hash) ≤ n_max
unfolding natural_nodes
length-natural_nodes_le n_max ring key_hash =
    omega (arith, length-take n_max (fresh [] (clockwise key_hash ring)))

owner_ids-assign_tail :
    (ns cs ps : List Text) → owner_ids (map natural ns ++ hints cs ps) ≡ ns ++ take (length cs) ps
unfolding hints
owner_ids-assign_tail [] [] ps = refl
owner_ids-assign_tail [] (c ∷ cs) [] = refl
owner_ids-assign_tail [] (c ∷ cs) (p ∷ ps) = ap (◌∷◌ p) (owner_ids-assign_tail [] cs ps)
owner_ids-assign_tail (n ∷ ns) cs ps = ap (◌∷◌ n) (owner_ids-assign_tail ns cs ps)

pub Pairwise-append :
    (xs ys : List Text)
    → Pairwise ◌≢◌ xs
    → Pairwise ◌≢◌ ys
    → All (λ x. All (λ y. x ≢ y) ys) xs
    → Pairwise ◌≢◌ (xs ++ ys)
Pairwise-append [] ys a b h = b
Pairwise-append (x ∷ xs) ys a b h =
    (All-append (λ y. x ≢ y) xs ys a.0 h.0, Pairwise-append xs ys a.1 b h.1)

-- a reachable and an unreachable node differ
parted :
    (is_reachable : Text → Bool) (xs ys : List Text)
    → All (λ x. is_reachable x ≡ true) xs
    → All (λ y. not (is_reachable y) ≡ true) ys
    → All (λ x. All (λ y. x ≢ y) ys) xs
parted is_reachable xs ys a b =
    All-map (λ x. is_reachable x ≡ true) (λ x. All (λ y. x ≢ y) ys)
      (λ x up.
        All-map (λ y. not (is_reachable y) ≡ true) (λ y. x ≢ y) (λ y down e. apart x y up down e) ys
          b)
      xs a
  where
    apart : (x y : Text) → is_reachable x ≡ true → not (is_reachable y) ≡ true → x ≢ y
    apart x y up down e = ground (arith, up, down, ap is_reachable e)

module _ (n_max : ℕ) (is_reachable : Text → Bool) (ring : RingMap) (key_hash : ℕ)
    (is_ring : IsRing ring) where
  -- On a map in ascending order no two entries of a preference list stand for the same node, and
  -- each stands for one of the first N distinct nodes clockwise.
  pub owner_ids-preference_list :
      let os = owner_ids (preference_list n_max is_reachable ring key_hash) in
      Pairwise ◌≢◌ os × All (λ o. In o (natural_nodes n_max ring key_hash)) os
  unfolding natural_nodes assign
  owner_ids-preference_list =
      let ns = natural_nodes n_max ring key_hash in
      let up = keep_if is_reachable ns in
      let behind = keep_if is_reachable (drop n_max (fresh [] (clockwise key_hash ring))) in
      let down = keep_if (λ n. not (is_reachable n)) ns in
      let held = take (length behind) down in
      let same : owner_ids (preference_list n_max is_reachable ring key_hash) ≡ up ++ held =
        ap owner_ids (preference_list-assign n_max is_reachable ring key_hash is_ring)
        ∙ owner_ids-assign_tail up behind down in
      let distinct : Pairwise ◌≢◌ ns =
        Pairwise-take ◌≢◌ n_max _ (fresh-distinct [] (clockwise key_hash ring)) in
      let there : All (λ o. In o ns) ns = All-of_In (λ o. In o ns) ns (λ o m. m) in
      (
        subst (Pairwise ◌≢◌) (sym same) (
            Pairwise-append up held (Pairwise-keep_if ◌≢◌ is_reachable ns distinct)
              (Pairwise-take ◌≢◌ (length behind) down
                (Pairwise-keep_if ◌≢◌ (λ n. not (is_reachable n)) ns distinct))
              (parted is_reachable up held (keep_if-All is_reachable ns)
                (All-take _ (length behind) down (keep_if-All (λ n. not (is_reachable n)) ns)))),
        subst (All (λ o. In o ns)) (sym same) (
            All-append (λ o. In o ns) up held (All-keep_if (λ o. In o ns) is_reachable ns there)
              (All-take (λ o. In o ns) (length behind) down
                (All-keep_if (λ o. In o ns) (λ n. not (is_reachable n)) ns there))),
      )
