-- ===== src/Route/Substitute.antt =====
-- `findSubstitute`: the first node clockwise that may stand in, and only where there is one.
use driftstore.Prelude.{
  All-map, ◌≡◌, refl, Bool, true, false, not, List, [], ◌∷◌, none, some, arith, take, keep_if,
  keep_if-All, All, All-append, All-append_left, All-append_right, All-keep_if, All-of_In, In,
  Bool-cases, inl, inr, sym, ap, ◌∙◌, ℕ, subst,
}
use driftstore.Text.{Text, text_dec}
use driftstore.Ring.{PreferenceListEntry, RingMap, mix64, fnv1a64, contains, preference_list}
use driftstore.Ring.Clockwise.{IsRing, clockwise, nodes, beyond, up_to}
use driftstore.Ring.Preference.{fresh}
use driftstore.Ring.Owners.{node_ids, node_ids-preference_list}
use driftstore.Node.{Node}
use driftstore.Route.{may_substitute, first_node, find_substitute}
use driftstore.Route.StandIn.{
  StandsIn, Unfit, FirstOf, first_of, may_substitute-StandsIn, may_substitute-Unfit,
  first_of-keep_if-FirstOf,
}

first_node-node_ids : (es : List PreferenceListEntry) → first_node es ≡ first_of (node_ids es)
first_node-node_ids [] = refl
first_node-node_ids (e ∷ es) = refl

first_of-take : (xs : List Text) → first_of (take 1 xs) ≡ first_of xs
first_of-take [] = refl
first_of-take (x ∷ xs) = refl

-- what holds of the nodes of a ring holds of the nodes that a walk meets, and the other way round
module _ (P : Text → Type 0) where
  All-nodes-keep_if :
      (p : ℕ × Text → Bool) (ring : RingMap) → All P (nodes ring) → All P (nodes (keep_if p ring))
  All-nodes-keep_if p [] h = tt
  All-nodes-keep_if p (x ∷ ring) h = elim (Bool-cases (p x)) [
    | inl y ↦ rw y (h.0, All-nodes-keep_if p ring h.1)
    | inr n ↦ rw n (All-nodes-keep_if p ring h.1)
  ]

  All-nodes-split :
      (p : ℕ × Text → Bool) (ring : RingMap)
      → All P (nodes (keep_if p ring))
      → All P (nodes (keep_if (λ x. not (p x)) ring))
      → All P (nodes ring)
  All-nodes-split p [] h k = tt
  All-nodes-split p (x ∷ ring) h k = elim (Bool-cases (p x)) [
    | inl y ↦ let h' = rw y at h in let k' = rw y at k in (h'.0, All-nodes-split p ring h'.1 k')
    | inr n ↦ let h' = rw n at h in let k' = rw n at k in (k'.0, All-nodes-split p ring h' k'.1)
  ]

  All-fresh : (seen cs : List Text) → All P cs → All P (fresh seen cs)
  unfolding fresh
  All-fresh seen [] h = tt
  All-fresh seen (c ∷ cs) h = elim (Bool-cases (contains c seen)) [
    | inl met ↦ rw (met, fresh) (All-fresh seen cs h.1)
    | inr new ↦ rw (new, fresh) (h.0, All-fresh (c ∷ seen) cs h.1)
  ]

  contains-All : (c : Text) (seen : List Text) → contains c seen ≡ true → All P seen → P c
  unfolding contains
  contains-All c [] e h = absurd (ground arith)
  contains-All c (y ∷ ys) e h = elim (text_dec y c) [
    | yes same ↦ subst P same h.0
    | no differ ↦ contains-All c ys (ground arith) h.1
  ]

  All-of_fresh : (seen cs : List Text) → All P seen → All P (fresh seen cs) → All P cs
  unfolding fresh
  All-of_fresh seen [] s h = tt
  All-of_fresh seen (c ∷ cs) s h = elim (Bool-cases (contains c seen)) [
    | inl met ↦ (contains-All c seen met s, All-of_fresh seen cs s (rw (met, fresh) at h))
    | inr new ↦
        let both = rw (new, fresh) at h in (both.0, All-of_fresh (c ∷ seen) cs (both.0, s) both.1)
  ]

  -- the nodes that a walk meets are the ring's
  All-met : (h : ℕ) (ring : RingMap) → All P (nodes ring) → All P (fresh [] (clockwise h ring))
  All-met h ring a = All-fresh [] (clockwise h ring) (
      All-append P (nodes (beyond h ring)) (nodes (up_to h ring)) (All-nodes-keep_if _ ring a)
        (All-nodes-keep_if _ ring a))

  All-of_met : (h : ℕ) (ring : RingMap) → All P (fresh [] (clockwise h ring)) → All P (nodes ring)
  All-of_met h ring a =
      let met = All-of_fresh [] (clockwise h ring) tt a in
      All-nodes-split _ ring (All-append_left P (nodes (beyond h ring)) (nodes (up_to h ring)) met)
        (All-append_right P (nodes (beyond h ring)) (nodes (up_to h ring)) met)

first_of-All :
    (P : Text → Type 0) (xs : List Text) (t : Text) → All P xs → first_of xs ≡ some t → P t
first_of-All P (x ∷ xs) t a e = let same : x ≡ t = ground (arith, e) in subst P same a.0
first_of-All P [] t a e = absurd (ground (arith, e))

first_of-keep_if :
    (p : Text → Bool) (xs : List Text) → first_of (keep_if p xs) ≡ none → All (λ x. p x ≡ false) xs
first_of-keep_if p [] e = tt
first_of-keep_if p (x ∷ xs) e = elim (Bool-cases (p x)) [
  | inl y ↦ absurd (ground (arith, e, y))
  | inr n ↦ (n, first_of-keep_if p xs (rw n at e))
]

module _ (key true_owner : Text) (excluded : List Text) (s : Node) (is_ring : IsRing s.ring) where
  -- the nodes that may stand in, in the order in which the walk meets them
  abbrev standing_in : List Text
  standing_in =
      keep_if (may_substitute true_owner excluded s)
        (fresh [] (clockwise (mix64 (fnv1a64 key)) s.ring))

  find_substitute-first : find_substitute key true_owner excluded s ≡ first_of standing_in
  unfolding find_substitute
  find_substitute-first =
      first_node-node_ids (preference_list 1 may s.ring h)
      ∙ ap first_of (node_ids-preference_list 1 may s.ring h is_ring)
      ∙ first_of-take standing_in
    where
      may : Text → Bool
      may = may_substitute true_owner excluded s

      h : ℕ
      h = mix64 (fnv1a64 key)

  -- a substitute is on the ring, and may stand in by the test of the source
  pub find_substitute_found :
      (t : Text)
      → find_substitute key true_owner excluded s ≡ some t
      → (may_substitute true_owner excluded s t ≡ true) × In t (nodes s.ring)
  find_substitute_found t e =
      let found : first_of standing_in ≡ some t = sym find_substitute-first ∙ e in
      (
        first_of-All (λ n. may_substitute true_owner excluded s n ≡ true) standing_in t
            (keep_if-All (may_substitute true_owner excluded s) _) found,
        first_of-All (λ n. In n (nodes s.ring)) standing_in t
            (All-keep_if (λ n. In n (nodes s.ring)) (may_substitute true_owner excluded s) _
              (All-met (λ n. In n (nodes s.ring)) _ s.ring
                (All-of_In (λ n. In n (nodes s.ring)) (nodes s.ring) (λ n m. m))))
            found,
      )

  -- On a map in ascending order, a substitute that is found is the first of the distinct nodes
  -- clockwise from the key that is not the owner, not excluded and not marked as unreachable, and
  -- it is on the ring; and where none is found, every node of the ring is the owner, excluded or
  -- marked.
  pub find_substitute-FirstOf :
      FirstOf
        (StandsIn true_owner excluded s)
        (Unfit true_owner excluded s)
        (fresh [] (clockwise (mix64 (fnv1a64 key)) s.ring))
        (find_substitute key true_owner excluded s)
      × ((t : Text) → find_substitute key true_owner excluded s ≡ some t → In t (nodes s.ring))
      × (find_substitute key true_owner excluded s ≡ none
          → All (Unfit true_owner excluded s) (nodes s.ring))
  find_substitute-FirstOf = (
    subst
        (FirstOf (StandsIn true_owner excluded s) (Unfit true_owner excluded s)
          (fresh [] (clockwise (mix64 (fnv1a64 key)) s.ring)))
        (sym find_substitute-first)
        (first_of-keep_if-FirstOf (may_substitute true_owner excluded s)
          (may_substitute-StandsIn true_owner excluded s)
          (may_substitute-Unfit true_owner excluded s)
          (fresh [] (clockwise (mix64 (fnv1a64 key)) s.ring))),
    λ t e. (find_substitute_found t e).1,
    λ e. All-of_met (Unfit true_owner excluded s) _ s.ring (
        All-map (λ n. may_substitute true_owner excluded s n ≡ false) (Unfit true_owner excluded s)
          (may_substitute-Unfit true_owner excluded s) _
          (first_of-keep_if (may_substitute true_owner excluded s) _
            (sym find_substitute-first ∙ e))),
  )
