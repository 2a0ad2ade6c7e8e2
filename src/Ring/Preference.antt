-- ===== src/Ring/Preference.antt =====
-- What `preferenceList` answers: the first N distinct nodes clockwise are the natural owners; the
-- reachable ones stand in the list, and each reachable node behind them holds the hint for one
-- unreachable owner, in order.
use driftstore.Prelude.{
  ℕ, zero, suc, ◌+◌, ◌-◌, ◌≤◌, ◌≡◌, refl, Bool, true, false, not, List, [], ◌∷◌, ◌++◌, map, arith,
  ltb, ◌==◌, length, length-append, take, drop, keep_if, Bool-cases, inl, inr, ap, sym, ◌∙◌,
}
use mathlib.Core.List.{append_assoc, append-nil}
use native.Mathlib.Nat.{sub-zero}
use driftstore.Text.{Text}
use driftstore.Ring.{
  PreferenceListEntry, RingMap, Walk, start, natural, holder, contains, visit, visit_new, take_hint,
  preference_list,
}
use driftstore.Ring.Clockwise.{walk_loop, clockwise, IsRing, preference_list-walk_loop}

-- the nodes of a walk that were not met before, each once
unfoldable pub fresh : List Text → List Text → List Text
fresh seen [] = []
fresh seen (c ∷ cs) = elim (contains c seen) [
  | true ↦ fresh seen cs
  | false ↦ c ∷ fresh (c ∷ seen) cs
]

-- reachable nodes take the pending hints in order
unfoldable pub hints : List Text → List Text → List PreferenceListEntry
hints [] pending = []
hints (c ∷ cs) [] = []
hints (c ∷ cs) (target ∷ pending) = holder c target ∷ hints cs pending

nil_of_length {ℓ} : {A : Type ℓ} (xs : List A) → length xs ≡ 0 → xs ≡ []
nil_of_length [] h = refl
nil_of_length (x ∷ xs) h = absurd (omega arith)

module _ (n_max : ℕ) (is_reachable : Text → Bool) where
  abbrev pub reachable : List Text → List Text
  reachable = keep_if is_reachable

  abbrev pub unreachable : List Text → List Text
  unreachable = keep_if (λ n. not (is_reachable n))

  -- what the rest of the walk, over the new nodes `ds`, makes of the list so far
  abbrev completed : List PreferenceListEntry → List Text → ℕ → List Text → List PreferenceListEntry
  completed so_far pending owners ds =
      so_far
      ++ (map natural (reachable (take owners ds))
          ++ hints (reachable (drop owners ds)) (pending ++ unreachable (take owners ds)))

  -- The abstract preference list over the distinct nodes met clockwise.
  unfoldable pub assign : List Text → List PreferenceListEntry
  assign ds =
      map natural (reachable (take n_max ds))
      ++ hints (reachable (drop n_max ds)) (unreachable (take n_max ds))

  -- owners met are in the list or wait for a holder
  record Inv (w : Walk) : Type 0 where
    within : w.natural_count ≤ n_max
    owners : length w.preference_list + length w.pending_hints ≡ w.natural_count

  hints-nil : (cs : List Text) → hints cs [] ≡ []
  unfolding hints
  hints-nil [] = refl
  hints-nil (c ∷ cs) = refl

  completed_full :
      (w : Walk) (ds : List Text)
      → Inv w
      → length w.preference_list ≡ n_max
      → completed w.preference_list w.pending_hints (n_max - w.natural_count) ds ≡ w.preference_list
  completed_full w ds v h =
      let none_left : n_max - w.natural_count ≡ 0 = omega (arith, v.within, v.owners) in
      let empty : w.pending_hints ≡ [] =
        nil_of_length w.pending_hints (omega (arith, v.within, v.owners)) in
      rw (none_left, empty, hints-nil) (append-nil w.preference_list)

  visit_new-Inv : (c : Text) (w : Walk) → Inv w → Inv (visit_new n_max is_reachable c w)
  unfolding visit_new
  visit_new-Inv c w v = elim (Bool-cases (ltb w.natural_count n_max)) [
    | inl owner ↦ elim (Bool-cases (is_reachable c)) [
      | inl up ↦
          rw (owner, up)
            (record {
              within = ground arith;
              owners = omega (arith, v.owners, length-append w.preference_list (natural c ∷ []));
            })
      | inr down ↦
          rw (owner, down)
            (record {
              within = ground arith;
              owners = omega (arith, v.owners, length-append w.pending_hints (c ∷ []));
            })
    ]
    | inr past ↦ elim (Bool-cases (is_reachable c)) [
      | inl up ↦ rw (past, up) (take_hint-Inv w.pending_hints refl)
      | inr down ↦ rw (past, down) v
    ]
  ]
    where
      take_hint-Inv :
          (pending : List Text)
          → w.pending_hints ≡ pending
          → Inv (take_hint n_max is_reachable c pending w)
      take_hint-Inv [] e = v
      take_hint-Inv (target ∷ rest) e = record {
        within = v.within;
        owners =
            omega (
              arith,
              v.owners,
              ap length e,
              length-append w.preference_list (holder c target ∷ []),
            );
      }

  take_hint-completed :
      (c : Text) (ds : List Text) (w : Walk)
      → n_max - w.natural_count ≡ 0
      → (pending : List Text) → w.pending_hints ≡ pending
      → let w' = take_hint n_max is_reachable c pending w in
        w.preference_list ++ hints (c ∷ reachable ds) (w.pending_hints ++ [])
        ≡ completed w'.preference_list w'.pending_hints (n_max - w'.natural_count) ds
  unfolding take_hint hints
  take_hint-completed c ds w none_left [] e = rw (none_left, e) (simp hints-nil)
  take_hint-completed c ds w none_left (target ∷ rest) e =
      rw (none_left, e, append_assoc w.preference_list (holder c target ∷ []))

  -- visiting a new node turns the walk over it and the rest into the walk over the rest
  visit_new-completed :
      (c : Text) (ds : List Text) (w : Walk)
      → Inv w
      → let w' = visit_new n_max is_reachable c w in
        completed w.preference_list w.pending_hints (n_max - w.natural_count) (c ∷ ds)
        ≡ completed w'.preference_list w'.pending_hints (n_max - w'.natural_count) ds
  unfolding visit_new hints
  visit_new-completed c ds w v = elim (Bool-cases (ltb w.natural_count n_max)) [
    | inl owner ↦
        let more : n_max - w.natural_count ≡ suc (n_max - (w.natural_count + 1)) = ground arith in
        elim (Bool-cases (is_reachable c)) [
          | inl up ↦ rw (owner, more, up) (sym (append_assoc w.preference_list (natural c ∷ []) _))
          | inr down ↦ rw (owner, more, down, append_assoc w.pending_hints (c ∷ []))
        ]
    | inr past ↦
        let none_left : n_max - w.natural_count ≡ 0 = ground arith in
        elim (Bool-cases (is_reachable c)) [
          | inl up ↦
              rw (past, none_left, up) (take_hint-completed c ds w none_left w.pending_hints refl)
          | inr down ↦ rw (past, none_left, down, none_left)
        ]
  ]

  visit_new-seen : (c : Text) (w : Walk) → (visit_new n_max is_reachable c w).seen ≡ w.seen
  unfolding visit_new
  visit_new-seen c w = ground arith

  walk_loop-completed :
      (cs : List Text) (w : Walk)
      → Inv w
      → (walk_loop n_max is_reachable cs w).preference_list
        ≡ completed w.preference_list w.pending_hints (n_max - w.natural_count) (fresh w.seen cs)
  unfolding walk_loop visit fresh hints
  walk_loop-completed [] w v = nothing_left (n_max - w.natural_count)
    where
      nothing_left : (k : ℕ) → w.preference_list ≡ completed w.preference_list w.pending_hints k []
      nothing_left zero = sym (append-nil w.preference_list)
      nothing_left (suc k) = sym (append-nil w.preference_list)
  walk_loop-completed (c ∷ cs) w v = elim (Bool-cases (contains c w.seen)) [
    | inl met ↦ elim (Bool-cases (length w.preference_list == n_max)) [
      | inl full ↦ rw (met, fresh, full) (sym (completed_full w _ v (ground arith)))
      | inr on ↦ rw (met, fresh, on) (walk_loop-completed cs w v)
    ]
    | inr new ↦
        let w₁ : Walk = record w { seen = c ∷ w.seen } in
        let v₁ : Inv w₁ = record { within = v.within; owners = v.owners } in
        let w' = visit_new n_max is_reachable c w₁ in
        let v' = visit_new-Inv c w₁ v₁ in
        let step = visit_new-completed c (fresh (c ∷ w.seen) cs) w₁ v₁ in
        elim (Bool-cases (length w'.preference_list == n_max)) [
          | inl full ↦
              rw (new, fresh, full)
                (sym (step ∙ completed_full w' (fresh (c ∷ w.seen) cs) v' (ground arith)))
          | inr on ↦
              rw (new, fresh, on)
                (walk_loop-completed cs w' v'
                  ∙ ap
                      (λ s.
                        completed w'.preference_list w'.pending_hints (n_max - w'.natural_count)
                          (fresh s cs))
                      (visit_new-seen c w₁)
                  ∙ sym step)
        ]
  ]

  -- On a map in ascending order the preference list is the abstract one: the reachable nodes of
  -- the first N distinct nodes clockwise from the hash, then the reachable nodes behind those,
  -- each holding the hint of one unreachable owner, while there are unreachable owners.
  pub preference_list-assign :
      (ring : RingMap) (key_hash : ℕ)
      → IsRing ring
      → preference_list n_max is_reachable ring key_hash
        ≡ assign (fresh [] (clockwise key_hash ring))
  unfolding assign
  preference_list-assign ring key_hash a =
      preference_list-walk_loop n_max is_reachable ring key_hash a
      ∙ walk_loop-completed (clockwise key_hash ring) start
          (record { within = omega arith; owners = omega arith })
      ∙ ap (λ k. completed [] [] k (fresh [] (clockwise key_hash ring))) (sub-zero n_max)
