-- ===== src/Store/Hints.antt =====
-- The hints that a replica holds for other nodes.
use driftstore.Prelude.{
  ◌≡◌, ◌≢◌, refl, Option, ite, ◌⊎◌, none, some, if_pos, if_neg, subst, ap, ◌∙◌, [], arith,
  Option-cases, inl, inr,
}
use driftstore.Text.{Text, text_dec}
use driftstore.Assoc.{Assoc, find, insert, IsMap}
use driftstore.Assoc.Laws.{find-insert}
use driftstore.Clock.{ClockComparison, compare_vector_clocks, equal, dominates}
use driftstore.Clock.Order.{Le, Means, Le_refl}
use driftstore.Clock.Compare.{compare_vector_clocks-Means}
use driftstore.Node.{Node, HeldHint}
use driftstore.Store.{hints_of, put_hint, hold_hint}
use driftstore.Store.Writes.{Comparison-cases}

-- the hint that the node holds for a target's key
unfoldable pub held_hint : Text → Text → Node → Option HeldHint
held_hint target key s = find key (hints_of target s)

pub hints_of-put_hint :
    (target t : Text) (hint : HeldHint) (s : Node)
    → hints_of t (put_hint target hint s)
      ≡ ite (text_dec target t) (insert hint.key hint (hints_of target s)) (hints_of t s)
unfolding put_hint
hints_of-put_hint target t hint s =
    ground
      (arith, find-insert target t (insert hint.key hint (hints_of target s)) s.hints_for_target)

pub held_hint-put_hint :
    (target t k : Text) (hint : HeldHint) (s : Node)
    → held_hint t k (put_hint target hint s)
      ≡ ite
          (text_dec target t)
          (ite (text_dec hint.key k) (some hint) (held_hint t k s))
          (held_hint t k s)
unfolding held_hint
held_hint-put_hint target t k hint s =
    ap (find k) (hints_of-put_hint target t hint s) ∙ looked (text_dec target t)
  where
    looked :
        (d : Dec (target ≡ t))
        → find k (ite d (insert hint.key hint (hints_of target s)) (hints_of t s))
          ≡ ite d
              (ite (text_dec hint.key k) (some hint) (find k (hints_of t s)))
              (find k (hints_of t s))
    looked (yes same) =
        find-insert hint.key k hint (hints_of target s)
        ∙ ap (λ x. ite (text_dec hint.key k) (some hint) (find k (hints_of x s))) same
    looked (no differ) = refl

-- What is held under `target` after the hint `hint` for it arrived.
pub record HintHeld (target : Text) (hint : HeldHint) (s : Node) (s' : Node) : Type 0 where
  pub version : HeldHint
  pub holds : held_hint target hint.key s' ≡ some version
  -- the hint itself, or a held one that has seen it
  pub source : (version ≡ hint) ⊎ (held_hint target hint.key s ≡ some version)
  pub seen : Le hint.clock version.clock
  pub others : (t k : Text) → (target ≢ t) ⊎ (hint.key ≢ k) → held_hint t k s' ≡ held_hint t k s

module _ (target : Text) (hint : HeldHint) (s : Node) where
  HintHeld-put : HintHeld target hint s (put_hint target hint s)
  HintHeld-put = record {
    version = hint;
    holds = rw (held_hint-put_hint, if_pos _ refl, if_pos _ refl) refl;
    source = inl refl;
    seen = Le_refl hint.clock;
    others = λ t k apart. elim apart [
      | inl ne ↦ rw (held_hint-put_hint, if_neg _ ne) refl
      | inr ne ↦ elim (text_dec target t) [
        | yes same ↦ rw (held_hint-put_hint, if_pos _ same, if_neg _ ne) refl
        | no differ ↦ rw (held_hint-put_hint, if_neg _ differ) refl
      ]
    ];
  }

  HintHeld-kept :
      (held : HeldHint)
      → held_hint target hint.key s ≡ some held
      → Le hint.clock held.clock
      → HintHeld target hint s s
  HintHeld-kept held e le = record {
    version = held;
    holds = e;
    source = inr e;
    seen = le;
    others = λ t k apart. refl;
  }

  held_under :
      (hints : Assoc HeldHint) (held : HeldHint)
      → find target s.hints_for_target ≡ some hints
      → find hint.key hints ≡ some held
      → held_hint target hint.key s ≡ some held
  unfolding held_hint
  held_under hints held there e =
      ap (λ o. find hint.key (elim o [ none ↦ [] | some hs ↦ hs ])) there ∙ e

  means :
      (held : HeldHint) (r : ClockComparison)
      → IsMap hint.clock.counters
      → IsMap held.clock.counters
      → compare_vector_clocks held.clock hint.clock ≡ r
      → Means held.clock hint.clock r
  means held r uh u e =
      subst (Means held.clock hint.clock) e (compare_vector_clocks-Means held.clock hint.clock u uh)

  -- Where its clock and the held one's hold no node twice, a hint that arrives is held under its
  -- target and key, or the hint held there stays because it has seen it; the hints of other
  -- targets and other keys are as they were.
  pub hold_hint-HintHeld :
      IsMap hint.clock.counters
      → ((held : HeldHint) → held_hint target hint.key s ≡ some held → IsMap held.clock.counters)
      → HintHeld target hint s (hold_hint target hint s)
  unfolding hold_hint
  hold_hint-HintHeld uh us = elim (Option-cases (find target s.hints_for_target)) [
    | inl gone ↦ rw (gone, hold_hint) HintHeld-put
    | inr (hints, there) ↦ elim (Option-cases (find hint.key hints)) [
      | inl gone ↦ rw (there, hold_hint, gone) HintHeld-put
      | inr (held, e) ↦
          let at_target = held_under hints held there e in
          elim (Comparison-cases held.clock hint.clock) [
            | inl c ↦
                rw (there, hold_hint, e, c)
                  (HintHeld-kept held at_target (means held equal uh (us held at_target) c).1)
            | inr (inl c) ↦
                rw (there, hold_hint, e, c)
                  (HintHeld-kept held at_target (means held dominates uh (us held at_target) c).0)
            | inr (inr (inl c)) ↦ rw (there, hold_hint, e, c) HintHeld-put
            | inr (inr (inr c)) ↦ rw (there, hold_hint, e, c) HintHeld-put
          ]
    ]
  ]
