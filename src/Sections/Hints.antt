-- ===== src/Sections/Hints.antt =====
-- The hints that a node holds, and what its critical sections keep of them.
use driftstore.Prelude.{
  ◌≡◌, ◌⊎◌, refl, true, [], Option, none, some, ite, if_pos, if_neg, Option-cases, inl, inr, sym,
  ap, subst, ◌∙◌,
}
use driftstore.Text.{Text, text_dec}
use driftstore.Assoc.{find, insert, IsMap}
use driftstore.Assoc.Laws.{insert-IsMap}
use driftstore.Node.{Node, HeldHint, ReplicateWriteResponse, stored}
use driftstore.Store.{hints_of, put_hint, hold_hint}
use driftstore.Store.Hints.{held_hint, hints_of-put_hint, held_hint-put_hint}
use driftstore.Store.Writes.{some_inj, none_ne_some, Comparison-cases}
use driftstore.Put.{hold_own_hint}
use driftstore.Reachability.{drop_hint}
use driftstore.Reachability.Delivery.{IsHints, Delivered, drop_hint-Delivered}

-- The hints that a node holds: none twice, each under its own key, and no clock with a node twice.
pub record Holder (s : Node) : Type 0 where
  pub hints : IsHints s
  pub named : (t k : Text) (h : HeldHint) → held_hint t k s ≡ some h → h.key ≡ k
  pub well : (t k : Text) (h : HeldHint) → held_hint t k s ≡ some h → IsMap h.clock.counters

-- no hint is new
abbrev pub Fewer : Node → Node → Type 0
Fewer s s' = (t k : Text) (h : HeldHint) → held_hint t k s' ≡ some h → held_hint t k s ≡ some h

pub Holder-Fewer : (s s' : Node) → Holder s → IsHints s' → Fewer s s' → Holder s'
Holder-Fewer s s' holder hints fewer = record {
  hints = hints;
  named = λ t k h e. holder.named t k h (fewer t k h e);
  well = λ t k h e. holder.well t k h (fewer t k h e);
}

pub Delivered-Fewer :
    (target key : Text) (hint : HeldHint) (answer : Option ReplicateWriteResponse) (s s' : Node)
    → Delivered target key hint answer s s'
    → Fewer s s'
Delivered-Fewer target key hint answer s s' d t k h e = elim (text_dec target t) [
  | no differ ↦ sym (d.others t k (inl differ)) ∙ e
  | yes same ↦ elim (text_dec key k) [
    | no differ ↦ sym (d.others t k (inr differ)) ∙ e
    | yes alike ↦ elim d.fate [
      | inl stays ↦ sym (at_pair same alike stays) ∙ e
      | inr (gone, answered, same_clock) ↦
          absurd (none_ne_some (sym (at_pair_none same alike gone) ∙ e))
    ]
  ]
]
  where
    at_pair :
        target ≡ t
        → key ≡ k
        → held_hint target key s' ≡ held_hint target key s
        → held_hint t k s' ≡ held_hint t k s
    at_pair p q g =
        subst (λ x. held_hint x k s' ≡ held_hint x k s) p
          (subst (λ x. held_hint target x s' ≡ held_hint target x s) q g)

    at_pair_none : target ≡ t → key ≡ k → held_hint target key s' ≡ none → held_hint t k s' ≡ none
    at_pair_none p q g =
        subst (λ x. held_hint x k s' ≡ none) p (subst (λ x. held_hint target x s' ≡ none) q g)

pub no_hints-Holder : (s : Node) → s.hints_for_target ≡ [] → Holder s
unfolding held_hint find
no_hints-Holder s e =
    let listed : (t : Text) → hints_of t s ≡ [] =
      λ t. ap (λ m. elim (find t m) [ none ↦ [] | some hints ↦ hints ]) e in
    let nothing : (t k : Text) → held_hint t k s ≡ none = λ t k. ap (find k) (listed t) in
    record {
      hints = λ t. subst IsMap (sym (listed t)) tt;
      named = λ t k h there. absurd (none_ne_some (sym (nothing t k) ∙ there));
      well = λ t k h there. absurd (none_ne_some (sym (nothing t k) ∙ there));
    }

-- hints that are left alone
pub Holder-same : (s s' : Node) → s'.hints_for_target ≡ s.hints_for_target → Holder s → Holder s'
unfolding held_hint
Holder-same s s' same holder =
    let listed : (t : Text) → hints_of t s' ≡ hints_of t s =
      λ t. ap (λ m. elim (find t m) [ none ↦ [] | some hints ↦ hints ]) same in
    Holder-Fewer s s' holder (λ t. subst IsMap (sym (listed t)) (holder.hints t))
      (λ t k h e. sym (ap (find k) (listed t)) ∙ e)

module _ (target : Text) (hint : HeldHint) (s : Node) where
  -- what holds of the new hint and of the others holds of all
  put_hint-All :
      (Q : Text → HeldHint → Type 0)
      → Q hint.key hint
      → ((t k : Text) (h : HeldHint) → held_hint t k s ≡ some h → Q k h)
      → (t k : Text) (h : HeldHint) → held_hint t k (put_hint target hint s) ≡ some h
      → Q k h
  put_hint-All Q new old t k h e = elim (text_dec target t) [
    | no differ ↦
        old t k h
          (sym (held_hint-put_hint target t k hint s ∙ if_neg (text_dec target t) differ _ _) ∙ e)
    | yes same ↦
        let at_target =
          held_hint-put_hint target t k hint s ∙ if_pos (text_dec target t) same _ _ in
        elim (text_dec hint.key k) [
          | no differ ↦ old t k h (sym (at_target ∙ if_neg (text_dec hint.key k) differ _ _) ∙ e)
          | yes alike ↦
              let it : hint ≡ h =
                some_inj (sym (at_target ∙ if_pos (text_dec hint.key k) alike _ _) ∙ e) in
              subst (λ x. Q x h) alike (subst (Q hint.key) it new)
        ]
  ]

  put_hint-IsHints : IsHints s → IsHints (put_hint target hint s)
  put_hint-IsHints hints t =
      subst IsMap (sym (hints_of-put_hint target t hint s)) (by_target (text_dec target t))
    where
      by_target :
          (d : Dec (target ≡ t))
          → IsMap (ite d (insert hint.key hint (hints_of target s)) (hints_of t s))
      by_target (yes same) = insert-IsMap hint.key hint (hints_of target s) (hints target)
      by_target (no differ) = hints t

  put_hint-Holder : IsMap hint.clock.counters → Holder s → Holder (put_hint target hint s)
  put_hint-Holder well holder = record {
    hints = put_hint-IsHints holder.hints;
    named = put_hint-All (λ k h. h.key ≡ k) refl holder.named;
    well = put_hint-All (λ k h. IsMap h.clock.counters) well holder.well;
  }

  -- a hint that arrives is put there, or nothing changes
  hold_hint_either :
      (hold_hint target hint s ≡ s) ⊎ (hold_hint target hint s ≡ put_hint target hint s)
  unfolding hold_hint
  hold_hint_either = elim (Option-cases (find target s.hints_for_target)) [
    | inl gone ↦ inr (rw (gone, hold_hint) refl)
    | inr (hints, there) ↦ elim (Option-cases (find hint.key hints)) [
      | inl gone ↦ inr (rw (there, hold_hint, gone) refl)
      | inr (held, e) ↦ elim (Comparison-cases held.clock hint.clock) [
        | inl c ↦ inl (rw (there, hold_hint, e, c) refl)
        | inr (inl c) ↦ inl (rw (there, hold_hint, e, c) refl)
        | inr (inr (inl c)) ↦ inr (rw (there, hold_hint, e, c) refl)
        | inr (inr (inr c)) ↦ inr (rw (there, hold_hint, e, c) refl)
      ]
    ]
  ]

  hold_own_hint_either :
      (hold_own_hint target hint s ≡ s) ⊎ (hold_own_hint target hint s ≡ put_hint target hint s)
  unfolding hold_own_hint
  hold_own_hint_either = elim (Option-cases (find target s.hints_for_target)) [
    | inl gone ↦ inr (rw (gone, hold_own_hint) refl)
    | inr (hints, there) ↦ elim (Option-cases (find hint.key hints)) [
      | inl gone ↦ inr (rw (there, hold_own_hint, gone) refl)
      | inr (held, e) ↦ elim (Comparison-cases held.clock hint.clock) [
        | inl c ↦ inl (rw (there, hold_own_hint, e, c) refl)
        | inr (inl c) ↦ inl (rw (there, hold_own_hint, e, c) refl)
        | inr (inr (inl c)) ↦ inr (rw (there, hold_own_hint, e, c) refl)
        | inr (inr (inr c)) ↦ inl (rw (there, hold_own_hint, e, c) refl)
      ]
    ]
  ]

  module _ (well : IsMap hint.clock.counters) (holder : Holder s) where
    either_Holder : (s' : Node) → (s' ≡ s) ⊎ (s' ≡ put_hint target hint s) → Holder s'
    either_Holder s' (inl same) = subst Holder (sym same) holder
    either_Holder s' (inr moved) = subst Holder (sym moved) (put_hint-Holder well holder)

    pub hold_hint-Holder : Holder (hold_hint target hint s)
    hold_hint-Holder = either_Holder (hold_hint target hint s) hold_hint_either

    pub hold_own_hint-Holder : Holder (hold_own_hint target hint s)
    hold_own_hint-Holder = either_Holder (hold_own_hint target hint s) hold_own_hint_either

pub drop_hint-Holder :
    (target key : Text) (hint : HeldHint) (s : Node)
    → Holder s
    → Holder (drop_hint target key hint s)
drop_hint-Holder target key hint s holder =
    let resp : ReplicateWriteResponse = record { success = true; outcome = stored } in
    let d = drop_hint-Delivered target key hint resp s holder.hints refl in
    Holder-Fewer s (drop_hint target key hint s) holder d.hints
      (Delivered-Fewer target key hint (some resp) s (drop_hint target key hint s) d)
