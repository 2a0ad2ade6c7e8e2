-- ===== src/Reachability/Delivery.antt =====
-- What the delivery of hints may drop: a hint whose delivery succeeded, and no other.
use driftstore.Prelude.{
  ◌≡◌, ◌≢◌, refl, Bool, true, [], Option, none, some, ite, if_pos, if_neg, arith, Bool-cases,
  Option-cases, ◌⊎◌, inl, inr, sym, ap, subst, ◌∙◌, if◌then◌else◌,
}
use driftstore.Text.{Text, text_dec}
use driftstore.Assoc.{Assoc, find, insert, erase, IsMap}
use driftstore.Assoc.Laws.{find-insert, find-erase, erase-IsMap}
use driftstore.Clock.{compare_vector_clocks, equal}
use driftstore.Node.{Node, HeldHint, ReplicateWriteResponse}
use driftstore.Store.{mark_unreachable, hints_of}
use driftstore.Store.Writes.{Comparison-cases, none_ne_some}
use driftstore.Store.Hints.{held_hint}
use driftstore.Reachability.{drop_hint, take_delivery}

-- no key twice among a target's hints
abbrev pub IsHints : Node → Type 0
IsHints s = (t : Text) → IsMap (hints_of t s)

-- a node whose hints for a target are replaced
with_hints : Text → Assoc HeldHint → Node → Node
with_hints target hints s = record s { hints_for_target = insert target hints s.hints_for_target }

hints_of-with_hints :
    (target t : Text) (hints : Assoc HeldHint) (s : Node)
    → hints_of t (with_hints target hints s) ≡ ite (text_dec target t) hints (hints_of t s)
unfolding with_hints
hints_of-with_hints target t hints s = ground (arith, find-insert target t hints s.hints_for_target)

-- What may have become of the hints after the answer to the delivery of `hint`.
pub record Delivered (target : Text) (key : Text) (hint : HeldHint)
    (answer : Option ReplicateWriteResponse) (s : Node) (s' : Node) : Type 0 where
  pub store : s'.kv_store ≡ s.kv_store
  pub hints : IsHints s'
  pub others : (t k : Text) → (target ≢ t) ⊎ (key ≢ k) → held_hint t k s' ≡ held_hint t k s
  -- the hint stays, unless its delivery succeeded and it is still the one that was delivered
  pub fate :
      (held_hint target key s' ≡ held_hint target key s)
      ⊎ ((held_hint target key s' ≡ none)
          × ((resp : ReplicateWriteResponse) × (answer ≡ some resp) × (resp.success ≡ true))
          × ((held : HeldHint) × (held_hint target key s ≡ some held)
              × (compare_vector_clocks held.clock hint.clock ≡ equal)))

module _ (target key : Text) (hint : HeldHint) (answer : Option ReplicateWriteResponse) (s : Node)
    (wells : IsHints s) where
  Delivered-kept : Delivered target key hint answer s s
  Delivered-kept = record {
    store = refl;
    hints = wells;
    others = λ t k apart. refl;
    fate = inl refl;
  }

  Delivered-marked : (peer : Text) → Delivered target key hint answer s (mark_unreachable peer s)
  unfolding mark_unreachable held_hint
  Delivered-marked peer = record {
    store = refl;
    hints = wells;
    others = λ t k apart. refl;
    fate = inl refl;
  }

  Delivered-dropped :
      (resp : ReplicateWriteResponse)
      → answer ≡ some resp
      → resp.success ≡ true
      → (held : HeldHint) → held_hint target key s ≡ some held
      → compare_vector_clocks held.clock hint.clock ≡ equal
      → Delivered target key hint answer s (with_hints target (erase key (hints_of target s)) s)
  unfolding held_hint
  Delivered-dropped resp ok success held at same = record {
    store = unfold with_hints in refl;
    hints = λ t. subst IsMap (sym (looked t)) (by_target t (text_dec target t));
    others = λ t k apart. ap (find k) (looked t) ∙ apart_from t k apart (text_dec target t);
    fate = inr (
      ap (find key) (looked target)
          ∙ ap (find key) (if_pos (text_dec target target) refl _ _)
          ∙ find-erase key key (hints_of target s) (wells target)
          ∙ if_pos (text_dec key key) refl _ _,
      (resp, ok, success),
      (held, at, same),
    );
  }
    where
      looked :
          (t : Text)
          → hints_of t (with_hints target (erase key (hints_of target s)) s)
            ≡ ite (text_dec target t) (erase key (hints_of target s)) (hints_of t s)
      looked t = hints_of-with_hints target t (erase key (hints_of target s)) s

      by_target :
          (t : Text) (d : Dec (target ≡ t))
          → IsMap (ite d (erase key (hints_of target s)) (hints_of t s))
      by_target t (yes e) = erase-IsMap key (hints_of target s) (wells target)
      by_target t (no e) = wells t

      apart_from :
          (t k : Text)
          → (target ≢ t) ⊎ (key ≢ k)
          → (d : Dec (target ≡ t))
          → find k (ite d (erase key (hints_of target s)) (hints_of t s)) ≡ find k (hints_of t s)
      apart_from t k (inl ne) (yes e) = absurd (ne e)
      apart_from t k (inr ne) (yes e) =
          find-erase key k (hints_of target s) (wells target)
          ∙ if_neg (text_dec key k) ne _ _
          ∙ ap (λ x. find k (hints_of x s)) e
      apart_from t k apart (no e) = refl

pub hints_of-found :
    (target : Text) (hints : Assoc HeldHint) (s : Node)
    → find target s.hints_for_target ≡ some hints
    → hints_of target s ≡ hints
hints_of-found target hints s there =
    let or_empty : Option (Assoc HeldHint) → Assoc HeldHint =
      λ o. elim o [ none ↦ [] | some hs ↦ hs ] in
    ap or_empty there

pub drop_hint-Delivered :
    (target key : Text) (hint : HeldHint) (resp : ReplicateWriteResponse) (s : Node)
    → IsHints s
    → resp.success ≡ true
    → Delivered target key hint (some resp) s (drop_hint target key hint s)
unfolding drop_hint with_hints held_hint
drop_hint-Delivered target key hint resp s wells ok =
    elim (Option-cases (find target s.hints_for_target)) [
      | inl gone ↦ rw (gone, drop_hint) (Delivered-kept target key hint (some resp) s wells)
      | inr (hints, there) ↦ elim (Option-cases (find key hints)) [
        | inl gone ↦
            rw (there, drop_hint, gone) (Delivered-kept target key hint (some resp) s wells)
        | inr (held, e) ↦
            let same = hints_of-found target hints s there in
            let at : held_hint target key s ≡ some held = ap (find key) same ∙ e in
            elim (Comparison-cases held.clock hint.clock) [
              | inl c ↦
                  rw (there, drop_hint, e, c)
                    (subst
                      (λ hs.
                        Delivered target key hint (some resp) s
                          (with_hints target (erase key hs) s))
                      same
                      (Delivered-dropped target key hint (some resp) s wells resp refl ok held at
                        c))
              | inr (inl c) ↦
                  rw (there, drop_hint, e, c) (Delivered-kept target key hint (some resp) s wells)
              | inr (inr (inl c)) ↦
                  rw (there, drop_hint, e, c) (Delivered-kept target key hint (some resp) s wells)
              | inr (inr (inr c)) ↦
                  rw (there, drop_hint, e, c) (Delivered-kept target key hint (some resp) s wells)
            ]
      ]
    ]

-- A hint whose delivery succeeded is gone, if it is held still.
pub take_delivery_gone :
    (target key : Text) (hint : HeldHint) (resp : ReplicateWriteResponse) (s : Node)
    → IsHints s
    → resp.success ≡ true
    → held_hint target key s ≡ some hint
    → compare_vector_clocks hint.clock hint.clock ≡ equal
    → held_hint target key (take_delivery target key hint (some resp) s) ≡ none
unfolding held_hint take_delivery drop_hint find with_hints
take_delivery_gone target key hint resp s wells ok held same =
    elim (Option-cases (find target s.hints_for_target)) [
      | inl nothing ↦
          let or_empty : Option (Assoc HeldHint) → Assoc HeldHint =
            λ o. elim o [ none ↦ [] | some hs ↦ hs ] in
          absurd (none_ne_some (sym (ap (λ o. find key (or_empty o)) nothing) ∙ held))
      | inr (hints, there) ↦
          let listed = hints_of-found target hints s there in
          let e : find key hints ≡ some hint = ap (find key) (sym listed) ∙ held in
          let dropped : drop_hint target key hint s ≡ with_hints target (erase key hints) s =
            rw (there, drop_hint, e, same) refl in
          rw ok (
            ap (held_hint target key) dropped
            ∙ ap (find key) (hints_of-with_hints target target (erase key hints) s)
            ∙ ap (find key) (if_pos (text_dec target target) refl _ _)
            ∙ find-erase key key hints (subst IsMap listed (wells target))
            ∙ if_pos (text_dec key key) refl _ _)
    ]

-- Where no target has two hints for one key, what the node stores and its other hints are after
-- the answer to a delivery as they were before; the hint itself is dropped only where the
-- delivery succeeded and the hint that is held has the clock of the one delivered.
pub take_delivery-Delivered :
    (target key : Text) (hint : HeldHint) (answer : Option ReplicateWriteResponse) (s : Node)
    → IsHints s
    → Delivered target key hint answer s (take_delivery target key hint answer s)
unfolding take_delivery
take_delivery-Delivered target key hint none s wells =
    Delivered-marked target key hint none s wells target
take_delivery-Delivered target key hint (some resp) s wells = elim (Bool-cases resp.success) [
  | inl ok ↦ by_success ok (drop_hint-Delivered target key hint resp s wells ok)
  | inr failed ↦ by_success failed (Delivered-kept target key hint (some resp) s wells)
]
  where
    by_success :
        {b : Bool}
        → resp.success ≡ b
        → Delivered target key hint (some resp) s (if b then drop_hint target key hint s else s)
        → Delivered target key hint
            (some resp)
            s
            (if resp.success then drop_hint target key hint s else s)
    by_success e d =
        subst
          (λ x.
            Delivered target key hint (some resp) s (if x then drop_hint target key hint s else s))
          (sym e) d
