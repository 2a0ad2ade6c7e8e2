-- ===== src/Cluster/Wrote.antt =====
-- src/node_kv.cpp, lines 38-88, in a cluster: what a node that is sent a write keeps.
use driftstore.Prelude.{
  All, ◌≡◌, refl, Bool, true, false, ℤ, none, some, Bool-cases, Option-cases, inl, inr, sym, ap,
  ap₂, subst, ◌∙◌, if◌then◌else◌,
}
use driftstore.Text.{Text, text_dec}
use driftstore.Assoc.{IsMap}
use driftstore.Clock.{VectorClock}
use driftstore.Resolve.{VersionedValue}
use driftstore.Node.{
  Node, HeldHint, ReplicateWriteRequest, ReplicateWriteResponse, already_current, is_self_removed,
}
use driftstore.Store.{
  mark_unreachable, store_replicated_write, hold_hint, accept_write, replicate_write,
}
use driftstore.Store.Writes.{some_inj, none_ne_some, store_replicated_write-Held}
use driftstore.Resolve.Frontier.{IsWell}
use driftstore.Store.Hints.{held_hint, HintHeld, hold_hint-HintHeld}
use driftstore.Sections.Parts.{Quiet, hold_hint-Quiet, Untouched, store_replicated_write-Untouched}
use driftstore.Cluster.Copies.{
  WellNode, HasCopy, HasHint, same_self, same_copies, stored_hints, marked_id, marked_table,
  marked_store, marked_hints,
}

-- What a node that is sent a write of the clock keeps: its copy, its hints for whatever node, and,
-- where it answers success, the write itself or the hint that it was sent.
pub record Wrote (key : Text) (clock : VectorClock) (owner : Text) (is_hint : Bool) (s : Node)
    (s' : Node) (success : Bool) : Type 0 where
  pub well : WellNode s'
  pub copies : HasCopy key clock s → HasCopy key clock s'
  pub hints : (o : Text) → HasHint o key clock s → HasHint o key clock s'
  pub copied : success ≡ true → is_hint ≡ false → HasCopy key clock s'
  pub hinted : success ≡ true → is_hint ≡ true → HasHint owner key clock s'

module _ (key value : Text) (clock : VectorClock) (well_clock : IsMap clock.counters) (owner : Text)
    (now : ℤ) (s : Node) (well : WellNode s) where
  abbrev version : VersionedValue
  version = record { value = value; clock = clock }

  abbrev hint : HeldHint
  hint = record { key = key; value = value; clock = clock; created_at = now }

  -- a node that was removed declines
  Wrote-declined : (is_hint : Bool) → Wrote key clock owner is_hint s s false
  Wrote-declined is_hint = record {
    well = well;
    copies = λ c. c;
    hints = λ o h. h;
    copied = λ e. absurd (let x : ⊥ = cc in x);
    hinted = λ e. absurd (let x : ⊥ = cc in x);
  }

  Wrote-stored :
      is_self_removed s ≡ some false
      → Wrote key clock owner false s (store_replicated_write key version s).0 true
  unfolding Untouched
  Wrote-stored serves =
      let s' = (store_replicated_write key version s).0 in
      let held = store_replicated_write-Held key version s well_clock well.store in
      let (id, table, ring) = store_replicated_write-Untouched key version s in
      let copy : HasCopy key clock s' = record {
        serves = same_self s s' id table ∙ serves;
        version = held.version;
        holds = held.holds;
        seen = held.seen;
      } in
      record {
        well = record {
          store = held.store;
          hints = λ t k h e. well.hints t k h (sym (stored_hints key version s t k) ∙ e);
        };
        copies = λ c. copy;
        hints = λ o h. record {
          hint = h.hint;
          held = stored_hints key version s o key ∙ h.held;
          seen = h.seen;
        };
        copied = λ e f. copy;
        hinted = λ e f. absurd (let x : ⊥ = cc in x);
      }

  -- the hint is held, or one that has seen it
  Wrote-held :
      is_self_removed s ≡ some false
      → Wrote key clock owner true s (hold_hint owner hint (mark_unreachable owner s)) true
  unfolding Quiet Untouched
  Wrote-held serves =
      let s₀ = mark_unreachable owner s in
      let s' = hold_hint owner hint s₀ in
      let end =
        hold_hint-HintHeld owner hint s₀ well_clock
          (λ h e. well.hints owner key h (sym (marked_hints owner s owner key) ∙ e)) in
      let ((id, table, ring), kept) = hold_hint-Quiet owner hint s₀ in
      record {
        well = record {
          store = subst (All (λ e. IsWell e.1)) (sym (kept ∙ marked_store owner s)) well.store;
          hints = λ t k h e. still_well end t k h e;
        };
        copies = λ c. record {
          serves =
              same_self s s' (id ∙ marked_id owner s) (table ∙ marked_table owner s) ∙ c.serves;
          version = c.version;
          holds = same_copies key s s' (kept ∙ marked_store owner s) ∙ c.holds;
          seen = c.seen;
        };
        hints = λ o h. still_hinted end o h;
        copied = λ e f. absurd (let x : ⊥ = cc in x);
        hinted = λ e f. record { hint = end.version; held = end.holds; seen = end.seen };
      }
    where
      still_well :
          HintHeld owner hint
            (mark_unreachable owner s)
            (hold_hint owner hint (mark_unreachable owner s))
          → (t k : Text) (h : HeldHint)
          → held_hint t k (hold_hint owner hint (mark_unreachable owner s)) ≡ some h
          → IsMap h.clock.counters
      still_well end t k h e = elim (text_dec owner t) [
        | no differ ↦
            well.hints t k h
              (sym (marked_hints owner s t k) ∙ sym (end.others t k (inl differ)) ∙ e)
        | yes same ↦ elim (text_dec key k) [
          | no differ ↦
              well.hints t k h
                (sym (marked_hints owner s t k) ∙ sym (end.others t k (inr differ)) ∙ e)
          | yes alike ↦
              let it : end.version ≡ h = some_inj (
                sym end.holds
                ∙ ap₂ (λ a b. held_hint a b (hold_hint owner hint (mark_unreachable owner s))) same
                    alike
                ∙ e) in
              subst (λ x. IsMap x.clock.counters) it
                (elim end.source [
                  | inl new ↦ subst (λ x. IsMap x.clock.counters) (sym new) well_clock
                  | inr old ↦
                      well.hints owner key end.version (sym (marked_hints owner s owner key) ∙ old)
                ])
        ]
      ]

      still_hinted :
          HintHeld owner hint
            (mark_unreachable owner s)
            (hold_hint owner hint (mark_unreachable owner s))
          → (o : Text) → HasHint o key clock s
          → HasHint o key clock (hold_hint owner hint (mark_unreachable owner s))
      still_hinted end o h = elim (text_dec owner o) [
        | yes same ↦
            subst (λ t. HasHint t key clock (hold_hint owner hint (mark_unreachable owner s))) same
              (record { hint = end.version; held = end.holds; seen = end.seen })
        | no differ ↦ record {
          hint = h.hint;
          held = end.others o key (inl differ) ∙ marked_hints owner s o key ∙ h.held;
          seen = h.seen;
        }
      ]

  abbrev request : Bool → ReplicateWriteRequest
  request is_hint = record {
    key = key;
    value = value;
    vector_clock = clock;
    hint_for_node_id = if is_hint then some owner else none;
  }

  -- a handler that returned what is known
  Wrote-returned :
      (is_hint : Bool) (a b : Node × ReplicateWriteResponse)
      → replicate_write (request is_hint) now s ≡ some a
      → replicate_write (request is_hint) now s ≡ some b
      → Wrote key clock owner is_hint s a.0 a.1.success
      → Wrote key clock owner is_hint s b.0 b.1.success
  Wrote-returned is_hint a b p q w =
      subst (λ x. Wrote key clock owner is_hint s x.0 x.1.success) (some_inj (sym p ∙ q)) w

  -- However the node takes the call.
  pub replicate_write-Wrote :
      (is_hint : Bool) (end : Node × ReplicateWriteResponse)
      → replicate_write (request is_hint) now s ≡ some end
      → Wrote key clock owner is_hint s end.0 end.1.success
  unfolding replicate_write accept_write
  replicate_write-Wrote is_hint end e = elim (Option-cases (is_self_removed s)) [
    | inl thrown ↦ absurd (none_ne_some (sym (thrown_lem thrown) ∙ e))
    | inr (gone, known) ↦ elim (Bool-cases gone) [
      | inl yes_gone ↦
          Wrote-returned is_hint (s, record { success = false; outcome = already_current }) end
            (rw (known, replicate_write, yes_gone) refl) e (Wrote-declined is_hint)
      | inr live ↦
          by_kind is_hint end (rw (known, replicate_write, live) refl) (known ∙ ap some live) e
    ]
  ]
    where
      thrown_lem : is_self_removed s ≡ none → replicate_write (request is_hint) now s ≡ none
      thrown_lem thrown = rw (thrown, replicate_write) refl

      by_kind :
          (b : Bool) (end : Node × ReplicateWriteResponse)
          → replicate_write (request b) now s ≡ some (accept_write (request b) now s)
          → is_self_removed s ≡ some false
          → replicate_write (request b) now s ≡ some end
          → Wrote key clock owner b s end.0 end.1.success
      by_kind true end p serves e =
          Wrote-returned true (accept_write (request true) now s) end p e (Wrote-held serves)
      by_kind false end p serves e =
          Wrote-returned false (accept_write (request false) now s) end p e (Wrote-stored serves)
