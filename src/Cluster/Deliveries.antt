-- ===== src/Cluster/Deliveries.antt =====
-- src/node_reachability.cpp, lines 80-124, in a cluster: what the delivery of one hint leaves of the
-- hints of the node that sends it and of the copies of the nodes that take it.
use driftstore.Prelude.{
  ℕ, ◌≡◌, ◌≢◌, ◌⊎◌, refl, ℤ, false, Option, some, inl, inr, sym, ap, subst, ◌∙◌,
}
use driftstore.Text.{Text, text_dec}
use driftstore.Assoc.{find, IsMap}
use driftstore.Clock.{VectorClock}
use driftstore.Node.{Node, HeldHint, PutRequest, PutResponse, ReplicateWriteResponse}
use driftstore.Store.{replicate_write}
use driftstore.Store.Writes.{some_inj}
use driftstore.Store.Hints.{held_hint}
use driftstore.Reachability.{delivery_request, take_delivery}
use driftstore.Reachability.Delivery.{IsHints, Delivered, take_delivery-Delivered}
use driftstore.Cluster.{Fate, Cluster, cluster_net}
use driftstore.Cluster.Copies.{HasCopy}
use driftstore.Cluster.Calls.{
  AllWell, CopyAt, CallEnd, untouched, handled, call-CallEnd, found_self, found_other, Written,
  write-Written,
}
use driftstore.Cluster.Handed.{Kept, other_key-HasCopy}
use driftstore.Sections.Hints.{Holder, Fewer, Delivered-Fewer}

module _ (fate : ℕ → Fate) (now : ℕ → ℤ)
    (relay : Text → PutRequest → Cluster → Cluster × Option PutResponse) where
  -- the call of a delivery
  abbrev pub delivery : Text → HeldHint → Cluster → Cluster × Option ReplicateWriteResponse
  delivery target hint c =
      (cluster_net fate now relay).call_replicate_write target (delivery_request hint) c

  -- a delivery to one node, or of one key, leaves the copies of the others
  delivery-CopyAt :
      (target : Text) (hint : HeldHint) (c : Cluster) (t k : Text) (clock : VectorClock)
      → AllWell c
      → IsMap hint.clock.counters
      → (target ≢ t) ⊎ (hint.key ≢ k)
      → CopyAt k clock t c
      → CopyAt k clock t (delivery target hint c).0
  unfolding AllWell
  delivery-CopyAt target hint c t k clock well fine apart (x, there, copy) =
      by_end
        (call-CallEnd fate now relay target
          (λ s. replicate_write (delivery_request hint) (now c.tick) s) c)
        apart
    where
      by_end :
          CallEnd target
            (λ s. replicate_write (delivery_request hint) (now c.tick) s)
            c
            (delivery target hint c)
          → (target ≢ t) ⊎ (hint.key ≢ k)
          → CopyAt k clock t (delivery target hint c).0
      by_end (untouched same nothing) apart = (x, ap (find t) same ∙ there, copy)
      by_end (handled s s' a at ran moved back) apart = elim (text_dec target t) [
        | no differ ↦ (
          x,
          found_other k clock target s s' c (delivery target hint c).0 at moved t differ ∙ there,
          copy,
        )
        | yes same ↦
            let it : x ≡ s = some_inj (sym there ∙ ap (λ n. find n c.members) (sym same) ∙ at) in
            let ne : hint.key ≢ k = elim apart [
              | inl differ ↦ absurd (differ same)
              | inr ne ↦ ne
            ] in
            (
              s',
              ap (λ n. find n (delivery target hint c).0.members) (sym same)
                  ∙ found_self k clock target s s' c (delivery target hint c).0 at moved,
              other_key-HasCopy k clock hint (now c.tick) s (s', a) (well target s at) fine ne ran
                  (subst (HasCopy k clock) it copy),
            )
      ]

  -- Where the deliveries of the hints of `start` have come to: a hint is held, or its write is at
  -- the node that it is for.
  pub record Going (start : Node) (c : Cluster) (s : Node) : Type 0 where
    pub well : AllWell c
    pub hints : IsHints s
    pub fewer : Fewer start s
    pub store : s.kv_store ≡ start.kv_store
    pub kept : (t k : Text) (h : HeldHint) → held_hint t k start ≡ some h → Kept t k h c s

  module _ (start : Node) (holder : Holder start) (target key : Text) (hint : HeldHint)
      (held : held_hint target key start ≡ some hint) (c : Cluster) (s : Node)
      (going : Going start c s) where
    abbrev called : Cluster × Option ReplicateWriteResponse
    called = delivery target hint c

    abbrev taken : Node
    taken = take_delivery target key hint called.1 s

    delivered : Delivered target key hint called.1 s taken
    delivered = take_delivery-Delivered target key hint called.1 s going.hints

    written :
        Written fate now relay hint.key hint.value hint.clock
          (holder.well target key hint held)
          target
          target
          false
          c
          going.well
          called
    written =
        write-Written fate now relay hint.key hint.value hint.clock
          (holder.well target key hint held) target target false c going.well

    by_key : (c' : Cluster) → CopyAt hint.key hint.clock target c' → CopyAt key hint.clock target c'
    by_key c' = subst (λ k. CopyAt k hint.clock target c') (holder.named target key hint held)

    -- the hint that was delivered
    same-Kept : Kept target key hint c s → Kept target key hint called.0 taken
    same-Kept (inr copy) = inr (
        by_key called.0 (
          written.onward.copies target (
            subst (λ k. CopyAt k hint.clock target c) (sym (holder.named target key hint held))
              copy)))
    same-Kept (inl here) = elim delivered.fate [
      | inl stays ↦ inl (stays ∙ here)
      | inr (gone, (resp, ok, success), same_clock) ↦
          inr (by_key called.0 (written.copied resp ok success refl))
    ]

    -- and another one
    other-Kept :
        (t k : Text) (h : HeldHint)
        → (target ≢ t) ⊎ (key ≢ k)
        → Kept t k h c s
        → Kept t k h called.0 taken
    other-Kept t k h apart (inl here) = inl (delivered.others t k apart ∙ here)
    other-Kept t k h apart (inr copy) = inr (
        delivery-CopyAt target hint c t k h.clock going.well (holder.well target key hint held)
          (elim apart [
            | inl ne ↦ inl ne
            | inr ne ↦ inr (λ e. ne (sym (holder.named target key hint held) ∙ e))
          ])
          copy)

    pub delivery-Going : Going start called.0 taken
    delivery-Going = record {
      well = written.onward.well;
      hints = delivered.hints;
      fewer = λ t k h e.
          going.fewer t k h (Delivered-Fewer target key hint called.1 s taken delivered t k h e);
      store = delivered.store ∙ going.store;
      kept = λ t k h e. elim (text_dec target t) [
        | no differ ↦ other-Kept t k h (inl differ) (going.kept t k h e)
        | yes same ↦ elim (text_dec key k) [
          | no differ ↦ other-Kept t k h (inr differ) (going.kept t k h e)
          | yes alike ↦ moved t k h same alike e (going.kept t k h e)
        ]
      ];
    }
      where
        moved :
            (t k : Text) (h : HeldHint)
            → target ≡ t
            → key ≡ k
            → held_hint t k start ≡ some h
            → Kept t k h c s
            → Kept t k h called.0 taken
        moved t k h same alike e =
            let it : hint ≡ h = some_inj (
              sym held
              ∙ ap (λ x. held_hint x key start) same
              ∙ ap (λ x. held_hint t x start) alike
              ∙ e) in
            subst (λ x. Kept x k h c s → Kept x k h called.0 taken) same
              (subst (λ x. Kept target x h c s → Kept target x h called.0 taken) alike
                (subst (λ x. Kept target key x c s → Kept target key x called.0 taken) it
                  same-Kept))
