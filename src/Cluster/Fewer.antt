-- ===== src/Cluster/Fewer.antt =====
-- src/node_reachability.cpp, lines 59-124, in a cluster: no round makes a hint, and a member that
-- answers stays one that does.
use driftstore.Prelude.{
  ℕ, ◌≡◌, ℤ, Bool, true, false, List, [], ◌∷◌, Option, none, Option-cases, inl, inr, sym, ◌∙◌,
}
use driftstore.Text.{Text}
use driftstore.Assoc.{Assoc, find}
use driftstore.Node.{Node, HeldHint, PutRequest, PutResponse}
use driftstore.Store.Hints.{held_hint}
use driftstore.Store.Writes.{none_ne_some}
use driftstore.Reachability.{mark_reachable, deliver_each, deliver_hints, revive}
use driftstore.Reachability.Delivery.{IsHints, take_delivery-Delivered}
use driftstore.Cluster.{Fate, Cluster, cluster_net}
use driftstore.Cluster.Deliveries.{delivery}
use driftstore.Sections.Hints.{Fewer, Delivered-Fewer}
use driftstore.Cluster.Live.{Live, delivery-Live}

abbrev pub Gone : Text → Text → Node → Type 0
Gone t k s = held_hint t k s ≡ none

pub Gone-Fewer : (t k : Text) (s s' : Node) → Fewer s s' → Gone t k s → Gone t k s'
Gone-Fewer t k s s' fewer gone = elim (Option-cases (held_hint t k s')) [
  | inl nothing ↦ nothing
  | inr (h, e) ↦ absurd (none_ne_some (sym gone ∙ fewer t k h e))
]

module _ (fate : ℕ → Fate) (now : ℕ → ℤ)
    (relay : Text → PutRequest → Cluster → Cluster × Option PutResponse) where
  pub deliver_each-Fewer :
      (target : Text) (hs : Assoc HeldHint) (c : Cluster) (s : Node)
      → IsHints s
      → let s' = (deliver_each (cluster_net fate now relay) target hs c s).1 in
        IsHints s' × Fewer s s'
  unfolding deliver_each
  deliver_each-Fewer target [] c s hints = (hints, λ t k h e. e)
  deliver_each-Fewer target ((key, hint) ∷ rest) c s hints =
      let answer = (delivery fate now relay target hint c).1 in
      let d = take_delivery-Delivered target key hint answer s hints in
      let (hints', fewer) = deliver_each-Fewer target rest _ _ d.hints in
      (hints', λ t k h e. Delivered-Fewer target key hint answer s _ d t k h (fewer t k h e))

  deliver_each-Live :
      (target : Text) (hs : Assoc HeldHint) (c : Cluster) (s : Node) (n : Text)
      → Live n c
      → Live n (deliver_each (cluster_net fate now relay) target hs c s).0
  unfolding deliver_each
  deliver_each-Live target [] c s n live = live
  deliver_each-Live target ((key, hint) ∷ rest) c s n live =
      deliver_each-Live target rest _ _ n (delivery-Live fate now relay target hint c n live)

  module _ (order : Assoc HeldHint → Assoc HeldHint) where
    pub deliver_hints-Fewer :
        (target : Text) (c : Cluster) (s : Node)
        → IsHints s
        → let s' = (deliver_hints (cluster_net fate now relay) order target c s).1 in
          IsHints s' × Fewer s s'
    unfolding deliver_hints
    deliver_hints-Fewer target c s hints = elim (Option-cases (find target s.hints_for_target)) [
      | inl nothing ↦ rw (nothing, deliver_hints) (hints, λ t k h e. e)
      | inr (hs, there) ↦ rw (there, deliver_hints) (deliver_each-Fewer target (order hs) c s hints)
    ]

    pub deliver_hints-Live :
        (target : Text) (c : Cluster) (s : Node) (n : Text)
        → Live n c
        → Live n (deliver_hints (cluster_net fate now relay) order target c s).0
    unfolding deliver_hints
    deliver_hints-Live target c s n live = elim (Option-cases (find target s.hints_for_target)) [
      | inl nothing ↦ rw (nothing, deliver_hints) live
      | inr (hs, there) ↦ rw (there, deliver_hints) (deliver_each-Live target (order hs) c s n live)
    ]

    pub revive-Fewer :
        (answers : List (Text × Bool)) (c : Cluster) (s : Node)
        → IsHints s
        → Fewer s (revive (cluster_net fate now relay) order answers c s).1
    unfolding revive mark_reachable held_hint
    revive-Fewer [] c s hints = λ t k h e. e
    revive-Fewer ((peer, false) ∷ rest) c s hints = revive-Fewer rest c s hints
    revive-Fewer ((peer, true) ∷ rest) c s hints =
        let (hints', fewer) = deliver_hints-Fewer peer c (mark_reachable peer s) hints in
        λ t k h e. fewer t k h (revive-Fewer rest _ _ hints' t k h e)
