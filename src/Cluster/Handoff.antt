-- ===== src/Cluster/Handoff.antt =====
-- src/node_reachability.cpp, lines 59-124, in a cluster: a round of the reachability loop, from the
-- pings to the last delivery.
use driftstore.Prelude.{
  ℕ, ◌≡◌, refl, ℤ, Bool, true, false, List, [], ◌∷◌, Option, some, Option-cases, inl, inr, ap,
  subst, ◌∙◌, All, All-map, All-In, In,
}
use driftstore.Text.{Text}
use driftstore.Assoc.{Assoc, find, IsMap}
use driftstore.Assoc.Laws.{IsMap-Found}
use driftstore.Clock.{no_clock}
use driftstore.Node.{Node, HeldHint, PutRequest, PutResponse}
use driftstore.Store.Hints.{held_hint}
use driftstore.Reachability.{
  mark_reachable, deliver_each, deliver_hints, ping_all, revive, reachability_round,
}
use driftstore.Reachability.Delivery.{hints_of-found}
use driftstore.Cluster.{Fate, Cluster, call, cluster_net}
use driftstore.Cluster.Calls.{
  AllWell, CallEnd, untouched, handled, call-CallEnd, Onward-same, Onward-moved,
}
use driftstore.Cluster.Copies.{WellNode, HasCopy, HasHint}
use driftstore.Cluster.Deliveries.{Going, delivery-Going}
use driftstore.Sections.Hints.{Holder}
use driftstore.Store.Writes.{some_inj}

-- the deliveries end in some order, each of a hint that was there
abbrev pub Picks : (Assoc HeldHint → Assoc HeldHint) → Type 0
Picks order = (hs : Assoc HeldHint) → All (λ e. In e hs) (order hs)

module _ (fate : ℕ → Fate) (now : ℕ → ℤ)
    (relay : Text → PutRequest → Cluster → Cluster × Option PutResponse) where
  -- a ping leaves every node as it was
  ping-AllWell :
      (peer : Text) (c : Cluster)
      → AllWell c
      → AllWell ((cluster_net fate now relay).call_ping peer c).0
  unfolding AllWell
  ping-AllWell peer c well =
      by_end (call fate now relay peer (λ s. some (s, tt)) c)
        (call-CallEnd fate now relay peer (λ s. some (s, tt)) c)
    where
      by_end : (r : Cluster × Option Unit) → CallEnd peer (λ s. some (s, tt)) c r → AllWell r.0
      by_end r (untouched same nothing) = (Onward-same [] no_clock c r.0 well same).well
      by_end r (handled s s' a there ran moved back) =
          let it : s ≡ s' = ap (λ x. x.0) (some_inj ran) in
          (Onward-moved [] no_clock peer s s' c r.0 there moved well
            (subst WellNode it (well peer s there))
            (subst (λ x. HasCopy [] no_clock s → HasCopy [] no_clock x) it (λ h. h))
            (λ o. subst (λ x. HasHint o [] no_clock s → HasHint o [] no_clock x) it (λ h. h))).well

  pub ping_all-AllWell :
      (peers : List Text) (c : Cluster)
      → AllWell c
      → AllWell (ping_all (cluster_net fate now relay) peers c).0
  unfolding ping_all
  ping_all-AllWell [] c well = well
  ping_all-AllWell (peer ∷ peers) c well = ping_all-AllWell peers _ (ping-AllWell peer c well)

  module _ (start : Node) (holder : Holder start) (order : Assoc HeldHint → Assoc HeldHint)
      (picks : Picks order) where
    pub deliver_each-Going :
        (target : Text) (hs : Assoc HeldHint) (c : Cluster) (s : Node)
        → All (λ e. held_hint target e.0 start ≡ some e.1) hs
        → Going fate now relay start c s
        → let (c', s') = deliver_each (cluster_net fate now relay) target hs c s in
          Going fate now relay start c' s'
    unfolding deliver_each
    deliver_each-Going target [] c s held going = going
    deliver_each-Going target ((key, hint) ∷ rest) c s held going =
        deliver_each-Going target rest _ _ held.1
          (delivery-Going fate now relay start holder target key hint held.0 c s going)

    -- the hints of a target are those that it has had from the start
    pub listed_held :
        (target : Text) (hs : Assoc HeldHint) (c : Cluster) (s : Node)
        → find target s.hints_for_target ≡ some hs
        → Going fate now relay start c s
        → All (λ e. held_hint target e.0 start ≡ some e.1) (order hs)
    unfolding held_hint
    listed_held target hs c s there going =
        let same = hints_of-found target hs s there in
        let found = IsMap-Found hs (subst IsMap same (going.hints target)) in
        All-map (λ e. In e hs) (λ e. held_hint target e.0 start ≡ some e.1)
          (λ e m.
            going.fewer target e.0 e.1
              (ap (find e.0) same ∙ All-In (λ x. find x.0 hs ≡ some x.1) hs e found m))
          (order hs) (picks hs)

    pub deliver_hints-Going :
        (target : Text) (c : Cluster) (s : Node)
        → Going fate now relay start c s
        → let (c', s') = deliver_hints (cluster_net fate now relay) order target c s in
          Going fate now relay start c' s'
    unfolding deliver_hints
    deliver_hints-Going target c s going = elim (Option-cases (find target s.hints_for_target)) [
      | inl nothing ↦ rw (nothing, deliver_hints) going
      | inr (hs, there) ↦
          rw (there, deliver_hints)
            (deliver_each-Going target (order hs) c s (listed_held target hs c s there going) going)
    ]

    pub marked-Going :
        (peer : Text) (c : Cluster) (s : Node)
        → Going fate now relay start c s
        → Going fate now relay start c (mark_reachable peer s)
    unfolding mark_reachable held_hint
    marked-Going peer c s going = record {
      well = going.well;
      hints = going.hints;
      fewer = going.fewer;
      store = going.store;
      kept = going.kept;
    }

    revive-Going :
        (answers : List (Text × Bool)) (c : Cluster) (s : Node)
        → Going fate now relay start c s
        → let (c', s') = revive (cluster_net fate now relay) order answers c s in
          Going fate now relay start c' s'
    unfolding revive
    revive-Going [] c s going = going
    revive-Going ((peer, false) ∷ rest) c s going = revive-Going rest c s going
    revive-Going ((peer, true) ∷ rest) c s going =
        revive-Going rest _ _ (deliver_hints-Going peer c _ (marked-Going peer c s going))

    -- Where no clock that a node keeps holds a node twice, and the node holds no two hints for one
    -- target and key and each hint under its own key, a round of the reachability loop, whichever
    -- calls are lost and in whichever order its deliveries end, loses no hint: each is held still,
    -- or the node that it is for answers reads with a version that has seen the hint's clock. No
    -- hint is new, and the store of the node is as it was.
    pub reachability_round-Going :
        (c : Cluster)
        → AllWell c
        → let (c', s') = reachability_round (cluster_net fate now relay) order c start in
          Going fate now relay start c' s'
    unfolding reachability_round
    reachability_round-Going c well =
        revive-Going (ping_all (cluster_net fate now relay) start.unreachable_peers c).1
          (ping_all (cluster_net fate now relay) start.unreachable_peers c).0 start
          (record {
            well = ping_all-AllWell start.unreachable_peers c well;
            hints = holder.hints;
            fewer = λ t k h e. e;
            store = refl;
            kept = λ t k h e. inl e;
          })
