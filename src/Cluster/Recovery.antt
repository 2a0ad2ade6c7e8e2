-- ===== src/Cluster/Recovery.antt =====
-- src/node_reachability.cpp, lines 59-124, in a cluster that loses no call: a node that is back gets
-- all that was held for it.
use driftstore.Prelude.{
  ℕ, ◌≡◌, refl, ℤ, Bool, true, false, List, [], ◌∷◌, Option, none, some, Option-cases, inl, inr,
  sym, ap, subst, ◌∙◌, All, All-of_In, In,
}
use driftstore.Text.{Text}
use driftstore.Assoc.{Assoc, find}
use driftstore.Assoc.Laws.{All-find}
use driftstore.Clock.Order.{Le_refl}
use driftstore.Clock.Compare.{compare_vector_clocks_of_Means}
use driftstore.Node.{Node, HeldHint, PutRequest, PutResponse}
use driftstore.Store.Hints.{held_hint}
use driftstore.Store.Writes.{some_inj, none_ne_some}
use driftstore.Reachability.{
  mark_reachable, take_delivery, deliver_each, deliver_hints, ping_all, revive, reachability_round,
}
use driftstore.Reachability.Delivery.{hints_of-found, take_delivery_gone, take_delivery-Delivered}
use driftstore.Cluster.{Fate, arrives, Cluster, cluster_net}
use driftstore.Cluster.Calls.{AllWell, CopyAt}
use driftstore.Cluster.Deliveries.{Going, delivery, delivery-Going}
use driftstore.Sections.Hints.{Holder, Delivered-Fewer}
use driftstore.Cluster.Handoff.{
  Picks, ping_all-AllWell, listed_held, deliver_hints-Going, marked-Going, reachability_round-Going,
}
use driftstore.Cluster.Live.{Live, delivery-Live, delivery_succeeds, ping_all_answered}
use driftstore.Cluster.Fewer.{
  Gone, Gone-Fewer, deliver_each-Fewer, deliver_hints-Fewer, deliver_hints-Live, revive-Fewer,
}

unlisted :
    (target k : Text) (s : Node)
    → find target s.hints_for_target ≡ none
    → held_hint target k s ≡ none
unfolding held_hint find
unlisted target k s e = ap (λ o. find k (elim o [ none ↦ [] | some hs ↦ hs ])) e

listed :
    (target k : Text) (h : HeldHint) (hs : Assoc HeldHint) (s : Node)
    → find target s.hints_for_target ≡ some hs
    → held_hint target k s ≡ some h
    → find k hs ≡ some h
unfolding held_hint
listed target k h hs s there held = ap (find k) (sym (hints_of-found target hs s there)) ∙ held

-- each hint that was there is delivered
abbrev pub Covers : (Assoc HeldHint → Assoc HeldHint) → Type 0
Covers order = (hs : Assoc HeldHint) (e : Text × HeldHint) → In e hs → In e (order hs)

module _ (fate : ℕ → Fate) (now : ℕ → ℤ)
    (relay : Text → PutRequest → Cluster → Cluster × Option PutResponse) where
  module _ (all_arrive : (tick : ℕ) → fate tick ≡ arrives) (start : Node) (holder : Holder start)
      (order : Assoc HeldHint → Assoc HeldHint) (picks : Picks order) (covers : Covers order) where
    -- the delivered hint is gone
    take-Gone :
        (target key : Text) (hint : HeldHint) (c : Cluster) (s : Node)
        → held_hint target key start ≡ some hint
        → Live target c
        → Going fate now relay start c s
        → Gone target key
            (take_delivery target key hint (delivery fate now relay target hint c).1 s)
    take-Gone target key hint c s held live going =
        let answer = (delivery fate now relay target hint c).1 in
        let (resp, answered, ok) = delivery_succeeds fate now relay all_arrive target hint c live in
        elim (Option-cases (held_hint target key s)) [
          | inl nothing ↦
              Gone-Fewer target key s (take_delivery target key hint answer s)
                (Delivered-Fewer target key hint answer s _
                  (take_delivery-Delivered target key hint answer s going.hints))
                nothing
          | inr (h, there) ↦
              let it : h ≡ hint = some_inj (sym (going.fewer target key h there) ∙ held) in
              subst (λ a. Gone target key (take_delivery target key hint a s)) (sym answered)
                (take_delivery_gone target key hint resp s going.hints ok (there ∙ ap some it) (
                  compare_vector_clocks_of_Means hint.clock hint.clock
                    (holder.well target key hint held) (holder.well target key hint held)
                    (Le_refl hint.clock, Le_refl hint.clock)))
        ]

    deliver_each-Gone :
        (target : Text) (hs : Assoc HeldHint) (c : Cluster) (s : Node) (k : Text) (h : HeldHint)
        → All (λ e. held_hint target e.0 start ≡ some e.1) hs
        → Live target c
        → Going fate now relay start c s
        → In (k, h) hs
        → Gone target k (deliver_each (cluster_net fate now relay) target hs c s).1
    unfolding deliver_each
    deliver_each-Gone target [] c s k h held live going m = elim m [ ]
    deliver_each-Gone target ((key, hint) ∷ rest) c s k h held live going m =
        let after = delivery-Going fate now relay start holder target key hint held.0 c s going in
        elim m [
          | inl same ↦
              Gone-Fewer target k _ _
                (deliver_each-Fewer fate now relay target rest _ _ after.hints).1
                (subst
                  (λ x.
                    Gone target x
                      (take_delivery target key hint (delivery fate now relay target hint c).1 s))
                  (sym (ap (λ e. e.0) same)) (take-Gone target key hint c s held.0 live going))
          | inr m' ↦
              deliver_each-Gone target rest _ _ k h held.1
                (delivery-Live fate now relay target hint c target live) after m'
        ]

    deliver_hints-Gone :
        (target : Text) (c : Cluster) (s : Node) (k : Text)
        → Live target c
        → Going fate now relay start c s
        → Gone target k (deliver_hints (cluster_net fate now relay) order target c s).1
    unfolding deliver_hints
    deliver_hints-Gone target c s k live going = elim (Option-cases (held_hint target k s)) [
      | inl nothing ↦
          Gone-Fewer target k s _
            (deliver_hints-Fewer fate now relay order target c s going.hints).1 nothing
      | inr (h, held) ↦ elim (Option-cases (find target s.hints_for_target)) [
        | inl missing ↦ absurd (none_ne_some (sym (unlisted target k s missing) ∙ held))
        | inr (hs, there) ↦
            rw (there, deliver_hints)
              (deliver_each-Gone target (order hs) c s k h
                (listed_held fate now relay start holder order picks target hs c s there going) live
                going
                (covers hs (k, h)
                  (All-find (λ n x. In (n, x) hs) hs (All-of_In (λ e. In e hs) hs (λ e m. m)) k h
                    (listed target k h hs s there held))))
      ]
    ]

    revive-Gone :
        (answers : List (Text × Bool)) (c : Cluster) (s : Node) (n k : Text)
        → Live n c
        → Going fate now relay start c s
        → In (n, true) answers
        → Gone n k (revive (cluster_net fate now relay) order answers c s).1
    unfolding revive
    revive-Gone [] c s n k live going m = elim m [ ]
    revive-Gone ((peer, false) ∷ rest) c s n k live going (inl same) =
        let bad : true ≡ false = ap (λ e. e.1) same in absurd (let x : ⊥ = cc in x)
    revive-Gone ((peer, false) ∷ rest) c s n k live going (inr m) =
        revive-Gone rest c s n k live going m
    revive-Gone ((peer, true) ∷ rest) c s n k live going (inl same) =
        let marked = marked-Going fate now relay start holder order picks peer c s going in
        let after = deliver_hints-Going fate now relay start holder order picks peer c _ marked in
        let p : n ≡ peer = ap (λ e. e.0) same in
        Gone-Fewer n k _ _ (revive-Fewer fate now relay order rest _ _ after.hints) (
          subst
            (λ x.
              Gone x k
                (deliver_hints (cluster_net fate now relay) order peer c (mark_reachable peer s)).1)
            (sym p) (deliver_hints-Gone peer c _ k (subst (λ x. Live x c) p live) marked))
    revive-Gone ((peer, true) ∷ rest) c s n k live going (inr m) =
        let marked = marked-Going fate now relay start holder order picks peer c s going in
        revive-Gone rest _ _ n k (deliver_hints-Live fate now relay order peer c _ n live)
          (deliver_hints-Going fate now relay start holder order picks peer c _ marked) m

    -- Where no call is lost, every hint is delivered, no clock that a node keeps holds a node twice,
    -- and the node holds no two hints for one target and key and each hint under its own key, a round
    -- of the reachability loop hands over each hint that is held for an unreachable peer that is a
    -- member again and was not removed: the hint is dropped, and none takes its place, and the peer
    -- answers reads with a version that has seen the hint's clock.
    pub reachability_round_recovers :
        (c : Cluster) (n k : Text) (h : HeldHint)
        → AllWell c
        → In n start.unreachable_peers
        → Live n c
        → held_hint n k start ≡ some h
        → let (c', s') = reachability_round (cluster_net fate now relay) order c start in
          (held_hint n k s' ≡ none) × CopyAt k h.clock n c'
    unfolding reachability_round
    reachability_round_recovers c n k h well marked live held =
        let net = cluster_net fate now relay in
        let (after, answered) =
          ping_all_answered fate now relay all_arrive start.unreachable_peers c n live in
        let going : Going fate now relay start (ping_all net start.unreachable_peers c).0 start =
          record {
            well = ping_all-AllWell fate now relay start.unreachable_peers c well;
            hints = holder.hints;
            fewer = λ t k h e. e;
            store = refl;
            kept = λ t k h e. inl e;
          } in
        let gone =
          revive-Gone (ping_all net start.unreachable_peers c).1 _ start n k after going
            (answered marked) in
        (
          gone,
          elim ((reachability_round-Going fate now relay start holder order picks c well).kept n k h
              held) [ inl still ↦ absurd (none_ne_some (sym gone ∙ still)) | inr copy ↦ copy ],
        )
