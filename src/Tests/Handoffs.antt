-- ===== src/Tests/Handoffs.antt =====
-- A node that hands a hint over to the node that comes back.
use driftstore.Prelude.{
  ℕ, pos, [], ◌∷◌, Option, none, some, ite, ◌≡◌, refl, All-of_In, In, inl, ap, sym, subst, ◌∙◌,
}
use driftstore.Text.{Text, text_dec}
use driftstore.Assoc.{Assoc, find, IsMap}
use driftstore.Node.{Node, HeldHint}
use driftstore.Store.Hints.{held_hint}
use driftstore.Store.Writes.{some_inj}
use driftstore.Reachability.{reachability_round}
use driftstore.Reachability.Delivery.{IsHints}
use driftstore.Cluster.{Fate, arrives, cluster_net}
use driftstore.Cluster.Deliveries.{Going}
use driftstore.Sections.Hints.{Holder}
use driftstore.Cluster.Calls.{CopyAt}
use driftstore.Cluster.Live.{Live}
use driftstore.Cluster.Recovery.{Covers, reachability_round_recovers}
use driftstore.Node.{is_self_removed}
use driftstore.Cluster.Handoff.{Picks, reachability_round-Going}
use driftstore.Tests.Samples.{node_a, node_c, key_k}
use driftstore.Tests.Clusters.{node, now, relay, start_cluster, start_well, clock_v}

abbrev hint_v : HeldHint
hint_v = record { key = key_k; value = b'v' ∷ []; clock = clock_v; created_at = pos 6 }

abbrev holding : Node
holding = record (node node_a) {
  unreachable_peers = node_c ∷ [];
  hints_for_target = (node_c, (key_k, hint_v) ∷ []) ∷ [];
}

abbrev held_for : {t : Text} → Dec (node_c ≡ t) → Assoc HeldHint
held_for d = elim (ite {C = Option (Assoc HeldHint)} d (some ((key_k, hint_v) ∷ [])) none) [
  | none ↦ []
  | some hs ↦ hs
]

holding-IsHints : IsHints holding
unfolding find
holding-IsHints t = by_target (text_dec node_c t)
  where
    by_target : (d : Dec (node_c ≡ t)) → IsMap (held_for d)
    by_target (yes same) = (refl, tt)
    by_target (no differ) = tt

-- the one hint that is held
only_hint :
    (t k : Text) (h : HeldHint) → held_hint t k holding ≡ some h → (key_k ≡ k) × (hint_v ≡ h)
unfolding find held_hint
only_hint t k h = by_target (text_dec node_c t)
  where
    by_key :
        (d' : Dec (key_k ≡ k)) → ite d' (some hint_v) none ≡ some h → (key_k ≡ k) × (hint_v ≡ h)
    by_key (no differ) e = absurd (let x : ⊥ = cc in x)
    by_key (yes alike) e = (alike, some_inj e)

    by_target : (d : Dec (node_c ≡ t)) → find k (held_for d) ≡ some h → (key_k ≡ k) × (hint_v ≡ h)
    by_target (no differ) e = absurd (let x : ⊥ = cc in x)
    by_target (yes same) e = by_key (text_dec key_k k) e

holding-Holder : Holder holding
unfolding find
holding-Holder = record {
  hints = holding-IsHints;
  named = λ t k h e. let (alike, same) = only_hint t k h e in ap (λ x. x.key) (sym same) ∙ alike;
  well = λ t k h e.
      let (alike, same) = only_hint t k h e in subst (λ x. IsMap x.clock.counters) same (refl, tt);
}

abbrev arrive : ℕ → Fate
arrive tick = arrives

abbrev as_held : Assoc HeldHint → Assoc HeldHint
as_held hs = hs

as_held-Picks : Picks as_held
as_held-Picks hs = All-of_In (λ e. In e hs) hs (λ e m. m)

reachability_round-Going_example :
    let (c', s') =
      reachability_round (cluster_net arrive now relay) as_held start_cluster holding in
    Going arrive now relay holding c' s'
reachability_round-Going_example =
    reachability_round-Going arrive now relay holding holding-Holder as_held as_held-Picks
      start_cluster start_well

as_held-Covers : Covers as_held
as_held-Covers hs e m = m

c-Live : Live node_c start_cluster
unfolding find text_dec is_self_removed
c-Live = (node node_c, refl, refl)

held_lem : held_hint node_c key_k holding ≡ some hint_v
unfolding held_hint find text_dec
held_lem = refl

reachability_round_recovers_example :
    let (c', s') =
      reachability_round (cluster_net arrive now relay) as_held start_cluster holding in
    (held_hint node_c key_k s' ≡ none) × CopyAt key_k clock_v node_c c'
reachability_round_recovers_example =
    reachability_round_recovers arrive now relay (λ tick. refl) holding holding-Holder as_held
      as_held-Picks as_held-Covers start_cluster node_c key_k hint_v start_well (inl refl) c-Live
      held_lem
