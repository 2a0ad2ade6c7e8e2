-- ===== src/Cluster/Gets.antt =====
-- A read of R nodes in a cluster sees a write that enough of the key's nodes have.
use driftstore.Prelude.{
  ℕ, ◌+◌, ◌≤◌, ◌<◌, ◌≡◌, ◌≢◌, ◌⊎◌, refl, ℤ, true, false, List, [], Option, none, some, arith,
  length, ltb, All, All-In, All-map, All-append, In, Pairwise, Bool-cases, inl, inr, sym, ap, subst,
}
use driftstore.Text.{Text}
use driftstore.Assoc.{IsMap}
use driftstore.Clock.{VectorClock, compare_vector_clocks, dominated}
use driftstore.Ring.{PreferenceListEntry, mix64, fnv1a64}
use driftstore.Ring.Owners.{node_ids, preference_list_distinct}
use driftstore.Ring.Natural.{Pairwise-append}
use driftstore.Ring.Clockwise.{IsRing}
use driftstore.Resolve.{VersionedValue}
use driftstore.Node.{Node, PutRequest, PutResponse, is_self_removed}
use driftstore.Route.{is_reachable, preference_list_for_key}
use driftstore.Store.Writes.{IsStore}
use driftstore.FanOut.Acks.{OnlyMarks}
use driftstore.Get.{
  ReplicaResult, ReadEnd, nothing_found, read_self, other_nodes, read_others, finish_get, get,
}
use driftstore.Get.Repair.{IsResult}
use driftstore.Get.Quorum.{peer_ids, finish_get-quorum}
use driftstore.Cluster.{Fate, Cluster, cluster_net}
use driftstore.Cluster.Copies.{HasCopy}
use driftstore.Cluster.Calls.{AllWell, CopyAt}
use driftstore.Cluster.Owners.{picked, picked-All, picked-Pairwise}
use driftstore.Cluster.Reads.{Reports, read_others-ReadAll}
use driftstore.Cluster.OwnReads.{
  other_nodes-All, other_nodes-Pairwise, other_nodes-ne, read_self-OwnRead,
}

-- The order in which calls end: of the same nodes, none of them twice.
abbrev pub Reorders : (List Text → List Text) → Type 0
Reorders order =
    (xs : List Text) → (Pairwise ◌≢◌ xs → Pairwise ◌≢◌ (order xs)) × All (λ x. In x xs) (order xs)

-- What a read answers of a write: too few nodes answered, or the write was seen.
abbrev pub Sees : VectorClock → Node → ReadEnd → Type 0
Sees clock s end =
    ((end.response.found ≡ false) × (end.response.responses < s.r))
    ⊎ ((end.response.found ≡ true) × (compare_vector_clocks end.response.context clock ≢ dominated))

finish_get_few :
    (key : Text) (results : List ReplicaResult) (s : Node)
    → length results < s.r
    → finish_get key results s
      ≡ some (record { node = s; response = nothing_found (length results); repair = none })
unfolding finish_get
finish_get_few key results s less =
    let short : ltb (length results) s.r ≡ true = ground arith in rw (short, finish_get) refl

module _ (fate : ℕ → Fate) (now : ℕ → ℤ)
    (relay : Text → PutRequest → Cluster → Cluster × Option PutResponse)
    (order : List Text → List Text) (key : Text) (clock : VectorClock)
    (well_clock : IsMap clock.counters) (ns ws : List Text) (c : Cluster) (s : Node) where
  abbrev pub asked_for : List PreferenceListEntry
  asked_for = preference_list_for_key key s.n s

  -- results of which enough come from nodes that have the write
  finish_get-Sees :
      (results : List ReplicaResult) (s' : Node)
      → OnlyMarks s s'
      → IsStore s
      → Pairwise ◌≢◌ ws
      → All (λ n. In n ns) ws
      → length ns < length ws + s.r
      → Pairwise ◌≢◌ (peer_ids results)
      → All (λ n. In n ns) (peer_ids results)
      → All (Reports clock ws) results
      → All IsResult results
      → (end : ReadEnd) × (finish_get key results s' ≡ some end) × Sees clock s end
  finish_get-Sees results s' marks store dw aw more dr ar reports wells =
      let same_r : s'.r ≡ s.r = ap (λ x. x.r) marks in
      let same_store : s'.kv_store ≡ s.kv_store = ap (λ x. x.kv_store) marks in
      elim (Bool-cases (ltb (length results) s.r)) [
        | inl less ↦
            let few : length results < s.r = ground (arith, less) in
            (_, finish_get_few key results s' (omega (arith, same_r)), inl (refl, few))
        | inr wide ↦
            let enough : s.r ≤ length results = ground (arith, wide) in
            let written : VersionedValue = record { value = []; clock = clock } in
            let (end, ended, found, seen) =
              finish_get-quorum key ns ws results written s' dw aw dr ar (omega arith)
                (omega (arith, same_r)) reports wells well_clock
                (subst (All (λ e. IsMap e.1.clock.counters)) (sym same_store) store) in
            (end, ended, inr (found, seen))
      ]

  -- In a cluster whose connections may lose any request and any answer, a read returns at a member
  -- whose ring is in order and whose preference list has R entries or more, of the key's nodes `ns`;
  -- and where distinct ones of these, with R more than there are nodes of the key, have a version
  -- that has seen a clock, it answers a version that the clock does not dominate, or says that
  -- fewer than R nodes answered.
  pub get-Sees :
      AllWell c
      → IsStore s
      → IsRing s.ring
      → is_self_removed s ≡ some false
      → Reorders order
      → s.r ≤ length asked_for
      → All (λ n. In n ns) (node_ids asked_for)
      → Pairwise ◌≢◌ ws
      → All (λ n. In n ns) ws
      → length ns < length ws + s.r
      → (In s.node_id ws → HasCopy key clock s)
      → ((n : Text) → In n ws → s.node_id ≢ n → CopyAt key clock n c)
      → (c' : Cluster) × (end : ReadEnd) × (get (cluster_net fate now relay) order key c s
          ≡ some (c', end))
        × Sees clock s end
  unfolding get preference_list_for_key
  get-Sees well store ring serves reorders wide home dw aw more own holders =
      let net = cluster_net fate now relay in
      let others = other_nodes s.node_id asked_for in
      let peers = order others in
      let mine = read_self key asked_for s in
      let self = read_self-OwnRead key clock ws ns asked_for s store own home in
      let listed =
        preference_list_distinct s.n (is_reachable s) s.ring (mix64 (fnv1a64 key)) ring in
      let (apart, kept) = reorders others in
      let carry = λ (P : Text → Type 0). λ (h : All P others).
        All-map (λ x. In x others) P (λ x m. All-In P others x h m) peers kept in
      let (c', s', results) = read_others net key peers mine c s in
      let not_self = carry (λ n. s.node_id ≢ n) (other_nodes-ne s.node_id asked_for) in
      let all =
        read_others-ReadAll fate now relay key clock ws peers mine c s well
          (All-map (λ n. s.node_id ≢ n) (λ p. In p ws → CopyAt key clock p c)
            (λ p ne m. holders p m ne) peers not_self)
          self.wells self.reports in
      let answered = picked peers all.answered in
      let distinct =
        Pairwise-append (peer_ids mine) answered self.distinct
          (picked-Pairwise peers all.answered
            (apart (other_nodes-Pairwise s.node_id asked_for listed.2)))
          (All-map (λ n. n ≡ s.node_id) (λ n. All (λ m. n ≢ m) answered)
            (λ n is_self.
              subst (λ x. All (λ m. x ≢ m) answered) (sym is_self)
                (picked-All (λ m. s.node_id ≢ m) peers all.answered not_self))
            (peer_ids mine) self.itself) in
      let at_home =
        All-append (λ n. In n ns) (peer_ids mine) answered self.at_home
          (picked-All (λ n. In n ns) peers all.answered
            (carry (λ n. In n ns) (other_nodes-All (λ n. In n ns) s.node_id asked_for home))) in
      let (end, ended, sees) =
        finish_get-Sees results s' all.marks store dw aw more
          (subst (Pairwise ◌≢◌) (sym all.ids) distinct)
          (subst (All (λ n. In n ns)) (sym all.ids) at_home) all.reports all.wells in
      let not_small : ltb (length asked_for) s.r ≡ false = ground arith in
      (c', end, rw (serves, get, not_small, ended) refl, sees)
