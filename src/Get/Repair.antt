-- ===== src/Get/Repair.antt =====
-- Which replicas a read finds stale, and that each of them is repaired.
use driftstore.Prelude.{
  ◌≡◌, ◌≢◌, refl, true, false, List, [], ◌∷◌, Option, some, if_pos, if_neg, arith, All, All-of_In,
  In, Bool-cases, ◌⊎◌, inl, inr, subst, if◌then◌else◌,
}
use driftstore.Text.{Text, text_dec}
use driftstore.Assoc.{IsMap}
use driftstore.Clock.{VectorClock, compare_vector_clocks, equal}
use driftstore.Clock.Order.{Le}
use driftstore.Resolve.{VersionedValue}
use driftstore.Resolve.Frontier.{IsWell}
use driftstore.Node.{Node}
use driftstore.Store.{local_get, store_replicated_write}
use driftstore.Store.Writes.{IsStore, Comparison-cases, store_replicated_write-Held}
use driftstore.Get.{
  ReplicaResult, found_versions, is_stale, self_needs_repair, stale_peers, repair_thread,
}

-- no clock of a result holds a node twice
abbrev pub IsResult : ReplicaResult → Type 0
IsResult r = IsMap r.clock.counters

pub found_versions-IsWell :
    (rs : List ReplicaResult) → All IsResult rs → All IsWell (found_versions rs)
unfolding found_versions
found_versions-IsWell [] u = tt
found_versions-IsWell (r ∷ rs) u = elim (Bool-cases r.found) [
  | inl y ↦ rw y (u.0, found_versions-IsWell rs u.1)
  | inr n ↦ rw n (found_versions-IsWell rs u.1)
]

is_stale-false :
    (winner : VectorClock) (r : ReplicaResult)
    → is_stale winner r ≡ false
    → (r.found ≡ true) × (compare_vector_clocks r.clock winner ≡ equal)
unfolding is_stale
is_stale-false winner r h = elim (Bool-cases r.found) [
  | inl y ↦ elim (Comparison-cases r.clock winner) [
    | inl c ↦ (y, c)
    | inr (inl c) ↦ absurd (ground (arith, h, y, c))
    | inr (inr (inl c)) ↦ absurd (ground (arith, h, y, c))
    | inr (inr (inr c)) ↦ absurd (ground (arith, h, y, c))
  ]
  | inr n ↦ absurd (ground (arith, h, n))
]

module _ (id : Text) (winner : VectorClock) (r : ReplicaResult)
    (stale : is_stale winner r ≡ true) where
  self_needs_repair-In :
      (rs : List ReplicaResult) → In r rs → r.peer_id ≡ id → self_needs_repair id winner rs ≡ true
  unfolding self_needs_repair
  self_needs_repair-In [] m own = elim m [ ]
  self_needs_repair-In (q ∷ rs) (inl same) own = ground (arith, same, stale, own)
  self_needs_repair-In (q ∷ rs) (inr m) own = ground (arith, self_needs_repair-In rs m own)

  stale_peers-In :
      (rs : List ReplicaResult) → In r rs → r.peer_id ≢ id → In r.peer_id (stale_peers id winner rs)
  unfolding stale_peers
  stale_peers-In [] m other = elim m [ ]
  stale_peers-In (q ∷ rs) (inl same) other =
      subst (λ x. In r.peer_id (stale_peers id winner (x ∷ rs))) same
        (rw (stale, if_neg _ other) (inl refl))
  stale_peers-In (q ∷ rs) (inr m) other = elim (Bool-cases (is_stale winner q)) [
    | inl y ↦ elim (text_dec q.peer_id id) [
      | yes own ↦ rw (y, if_pos _ own) (stale_peers-In rs m other)
      | no differ ↦ rw (y, if_neg _ differ) (inr (stale_peers-In rs m other))
    ]
    | inr n ↦ rw n (stale_peers-In rs m other)
  ]

-- What becomes of a replica whose result a read used: it has the winner's clock, or it is the node
-- itself, which now holds a version that has seen the winner, or the winner is sent to it.
pub Repaired :
    Text
    → VersionedValue
    → Node
    → Node
    → Option (VersionedValue × List Text)
    → ReplicaResult
    → Type 0
Repaired key winner s s' repair r =
    ((r.found ≡ true) × (compare_vector_clocks r.clock winner.clock ≡ equal))
    ⊎ ((r.peer_id ≡ s.node_id)
        × ((v : VersionedValue) × (local_get key s' ≡ some v) × Le winner.clock v.clock))
    ⊎ ((peers : List Text) × (repair ≡ some (winner, peers)) × In r.peer_id peers)

-- the node after it repaired itself, where it has to
abbrev pub self_repaired : Text → VersionedValue → List ReplicaResult → Node → Node
self_repaired key winner results s =
    if self_needs_repair s.node_id winner.clock results
    then (store_replicated_write key winner s).0
    else s

repair_thread-In :
    (winner : VersionedValue) (p : Text) (peers : List Text)
    → In p peers
    → repair_thread winner peers ≡ some (winner, peers)
repair_thread-In winner p [] m = elim m [ ]
repair_thread-In winner p (q ∷ peers) m = refl

pub All-Repaired :
    (key : Text) (winner : VersionedValue) (results : List ReplicaResult) (s : Node)
    → IsWell winner
    → IsStore s
    → All
        (Repaired key winner s
          (self_repaired key winner results s)
          (repair_thread winner (stale_peers s.node_id winner.clock results)))
        results
unfolding Repaired
All-Repaired key winner results s well store = All-of_In _ results λ r m.
    elim (Bool-cases (is_stale winner.clock r)) [
      | inr current ↦ inl (is_stale-false winner.clock r current)
      | inl stale ↦ elim (text_dec r.peer_id s.node_id) [
        | yes own ↦
            let needed = self_needs_repair-In s.node_id winner.clock r stale results m own in
            let held = store_replicated_write-Held key winner s well store in
            inr (inl (own, (held.version, rw needed held.holds, held.seen)))
        | no other ↦
            let sent = stale_peers-In s.node_id winner.clock r stale results m other in
            inr (
              inr (
                stale_peers s.node_id winner.clock results,
                repair_thread-In winner r.peer_id _ sent,
                sent,
              ))
      ]
    ]
