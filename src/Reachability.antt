-- ===== src/Reachability.antt =====
-- src/node_reachability.cpp: the unreachable peers, and the delivery of the hints held for one
-- that answers again.
pub mod Delivery
use driftstore.Prelude.{Bool, true, false, List, [], ◌∷◌, Option, none, some, ite, if◌then◌else◌}
use driftstore.Text.{Text, text_dec}
use driftstore.Assoc.{Assoc, find, insert, erase}
use driftstore.Clock.{compare_vector_clocks, equal, dominates, dominated, concurrent}
use driftstore.Node.{Node, HeldHint, ReplicateWriteRequest, ReplicateWriteResponse}
use driftstore.Store.{mark_unreachable}
use driftstore.Network.{Network}

-- `unreachable_peers_.erase(peer_id)`
unfoldable pub erase_id : Text → List Text → List Text
erase_id x [] = []
erase_id x (y ∷ ys) = ite (text_dec y x) (erase_id x ys) (y ∷ erase_id x ys)

unfoldable pub mark_reachable : Text → Node → Node
unfolding erase_id
mark_reachable peer_id s = record s { unreachable_peers = erase_id peer_id s.unreachable_peers }

-- A delivered hint is dropped unless another version has taken its place meanwhile.
unfoldable pub drop_hint : Text → Text → HeldHint → Node → Node
drop_hint target key hint s = elim (find target s.hints_for_target) [
  | none ↦ s
  | some hints ↦ elim (find key hints) [
    | none ↦ s
    | some held ↦ elim (compare_vector_clocks held.clock hint.clock) [
      | equal ↦ record s { hints_for_target = insert target (erase key hints) s.hints_for_target }
      | dominates ↦ s
      | dominated ↦ s
      | concurrent ↦ s
    ]
  ]
]

abbrev pub delivery_request : HeldHint → ReplicateWriteRequest
delivery_request hint = record {
  key = hint.key;
  value = hint.value;
  vector_clock = hint.clock;
  hint_for_node_id = none;
}

-- what a thread does with the answer of its delivery
unfoldable pub take_delivery : Text → Text → HeldHint → Option ReplicateWriteResponse → Node → Node
unfolding mark_unreachable drop_hint
take_delivery target key hint none s = mark_unreachable target s
take_delivery target key hint (some response) s =
    if response.success then drop_hint target key hint s else s

module _ {World : Type 0} (net : Network World) where
  -- The deliveries, in the order in which they end.
  unfoldable pub deliver_each : Text → Assoc HeldHint → World → Node → World × Node
  unfolding take_delivery
  deliver_each target [] world s = (world, s)
  deliver_each target ((key, hint) ∷ rest) world s =
      let (world', answer) = net.call_replicate_write target (delivery_request hint) world in
      deliver_each target rest world' (take_delivery target key hint answer s)

  -- `order` puts the copied hints in the order in which their deliveries end.
  unfoldable pub deliver_hints :
      (Assoc HeldHint → Assoc HeldHint) → Text → World → Node → World × Node
  unfolding deliver_each
  deliver_hints order target world s = elim (find target s.hints_for_target) [
    | none ↦ (world, s)
    | some hints_copy ↦ deliver_each target (order hints_copy) world s
  ]

  -- the pings, which run together
  unfoldable pub ping_all : List Text → World → World × List (Text × Bool)
  ping_all [] world = (world, [])
  ping_all (peer ∷ peers) world =
      let (world', alive) = net.call_ping peer world in
      let (world'', rest) = ping_all peers world' in (world'', (peer, alive) ∷ rest)

  -- the answers, taken one after the other
  unfoldable pub revive :
      (Assoc HeldHint → Assoc HeldHint) → List (Text × Bool) → World → Node → World × Node
  unfolding mark_reachable deliver_hints
  revive order [] world s = (world, s)
  revive order ((peer, alive) ∷ rest) world s = elim alive [
    | false ↦ revive order rest world s
    | true ↦
        let (world', s') = deliver_hints order peer world (mark_reachable peer s) in
        revive order rest world' s'
  ]

  -- One round of `reachabilityLoop`.
  unfoldable pub reachability_round :
      (Assoc HeldHint → Assoc HeldHint) → World → Node → World × Node
  unfolding ping_all revive
  reachability_round order world s =
      let (world', answers) = ping_all s.unreachable_peers world in revive order answers world' s
