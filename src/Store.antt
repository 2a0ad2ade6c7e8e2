-- ===== src/Store.antt =====
-- src/node_kv.cpp, lines 33-104 and 511-575: the replica side of the store.
pub mod Writes
pub mod Commit
pub mod Hints
use driftstore.Prelude.{
  ℤ, Bool, true, false, Option, none, some, ◌++◌, [], ◌∷◌, List, if◌then◌else◌,
}
use driftstore.Text.{Text}
use driftstore.Assoc.{Assoc, find, insert}
use driftstore.Clock.{
  VectorClock, no_clock, compare_vector_clocks, equal, dominates, dominated, concurrent,
  build_new_clock,
}
use driftstore.Resolve.{VersionedValue}
use driftstore.Ring.{contains}
use driftstore.Node.{
  Node, HeldHint, WriteOutcome, stored, already_current, ReplicateWriteRequest,
  ReplicateWriteResponse, ReplicateReadResponse, is_self_removed,
}

-- `unreachable_peers_.insert(peer_id)`
unfoldable pub mark_unreachable : Text → Node → Node
unfolding contains
mark_unreachable peer_id s = record s {
  unreachable_peers =
      if contains peer_id s.unreachable_peers
      then s.unreachable_peers
      else peer_id ∷ s.unreachable_peers;
}

unfoldable pub local_get : Text → Node → Option VersionedValue
local_get key s = find key s.kv_store

abbrev pub clock_of : Option VersionedValue → Option VectorClock
clock_of none = none
clock_of (some v) = some v.clock

-- `now` is what `nowMillis` returns.
unfoldable pub commit_coordinated_write :
    Text → Text → Option VectorClock → ℤ → Node → Node × VectorClock
commit_coordinated_write key value client_context now s =
    let updated = build_new_clock client_context (clock_of (find key s.kv_store)) s.node_id now in
    (
      record s { kv_store = insert key (record { value = value; clock = updated }) s.kv_store },
      updated,
    )

unfoldable pub store_replicated_write : Text → VersionedValue → Node → Node × WriteOutcome
store_replicated_write key incoming s =
    let written = record s { kv_store = insert key incoming s.kv_store } in
    elim (find key s.kv_store) [
      | none ↦ (written, stored)
      | some it ↦ elim (compare_vector_clocks it.clock incoming.clock) [
        | equal ↦ (s, already_current)
        | dominates ↦ (s, already_current)
        | dominated ↦ (written, stored)
        | concurrent ↦ (written, stored)
      ]
    ]

-- `hints_for_target_[target]`, made empty where it is not there
abbrev pub hints_of : Text → Node → Assoc HeldHint
hints_of target s = elim (find target s.hints_for_target) [ none ↦ [] | some hints ↦ hints ]

-- `hints_for_target_[target][key] = hint`
unfoldable pub put_hint : Text → HeldHint → Node → Node
put_hint target hint s = record s {
  hints_for_target = insert target (insert hint.key hint (hints_of target s)) s.hints_for_target;
}

-- The branch of `ReplicateWrite` for a hint: the held hint stays if it is equal or newer.
unfoldable pub hold_hint : Text → HeldHint → Node → Node
unfolding put_hint
hold_hint target hint s = elim (find target s.hints_for_target) [
  | none ↦ put_hint target hint s
  | some hints ↦ elim (find hint.key hints) [
    | none ↦ put_hint target hint s
    | some held ↦ elim (compare_vector_clocks held.clock hint.clock) [
      | equal ↦ s
      | dominates ↦ s
      | dominated ↦ put_hint target hint s
      | concurrent ↦ put_hint target hint s
    ]
  ]
]

abbrev pub hint_from : ReplicateWriteRequest → ℤ → HeldHint
hint_from request now = record {
  key = request.key;
  value = request.value;
  clock = request.vector_clock;
  created_at = now;
}

-- What `ReplicateWrite` does once the node is known to be a member.
unfoldable pub accept_write : ReplicateWriteRequest → ℤ → Node → Node × ReplicateWriteResponse
unfolding mark_unreachable hold_hint store_replicated_write
accept_write request now s = elim request.hint_for_node_id [
  | some target ↦ (
    hold_hint target (hint_from request now) (mark_unreachable target s),
    record { success = true; outcome = stored },
  )
  | none ↦
      let (s', res) =
        store_replicated_write request.key
          (record { value = request.value; clock = request.vector_clock }) s in
      (s', record { success = true; outcome = res })
]

-- `none` is an exception.
unfoldable pub replicate_write :
    ReplicateWriteRequest → ℤ → Node → Option (Node × ReplicateWriteResponse)
unfolding is_self_removed accept_write
replicate_write request now s = elim (is_self_removed s) [
  | none ↦ none
  | some gone ↦ some (
      if gone
      then (s, record { success = false; outcome = already_current })
      else accept_write request now s)
]

abbrev pub not_found : ReplicateReadResponse
not_found = record { found = false; value = []; vector_clock = no_clock }

unfoldable pub replicate_read : Text → Node → Option ReplicateReadResponse
unfolding is_self_removed local_get
replicate_read key s = elim (is_self_removed s) [
  | none ↦ none
  | some gone ↦ some (
      if gone then not_found else elim (local_get key s) [
        | none ↦ not_found
        | some vv ↦ record { found = true; value = vv.value; vector_clock = vv.clock }
      ])
]
