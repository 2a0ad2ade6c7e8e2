-- ===== src/Get.antt =====
-- src/node_kv.cpp, lines 138-322: the coordination of a read, and the repair of stale replicas.
pub mod Repair
pub mod Answer
pub mod Overlap
pub mod Quorum
pub mod Collect
pub mod Handler
use driftstore.Prelude.{
  ℕ, ◌+◌, Bool, true, false, ◌||◌, List, [], ◌∷◌, ◌++◌, map, Option, none, some, ite, if◌then◌else◌,
  ltb, length,
}
use driftstore.Text.{Text, text_dec}
use driftstore.Clock.{
  VectorClock, no_clock, compare_vector_clocks, equal, dominates, dominated, concurrent,
}
use driftstore.Resolve.{VersionedValue, GetResolution, resolve_get_result}
use driftstore.Ring.{PreferenceListEntry}
use driftstore.Node.{
  Node, GetResponse, ReplicateReadResponse, ReplicateWriteRequest, is_self_removed,
}
use driftstore.Store.{mark_unreachable, local_get, store_replicated_write}
use driftstore.Route.{preference_list_for_key}
use driftstore.Network.{Network}

pub record ReplicaResult : Type 0 where
  pub peer_id : Text
  pub found : Bool
  pub value : Text
  pub clock : VectorClock

abbrev pub local_result : Text → Option VersionedValue → ReplicaResult
local_result id none = record { peer_id = id; found = false; value = []; clock = no_clock }
local_result id (some v) = record { peer_id = id; found = true; value = v.value; clock = v.clock }

abbrev pub remote_result : Text → ReplicateReadResponse → ReplicaResult
remote_result id resp =
    if resp.found
    then record { peer_id = id; found = true; value = resp.value; clock = resp.vector_clock }
    else record { peer_id = id; found = false; value = []; clock = no_clock }

-- The local read, where the list names the node.
unfoldable pub read_self : Text → List PreferenceListEntry → Node → List ReplicaResult
unfolding local_get
read_self key [] s = []
read_self key (entry ∷ rest) s =
    ite (text_dec entry.node_id s.node_id) (local_result entry.node_id (local_get key s) ∷ [])
      (read_self key rest s)

-- the nodes that are asked, but the node itself
unfoldable pub other_nodes : Text → List PreferenceListEntry → List Text
other_nodes node_id [] = []
other_nodes node_id (entry ∷ rest) =
    ite (text_dec entry.node_id node_id) (other_nodes node_id rest)
      (entry.node_id ∷ other_nodes node_id rest)

-- a result stands for a version where it was found
unfoldable pub found_versions : List ReplicaResult → List VersionedValue
found_versions [] = []
found_versions (r ∷ rest) =
    let next = found_versions rest in
    if r.found then record { value = r.value; clock = r.clock } ∷ next else next

unfoldable pub is_stale : VectorClock → ReplicaResult → Bool
is_stale winner r =
    if r.found
    then elim (compare_vector_clocks r.clock winner) [
      | equal ↦ false
      | dominates ↦ true
      | dominated ↦ true
      | concurrent ↦ true
    ]
    else true

unfoldable pub self_needs_repair : Text → VectorClock → List ReplicaResult → Bool
unfolding is_stale
self_needs_repair node_id winner [] = false
self_needs_repair node_id winner (r ∷ rest) =
    let next = self_needs_repair node_id winner rest in
    if is_stale winner r then ite (text_dec r.peer_id node_id) true next else next

unfoldable pub stale_peers : Text → VectorClock → List ReplicaResult → List Text
unfolding is_stale
stale_peers node_id winner [] = []
stale_peers node_id winner (r ∷ rest) =
    let next = stale_peers node_id winner rest in
    if is_stale winner r then ite (text_dec r.peer_id node_id) next (r.peer_id ∷ next) else next

-- What a read leaves: the node, the answer, and the thread that repairs, if one is started.
pub record ReadEnd : Type 0 where
  pub node : Node
  pub response : GetResponse
  pub repair : Option (VersionedValue × List Text)

abbrev pub nothing_found : ℕ → GetResponse
nothing_found responses = record {
  found = false;
  value = [];
  responses = responses;
  context = no_clock;
}

abbrev pub repair_thread : VersionedValue → List Text → Option (VersionedValue × List Text)
repair_thread winner [] = none
repair_thread winner (peer ∷ peers) = some (winner, peer ∷ peers)

-- What `Get` does with the results once every call has ended; `none` is the failed assertion.
unfoldable pub finish_get : Text → List ReplicaResult → Node → Option ReadEnd
unfolding found_versions resolve_get_result self_needs_repair stale_peers store_replicated_write
finish_get key results s =
    if ltb (length results) s.r
    then some (record { node = s; response = nothing_found (length results); repair = none })
    else elim (found_versions results) [
      | [] ↦ some (record { node = s; response = nothing_found (length results); repair = none })
      | v ∷ vs ↦ elim (resolve_get_result (v ∷ vs)) [
        | none ↦ none
        | some resolved ↦ some (record {
          node =
              if self_needs_repair s.node_id resolved.winner.clock results
              then (store_replicated_write key resolved.winner s).0
              else s;
          response = record {
            found = true;
            value = resolved.winner.value;
            responses = length results;
            context = resolved.winner.clock;
          };
          repair =
              repair_thread resolved.winner (stale_peers s.node_id resolved.winner.clock results);
        })
      ]
    ]

module _ {World : Type 0} (net : Network World) where
  -- The calls to the other nodes, in the order in which they end: a call that fails leaves no
  -- result and marks the node.
  unfoldable pub read_others :
      Text → List Text → List ReplicaResult → World → Node → World × Node × List ReplicaResult
  unfolding mark_unreachable
  read_others key [] results world s = (world, s, results)
  read_others key (peer ∷ peers) results world s =
      let (world', answer) = net.call_replicate_read peer key world in
      elim answer [
        | some resp ↦ read_others key peers (results ++ remote_result peer resp ∷ []) world' s
        | none ↦ read_others key peers results world' (mark_unreachable peer s)
      ]

  -- `order` puts the other nodes in the order in which their calls end. `none` is an exception.
  unfoldable pub get : (List Text → List Text) → Text → World → Node → Option (World × ReadEnd)
  unfolding is_self_removed preference_list_for_key read_self other_nodes read_others finish_get
  get order key world s = elim (is_self_removed s) [
    | none ↦ none
    | some gone ↦
        if gone
        then some (world, record { node = s; response = nothing_found 0; repair = none })
        else let pref_list = preference_list_for_key key s.n s in
          if ltb (length pref_list) s.r
          then some (world, record { node = s; response = nothing_found 0; repair = none })
          else let (world', s', results) =
              read_others key (order (other_nodes s.node_id pref_list)) (read_self key pref_list s)
                world s in
            elim (finish_get key results s') [ none ↦ none | some end ↦ some (world', end) ]
  ]

  abbrev pub repair_request : Text → VersionedValue → ReplicateWriteRequest
  repair_request key winner = record {
    key = key;
    value = winner.value;
    vector_clock = winner.clock;
    hint_for_node_id = none;
  }

  -- The calls of `repairReplicas`, in the order in which they end.
  unfoldable pub repair_replicas : Text → VersionedValue → List Text → World → Node → World × Node
  unfolding mark_unreachable
  repair_replicas key winner [] world s = (world, s)
  repair_replicas key winner (peer ∷ peers) world s =
      let (world', answer) = net.call_replicate_write peer (repair_request key winner) world in
      elim answer [
        | some resp ↦ repair_replicas key winner peers world' s
        | none ↦ repair_replicas key winner peers world' (mark_unreachable peer s)
      ]
