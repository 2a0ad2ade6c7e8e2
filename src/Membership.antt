-- ===== src/Membership.antt =====
-- src/ring.hpp, lines 36-72, and src/node_membership.cpp, with the constructor of
-- src/node_main.cpp: the membership table, gossip and removal.
pub mod Merge
pub mod TokenSets
pub mod RingOf
use driftstore.Prelude.{
  ℕ, zero, suc, ◌+◌, ◌%◌, ◌/◌, ℤ, Bool, true, false, ◌&&◌, ◌||◌, List, [], ◌∷◌, ◌++◌, Option, none,
  some, ite, if◌then◌else◌, ltb, ltb_ℤ, eqb_ℤ, length, get_elem?,
}
use driftstore.Text.{Text, text_dec, text_lt}
use driftstore.Assoc.{Assoc, find, insert}
use driftstore.Ring.{RingMap, put_token, erase_token, mix64, fnv1a64}
use driftstore.Node.{Node, NodeStatus, up, removed, MembershipEntry, MembershipTable}
use driftstore.Store.{mark_unreachable}
use driftstore.Network.{Network}

-- `ring[token] = node_id` for each token
unfoldable pub put_tokens : List ℕ → Text → RingMap → RingMap
unfolding put_token
put_tokens [] node_id ring = ring
put_tokens (token ∷ tokens) node_id ring = put_tokens tokens node_id (put_token token node_id ring)

-- `ring.erase(token)` for each token
unfoldable pub erase_tokens : List ℕ → RingMap → RingMap
unfolding erase_token
erase_tokens [] ring = ring
erase_tokens (token ∷ tokens) ring = erase_tokens tokens (erase_token token ring)

unfoldable pub incoming_wins : MembershipEntry → MembershipEntry → Bool
incoming_wins incoming local =
    ltb_ℤ local.last_updated incoming.last_updated
    || (eqb_ℤ incoming.last_updated local.last_updated
        && text_lt local.writer_id incoming.writer_id)

-- the ring once the incoming entry of a node has won over the local one
unfoldable pub update_ring :
    NodeStatus → NodeStatus → Text → MembershipEntry → MembershipEntry → RingMap → RingMap
unfolding put_tokens erase_tokens
update_ring removed up node_id local incoming ring = put_tokens incoming.tokens node_id ring
update_ring up removed node_id local incoming ring = erase_tokens local.tokens ring
update_ring up up node_id local incoming ring = ring
update_ring removed removed node_id local incoming ring = ring

-- One round of the loop of `mergeInto`.
unfoldable pub merge_entry :
    Text → MembershipEntry → MembershipTable × RingMap → MembershipTable × RingMap
unfolding put_tokens incoming_wins update_ring
merge_entry node_id incoming (local, ring) = elim (find node_id local) [
  | none ↦ (insert node_id incoming local, put_tokens incoming.tokens node_id ring)
  | some entry ↦
      if incoming_wins incoming entry
      then (
        insert node_id incoming local,
        update_ring entry.status incoming.status node_id entry incoming ring,
      )
      else (local, ring)
]

unfoldable pub merge_into : MembershipTable → MembershipTable × RingMap → MembershipTable × RingMap
unfolding merge_entry
merge_into [] state = state
merge_into ((node_id, incoming) ∷ rest) state = merge_into rest (merge_entry node_id incoming state)

-- The node after it, and the table that is returned.
unfoldable pub apply_gossip : MembershipTable → Node → Node × MembershipTable
unfolding merge_into
apply_gossip incoming s =
    let (table', ring') = merge_into incoming (s.table, s.ring) in
    (record s { table = table'; ring = ring' }, table')

-- The answer carries the node's own id and the merged table.
unfoldable pub gossip_exchange : MembershipTable → Node → Node × Text × MembershipTable
unfolding apply_gossip
gossip_exchange incoming s = let (s', merged) = apply_gossip incoming s in (s', s.node_id, merged)

-- `now` is what `nowMillis` returns; the answer is `accepted`.
unfoldable pub remove_node : Text → ℤ → Node → Node × Bool
unfolding erase_tokens
remove_node removed_node_id now s = elim (find removed_node_id s.table) [
  | none ↦ (s, false)
  | some entry ↦ elim entry.status [
    | removed ↦ (s, true)
    | up ↦ (
      record s {
        table =
            insert removed_node_id
              (record entry {
                status = removed;
                writer_id = s.node_id;
                tokens = [];
                last_updated = now;
              })
              s.table;
        ring = erase_tokens entry.tokens s.ring;
      },
      true,
    )
  ]
]

-- The addresses of the other members that are up, in the order of the table.
unfoldable pub gossip_candidates : Text → MembershipTable → List Text
gossip_candidates self [] = []
gossip_candidates self ((node_id, entry) ∷ rest) =
    let next = gossip_candidates self rest in
    ite (text_dec node_id self) next
      (elim entry.status [ up ↦ entry.address ∷ next | removed ↦ next ])

-- `draw` is the random position, below the number of candidates.
unfoldable pub select_gossip_target : ℕ → Text → MembershipTable → Option Text
unfolding gossip_candidates
select_gossip_target draw self snapshot = get_elem? (gossip_candidates self snapshot) draw

-- `std::to_string`: the digits of a number, the last ones already written. The fuel is the number
-- itself, which has no more digits than that.
unfoldable pub digits : ℕ → ℕ → Text → Text
digits zero x out = out
digits (suc fuel) x out =
    let out' = (b'0' + x % 10) ∷ out in
    let rest = digits fuel (x / 10) out' in if ltb x 10 then out' else rest

abbrev pub to_string : ℕ → Text
to_string x = digits (suc x) x []

-- the tokens of the positions from `i` on
unfoldable pub tokens_from : Text → ℕ → ℕ → List ℕ
unfolding mix64 fnv1a64 digits
tokens_from node_id i zero = []
tokens_from node_id i (suc left) =
    mix64 (fnv1a64 (node_id ++ b':' ∷ to_string i)) ∷ tokens_from node_id (i + 1) left

unfoldable pub compute_tokens : Text → ℕ → List ℕ
unfolding tokens_from
compute_tokens node_id v = tokens_from node_id 0 v

-- The constructor; `now` is what `nowMillis` returns.
unfoldable pub new_node : Text → ℕ → ℕ → ℕ → ℕ → ℤ → Node
unfolding compute_tokens put_tokens
new_node node_id vnodes n w r now =
    let tokens = compute_tokens node_id vnodes in
    record {
      node_id = node_id;
      vnodes = vnodes;
      table =
          (
            node_id,
            record {
              writer_id = node_id;
              address = node_id;
              status = up;
              tokens = tokens;
              last_updated = now;
            },
          )
          ∷ [];
      ring = put_tokens tokens node_id [];
      unreachable_peers = [];
      kv_store = [];
      hints_for_target = [];
      n = n;
      w = w;
      r = r;
    }
