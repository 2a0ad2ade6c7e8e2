-- ===== src/Sections.antt =====
-- src/node_kv.cpp, src/node_membership.cpp, src/node_reachability.cpp: the critical sections in
-- which handlers and loops change a node. Handlers that run together interleave by whole sections.
pub mod Hints
pub mod Valid
pub mod Parts
use driftstore.Prelude.{ℕ, ℤ, Option, All}
use driftstore.Text.{Text}
use driftstore.Assoc.{IsMap}
use driftstore.Clock.{VectorClock}
use driftstore.Resolve.{VersionedValue}
use driftstore.Resolve.Frontier.{IsWell}
use driftstore.Node.{Node, HeldHint, MembershipEntry, MembershipTable}
use driftstore.Store.{mark_unreachable, commit_coordinated_write, store_replicated_write, hold_hint}
use driftstore.Put.{hold_own_hint}
use driftstore.Membership.{apply_gossip, remove_node}
use driftstore.Reachability.{mark_reachable, drop_hint}

-- What a node may run next, where the entries that gossip brings satisfy `P`.
pub data Section (P : Text → MembershipEntry → Type 0) : Node → Node → Type 0 where
  merging :
      (incoming : MembershipTable) (s : Node)
      → All (λ e. P e.0 e.1) incoming
      → Section P s (apply_gossip incoming s).0
  removing :
      (removed_node_id : Text) (now : ℤ) (s : Node)
      → Section P s (remove_node removed_node_id now s).0
  committing :
      (key value : Text) (context : Option VectorClock) (now : ℤ) (s : Node)
      → Section P s (commit_coordinated_write key value context now s).0
  storing :
      (key : Text) (incoming : VersionedValue) (s : Node)
      → IsWell incoming
      → Section P s (store_replicated_write key incoming s).0
  holding :
      (target : Text) (hint : HeldHint) (s : Node)
      → IsMap hint.clock.counters
      → Section P s (hold_hint target hint s)
  holding_own :
      (target : Text) (hint : HeldHint) (s : Node)
      → IsMap hint.clock.counters
      → Section P s (hold_own_hint target hint s)
  dropping :
      (target key : Text) (hint : HeldHint) (s : Node) → Section P s (drop_hint target key hint s)
  marking : (peer_id : Text) (s : Node) → Section P s (mark_unreachable peer_id s)
  unmarking : (peer_id : Text) (s : Node) → Section P s (mark_reachable peer_id s)

-- sections one after the other, of whatever threads
pub data Run (P : Text → MembershipEntry → Type 0) : Node → Node → Type 0 where
  done : (s : Node) → Run P s s
  after : {a b c : Node} → Run P a b → Section P b c → Run P a c
