-- ===== src/Node.antt =====
-- src/node_service.hpp and src/driftstore.proto: the state of a node and the messages.
pub mod Wellformed
use driftstore.Prelude.{ℕ, ℤ, Bool, true, false, List, Option, none, some}
use driftstore.Text.{Text}
use driftstore.Assoc.{Assoc, find}
use driftstore.Clock.{VectorClock}
use driftstore.Resolve.{VersionedValue}
use driftstore.Ring.{RingMap}

pub data NodeStatus : Type 0 where
  up removed : NodeStatus

pub data WriteOutcome : Type 0 where
  stored already_current : WriteOutcome

pub record MembershipEntry : Type 0 where
  pub writer_id : Text
  pub address : Text
  pub status : NodeStatus
  pub tokens : List ℕ
  pub last_updated : ℤ

-- `message MembershipTable`: its `entries`
abbrev pub MembershipTable : Type 0
MembershipTable = Assoc MembershipEntry

pub record HeldHint : Type 0 where
  pub key : Text
  pub value : Text
  pub clock : VectorClock
  pub created_at : ℤ

-- The members of `NodeServiceImpl` but its mutexes. `n`, `w` and `r` are N_, W_ and R_.
pub record Node : Type 0 where
  pub node_id : Text
  pub vnodes : ℕ
  pub table : MembershipTable
  pub ring : RingMap
  pub unreachable_peers : List Text
  pub kv_store : Assoc VersionedValue
  pub hints_for_target : Assoc (Assoc HeldHint)
  pub n : ℕ
  pub w : ℕ
  pub r : ℕ

-- An absent context reads as the default message.
pub record PutRequest : Type 0 where
  pub key : Text
  pub value : Text
  pub context : VectorClock
  pub forwarded : Bool

pub record PutResponse : Type 0 where
  pub success : Bool
  pub acks : ℕ
  pub context : VectorClock

pub record GetResponse : Type 0 where
  pub found : Bool
  pub value : Text
  pub responses : ℕ
  pub context : VectorClock

pub record ReplicateWriteRequest : Type 0 where
  pub key : Text
  pub value : Text
  pub vector_clock : VectorClock
  pub hint_for_node_id : Option Text

pub record ReplicateWriteResponse : Type 0 where
  pub success : Bool
  pub outcome : WriteOutcome

pub record ReplicateReadResponse : Type 0 where
  pub found : Bool
  pub value : Text
  pub vector_clock : VectorClock

abbrev pub is_removed : NodeStatus → Bool
is_removed up = false
is_removed removed = true

-- `none` is the exception that `at` throws where the table has no entry of the node itself.
unfoldable pub is_self_removed : Node → Option Bool
is_self_removed s = elim (find s.node_id s.table) [
  | none ↦ none
  | some entry ↦ some (is_removed entry.status)
]
