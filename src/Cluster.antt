-- ===== src/Cluster.antt =====
-- src/node_kv.cpp and src/driftstore.proto: several nodes that call one another's handlers over
-- connections that may lose a request or an answer.
pub mod Copies
pub mod Wrote
pub mod Calls
pub mod Tally
pub mod Owners
pub mod Puts
pub mod OwnCopies
pub mod Reads
pub mod Gets
pub mod OwnReads
pub mod ReadYourWrites
pub mod Deliveries
pub mod Handed
pub mod Handoff
pub mod Live
pub mod Fewer
pub mod Recovery
use driftstore.Prelude.{ℕ, ◌+◌, ℤ, Bool, true, false, Option, none, some}
use driftstore.Text.{Text}
use driftstore.Assoc.{Assoc, find, insert}
use driftstore.Node.{Node, MembershipTable, PutRequest, PutResponse, ReplicateReadResponse}
use driftstore.Store.{replicate_write, replicate_read}
use driftstore.Membership.{gossip_exchange}
use driftstore.Network.{Network}

-- What happens to a call.
pub data Fate : Type 0 where
  arrives request_lost answer_lost : Fate

-- the nodes by their addresses, and the number of calls so far
pub record Cluster : Type 0 where
  pub members : Assoc Node
  pub tick : ℕ

-- the end of a call, by its fate and what the handler gives; `none` is an exception of the handler
unfoldable pub settle :
    {A : Type 0} → Fate → Text → Option (Node × A) → Cluster → Cluster × Option A
settle request_lost peer r c = (record c { tick = c.tick + 1 }, none)
settle arrives peer none c = (record c { tick = c.tick + 1 }, none)
settle answer_lost peer none c = (record c { tick = c.tick + 1 }, none)
settle arrives peer (some (s, a)) c =
    (record { members = insert peer s c.members; tick = c.tick + 1 }, some a)
settle answer_lost peer (some (s, a)) c =
    (record { members = insert peer s c.members; tick = c.tick + 1 }, none)

abbrev pub reading : Text → Node → Option (Node × ReplicateReadResponse)
reading key s = elim (replicate_read key s) [ none ↦ none | some answer ↦ some (s, answer) ]

-- `fate` says what happens to each call, `now` what the callee's `nowMillis` returns, and `relay`
-- how a forwarded put ends.
module _ (fate : ℕ → Fate) (now : ℕ → ℤ)
    (relay : Text → PutRequest → Cluster → Cluster × Option PutResponse) where
  unfoldable pub call :
      {A : Type 0} → Text → (Node → Option (Node × A)) → Cluster → Cluster × Option A
  unfolding settle
  call peer handler c = elim (find peer c.members) [
    | none ↦ (record c { tick = c.tick + 1 }, none)
    | some s ↦ settle (fate c.tick) peer (handler s) c
  ]

  abbrev pub answered : {A : Type 0} → Option A → Bool
  answered none = false
  answered (some a) = true

  -- The calls of a node to the others: each runs the callee's handler.
  abbrev pub cluster_net : Network Cluster
  cluster_net = record {
    call_replicate_write =
        λ peer request c. call peer (λ s. replicate_write request (now c.tick) s) c;
    call_replicate_read = λ peer key c. call peer (reading key) c;
    call_put = relay;
    call_ping =
        λ peer c. let (c', answer) = call peer (λ s. some (s, tt)) c in (c', answered answer);
    call_gossip = λ peer table c.
        call peer (λ s. let (s', id, merged) = gossip_exchange table s in some (s', merged)) c;
  }
