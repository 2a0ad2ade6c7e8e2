-- ===== src/Network.antt =====
-- src/driftstore.proto, `service DriftStoreNode`: the calls that a node makes to its peers.
use driftstore.Prelude.{Bool, Option}
use driftstore.Text.{Text}
use driftstore.Node.{
  MembershipTable, PutRequest, PutResponse, ReplicateWriteRequest, ReplicateWriteResponse,
  ReplicateReadResponse,
}

-- The peers and the connections to them: each call takes their state and gives the next one, with
-- `none` for a call whose status is not OK. The generated stubs stand behind it.
pub record Network (World : Type 0) : Type 0 where
  pub call_replicate_write :
      Text → ReplicateWriteRequest → World → World × Option ReplicateWriteResponse
  pub call_replicate_read : Text → Text → World → World × Option ReplicateReadResponse
  pub call_put : Text → PutRequest → World → World × Option PutResponse
  pub call_ping : Text → World → World × Bool
  pub call_gossip : Text → MembershipTable → World → World × Option MembershipTable
