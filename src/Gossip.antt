-- ===== src/Gossip.antt =====
-- src/node_membership.cpp, lines 94-181: the gossip that a node starts.
pub mod Bootstrap
pub mod Silence
use driftstore.Prelude.{ℕ, zero, suc, Bool, true, false, List, [], ◌∷◌, Option, none, some}
use driftstore.Text.{Text}
use driftstore.Node.{Node, MembershipTable}
use driftstore.Store.{mark_unreachable}
use driftstore.Network.{Network}
use driftstore.Membership.{apply_gossip, select_gossip_target}

module _ {World : Type 0} (net : Network World) where
  -- the table of the response, where the call succeeds
  unfoldable pub send_gossip :
      Text → MembershipTable → World → Node → World × Node × Option MembershipTable
  unfolding mark_unreachable
  send_gossip peer_address table world s =
      let (world', response) = net.call_gossip peer_address table world in
      elim response [
        | some merged ↦ (world', s, some merged)
        | none ↦ (world', mark_unreachable peer_address s, none)
      ]

  -- One round of `gossipLoop`.
  unfoldable pub gossip_round : ℕ → World → Node → World × Node
  unfolding send_gossip select_gossip_target apply_gossip
  gossip_round draw world s = elim (select_gossip_target draw s.node_id s.table) [
    | none ↦ (world, s)
    | some peer_addr ↦
        let (world', s', response) = send_gossip peer_addr s.table world s in
        elim response [ none ↦ (world', s') | some table ↦ (world', (apply_gossip table s').0) ]
  ]

  -- one pass over the seeds, up to the first that answers
  unfoldable pub bootstrap_pass : List Text → World → Node → World × Node × Bool
  unfolding send_gossip apply_gossip
  bootstrap_pass [] world s = (world, s, false)
  bootstrap_pass (seed ∷ seeds) world s =
      let (world', s', response) = send_gossip seed s.table world s in
      elim response [
        | some table ↦ (world', (apply_gossip table s').0, true)
        | none ↦ bootstrap_pass seeds world' s'
      ]

  -- the passes that are left
  unfoldable pub bootstrap_loop : ℕ → List Text → World → Node → World × Node × Bool
  unfolding bootstrap_pass
  bootstrap_loop zero seeds world s = (world, s, false)
  bootstrap_loop (suc left) seeds world s =
      let (world', s', joined) = bootstrap_pass seeds world s in
      elim joined [ true ↦ (world', s', true) | false ↦ bootstrap_loop left seeds world' s' ]

  unfoldable pub bootstrap_from_seed : List Text → World → Node → World × Node × Bool
  unfolding bootstrap_loop
  bootstrap_from_seed seeds world s = bootstrap_loop 3 seeds world s
