-- ===== src/Put/Forward.antt =====
-- A forwarded put reaches a node of the list that answers, whatever position it starts at.
use driftstore.Prelude.{
  ℕ, zero, suc, ◌+◌, ◌%◌, ◌≤◌, ◌<◌, ◌≡◌, ◌≢◌, true, List, none, some, arith, length, get_elem?, In,
  Option-cases, inl, inr, ap, sym, ◌∙◌, subst, dec_le,
}
use native.Mathlib.Nat.{mod-lt}
use driftstore.Ring.{PreferenceListEntry}
use driftstore.Node.{Node, PutRequest, PutResponse}
use driftstore.Store.{mark_unreachable}
use driftstore.Network.{Network}
use driftstore.Put.{forward_loop, forward_put}
use driftstore.Rotation.{rotation_covers, position_of, get_elem?_some}

module _ {World : Type 0} (net : Network World) where
  -- some node of the list answered the request so
  abbrev pub RelayedFrom : PutRequest → List PreferenceListEntry → PutResponse → Type 0
  RelayedFrom request pref_list resp =
      (entry : PreferenceListEntry) × (w : World) × (i : ℕ) × (get_elem? pref_list i ≡ some entry)
      × ((net.call_put entry.node_id request w).1 ≡ some resp)

  forward_loop-RelayedFrom :
      (request : PutRequest) (pref_list : List PreferenceListEntry) (left first k i : ℕ)
      (world : World) (s : Node) (entry : PreferenceListEntry)
      → 0 < length pref_list
      → k ≤ i
      → i < k + left
      → get_elem? pref_list ((first + i) % length pref_list) ≡ some entry
      → ((w : World) → (net.call_put entry.node_id request w).1 ≢ none)
      → RelayedFrom request pref_list (forward_loop net request pref_list first left k world s).2
  unfolding forward_loop
  forward_loop-RelayedFrom request pref_list zero first k i world s entry some_entry lo hi at
        answers =
      absurd (omega arith)
  forward_loop-RelayedFrom request pref_list (suc left) first k i world s entry some_entry lo hi at
        answers =
      elim (Option-cases (get_elem? pref_list ((first + k) % length pref_list))) [
        | inl out ↦ absurd (
            get_elem?_some pref_list ((first + k) % length pref_list)
              (mod-lt (first + k) some_entry) out)
        | inr (peer, here) ↦ elim (Option-cases (net.call_put peer.node_id request world).1) [
          | inl failed ↦
              let later : k + 1 ≤ i = passed peer k here failed lo in
              rw (here, forward_loop, failed)
                (forward_loop-RelayedFrom request pref_list left first (k + 1) i
                  (net.call_put peer.node_id request world).0 (mark_unreachable peer.node_id s)
                  entry some_entry later (omega arith) at answers)
          | inr (resp, ok) ↦
              rw (here, forward_loop, ok) (peer, world, (first + k) % length pref_list, here, ok)
        ]
      ]
    where
      passed :
          (peer : PreferenceListEntry) (k : ℕ)
          → get_elem? pref_list ((first + k) % length pref_list) ≡ some peer
          → (net.call_put peer.node_id request world).1 ≡ none
          → k ≤ i
          → k + 1 ≤ i
      passed peer k here failed le = elim (dec_le (k + 1) i) [
        | yes more ↦ more
        | no less ↦
            let same : k ≡ i = omega arith in
            let it : peer ≡ entry = ground (
              arith,
              here,
              subst (λ x. get_elem? pref_list ((first + x) % length pref_list) ≡ some entry)
                  (sym same) at,
            ) in
            absurd (
              answers world
                (subst (λ x. (net.call_put x.node_id request world).1 ≡ none) it failed))
      ]

  -- A put that is forwarded is answered by a node of the list, with the forwarded mark on the
  -- request, as soon as one node of the list answers every such put, wherever the attempts start.
  pub forward_put-RelayedFrom :
      (request : PutRequest) (pref_list : List PreferenceListEntry) (first : ℕ) (world : World)
      (s : Node) (entry : PreferenceListEntry)
      → first < length pref_list
      → In entry pref_list
      → ((w : World)
          → (net.call_put entry.node_id (record request { forwarded = true }) w).1 ≢ none)
      → RelayedFrom
          (record request { forwarded = true })
          pref_list
          (forward_put net request pref_list first world s).2
  unfolding forward_put
  forward_put-RelayedFrom request pref_list first world s entry start member answers =
      let (j, less, at) = position_of entry pref_list member in
      let (i, within, hits) = rotation_covers first (length pref_list) j start less in
      forward_loop-RelayedFrom (record request { forwarded = true }) pref_list (length pref_list)
        first 0 i world s entry (omega arith) (omega arith) (omega arith)
        (ap (get_elem? pref_list) hits ∙ at) answers
