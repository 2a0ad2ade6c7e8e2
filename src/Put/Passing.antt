-- ===== src/Put/Passing.antt =====
-- How a put ends that is passed on: a node of the list answers it, or every one has failed.
use driftstore.Prelude.{
  ℕ, zero, suc, ◌+◌, ◌%◌, ◌≤◌, ◌<◌, ◌≡◌, ◌⊎◌, refl, true, List, [], ◌∷◌, none, some, arith, length,
  get_elem?, Option-cases, inl, inr, dec_le, subst,
}
use native.Mathlib.Nat.{mod-lt}
use driftstore.Ring.{PreferenceListEntry}
use driftstore.Node.{Node, PutRequest, PutResponse}
use driftstore.Store.{mark_unreachable}
use driftstore.Network.{Network}
use driftstore.FanOut.Acks.{OnlyMarks, OnlyMarks-trans}
use driftstore.Put.{refused, forward_loop, forward_put}
use driftstore.Put.Forward.{RelayedFrom}
use driftstore.Rotation.{get_elem?_some}

module _ {World : Type 0} (net : Network World) (request : PutRequest)
    (pref_list : List PreferenceListEntry) (first : ℕ) where
  -- the call to the node at a position was lost
  abbrev pub Failed : ℕ → Type 0
  Failed j =
      (entry : PreferenceListEntry) × (w : World) × (get_elem? pref_list j ≡ some entry)
      × ((net.call_put entry.node_id request w).1 ≡ none)

  -- the nodes at the positions from `k` on, counted from where the attempts start
  abbrev AllFailed : ℕ → ℕ → Type 0
  AllFailed k left = (j : ℕ) → k ≤ j → j < k + left → Failed ((first + j) % length pref_list)

  forward_loop-Passed :
      (left k : ℕ) (world : World) (s : Node)
      → 0 < length pref_list
      → let (world', s', resp) = forward_loop net request pref_list first left k world s in
        OnlyMarks s s'
        × (RelayedFrom net request pref_list resp ⊎ ((resp ≡ refused) × AllFailed k left))
  unfolding forward_loop
  forward_loop-Passed zero k world s filled =
      (refl, inr (refl, λ j lo hi. absurd (omega (arith, lo, hi))))
  forward_loop-Passed (suc left) k world s filled =
      elim (Option-cases (get_elem? pref_list ((first + k) % length pref_list))) [
        | inl out ↦ absurd (
            get_elem?_some pref_list ((first + k) % length pref_list) (mod-lt (first + k) filled)
              out)
        | inr (peer, here) ↦ elim (Option-cases (net.call_put peer.node_id request world).1) [
          | inr (resp, ok) ↦
              rw (here, forward_loop, ok)
                (refl, inl (peer, world, (first + k) % length pref_list, here, ok))
          | inl failed ↦
              let (marks, ends) =
                forward_loop-Passed left (k + 1) (net.call_put peer.node_id request world).0
                  (mark_unreachable peer.node_id s) filled in
              rw (here, forward_loop, failed)
                (
                  OnlyMarks-trans s (mark_unreachable peer.node_id s) _
                      (unfold mark_unreachable in refl) marks,
                  elim ends [
                    | inl relayed ↦ inl relayed
                    | inr (turned, later) ↦ inr (turned, with_first peer here failed later)
                  ],
                )
        ]
      ]
    where
      with_first :
          (peer : PreferenceListEntry)
          → get_elem? pref_list ((first + k) % length pref_list) ≡ some peer
          → (net.call_put peer.node_id request world).1 ≡ none
          → AllFailed (k + 1) left
          → AllFailed k (suc left)
      with_first peer here failed later j lo hi = elim (dec_le (k + 1) j) [
        | yes more ↦ later j more (omega (arith, hi))
        | no less ↦
            let same : k ≡ j = omega (arith, lo, less) in
            subst (λ x. Failed ((first + x) % length pref_list)) same (peer, world, here, failed)
      ]

-- What becomes of a put that is passed on.
pub record PassedOn {World : Type 0} (net : Network World) (request : PutRequest)
    (pref_list : List PreferenceListEntry) (first : ℕ) (s : Node) (s' : Node) (resp : PutResponse)
    : Type 0 where
  -- only marks change
  pub marks : OnlyMarks s s'
  -- some node of the list answered so, or the put is refused and every node of the list has failed,
  -- from where the attempts start all the way round
  pub answer :
      RelayedFrom net request pref_list resp
      ⊎ ((resp ≡ refused)
          × ((j : ℕ)
              → j < length pref_list
              → Failed net request pref_list first ((first + j) % length pref_list)))

pub forward_put-PassedOn :
    {World : Type 0} (net : Network World) (request : PutRequest)
    (pref_list : List PreferenceListEntry) (first : ℕ) (world : World) (s : Node)
    → let (world', s', resp) = forward_put net request pref_list first world s in
      PassedOn net (record request { forwarded = true }) pref_list first s s' resp
unfolding forward_put forward_loop
forward_put-PassedOn net request [] first world s = record {
  marks = refl;
  answer = inr (refl, λ j hi. absurd (omega (arith, hi)));
}
forward_put-PassedOn net request (entry ∷ rest) first world s =
    let whole = entry ∷ rest in
    let (marks, ends) =
      forward_loop-Passed net (record request { forwarded = true }) whole first (length whole) 0
        world s (omega arith) in
    record {
      marks = marks;
      answer = elim ends [
        | inl relayed ↦ inl relayed
        | inr (turned, all) ↦ inr (turned, λ j hi. all j (omega arith) (omega (arith, hi)))
      ];
    }
