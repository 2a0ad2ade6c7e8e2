-- ===== src/Put/Handler.antt =====
-- How a put ends, on every branch.
use driftstore.Prelude.{
  ℕ, ◌+◌, ◌*◌, ◌≤◌, ◌<◌, ◌≡◌, refl, true, false, List, some, arith, length, ltb, Bool-cases, inl,
  inr, sym, In, [], ◌∷◌, if_pos, if_neg,
}
use driftstore.Ring.{PreferenceListEntry}
use driftstore.Ring.Clockwise.{IsRing}
use driftstore.Node.{Node, PutRequest, PutResponse, up, removed}
use driftstore.Node.Wellformed.{HasSelf, Standing, standing}
use driftstore.Text.{Text, text_dec}
use driftstore.Ring.Owners.{node_ids}
use driftstore.Route.{preference_list_for_key}
use driftstore.Network.{Network}
use driftstore.FanOut.Progress.{turns}
use driftstore.Put.{Times, refused, coordinate_local, coordinate_put, forward_put, names_node, put}
use driftstore.Put.Passing.{PassedOn, forward_put-PassedOn}
use driftstore.Put.Outcome.{Coordinated, threads, coordinate_put-Coordinated}

names_node-In :
    (id : Text) (pref_list : List PreferenceListEntry)
    → names_node id pref_list ≡ true
    → In id (node_ids pref_list)
unfolding names_node
names_node-In id [] e = absurd (ground (arith, e))
names_node-In id (entry ∷ rest) e = elim (text_dec entry.node_id id) [
  | yes same ↦ inl (sym same)
  | no differ ↦ inr (names_node-In id rest (rw (if_neg _ differ) at e))
]

names_node-out :
    (id : Text) (pref_list : List PreferenceListEntry)
    → names_node id pref_list ≡ false
    → In id (node_ids pref_list)
    → ⊥
unfolding names_node
names_node-out id [] e m = elim m [ ]
names_node-out id (entry ∷ rest) e m = elim (text_dec entry.node_id id) [
  | yes same ↦
      absurd (ground (arith, e, if_pos (text_dec entry.node_id id) same true (names_node id rest)))
  | no differ ↦ elim m [
    | inl same ↦ absurd (differ (sym same))
    | inr later ↦ names_node-out id rest (rw (if_neg _ differ) at e) later
  ]
]

module _ {World : Type 0} (net : Network World) (request : PutRequest) (t : Times) (first : ℕ)
    (schedule : List ℕ) (world : World) (s : Node) where
  -- the preference list that the handler works with
  abbrev pub listed : List PreferenceListEntry
  listed = preference_list_for_key request.key s.n s

  -- The ends of a put: a removed node refuses; a node of the list coordinates, or refuses where the
  -- list has fewer than W entries; another node forwards, or refuses what was forwarded to it.
  pub data PutEnd : World × Node × PutResponse → Type 0 where
    removed_self : Standing s removed → PutEnd (world, s, refused)
    few :
        Standing s up
        → In s.node_id (node_ids listed)
        → length listed < s.w
        → PutEnd (world, s, refused)
    coordinated :
        Standing s up
        → In s.node_id (node_ids listed)
        → s.w ≤ length listed
        → (world' : World) (s' : Node) (resp : PutResponse)
        → Coordinated
            (length listed)
            (coordinate_local request.key request.value (some request.context) t listed s)
            s
            s'
            resp
        → PutEnd (world', s', resp)
    looped :
        Standing s up
        → (In s.node_id (node_ids listed) → ⊥)
        → request.forwarded ≡ true
        → PutEnd (world, s, refused)
    passed_on :
        Standing s up
        → (In s.node_id (node_ids listed) → ⊥)
        → request.forwarded ≡ false
        → (world' : World) (s' : Node) (resp : PutResponse)
        → PassedOn net (record request { forwarded = true }) listed first s s' resp
        → PutEnd (world', s', resp)

  coordinate_put_few :
      length listed < s.w
      → coordinate_put net request.key request.value
          (some request.context)
          listed
          t
          schedule
          world
          s
        ≡ some (world, s, refused)
  unfolding coordinate_put
  coordinate_put_few less =
      let small : ltb (length listed) s.w ≡ true = ground arith in rw (small, coordinate_put) refl

  -- Every put returns, where the table has the node's own entry, the ring is in order and each
  -- thread that is started has had twice as many turns as the ring has tokens, and two more. A
  -- removed node refuses and changes nothing. Of the others, a node of the key's preference list
  -- coordinates, or refuses and changes nothing where the list has fewer than W entries; a node
  -- outside the list refuses what was forwarded to it, and changes nothing, and forwards the rest:
  -- it answers what a node of the list answered to the request with the forwarded mark, or refuses
  -- once every node of the list has failed, and changes its marks alone.
  pub put-PutEnd :
      HasSelf s
      → IsRing s.ring
      → ((i : ℕ) → i < length (threads listed s) → 2 * length s.ring + 2 ≤ turns i schedule)
      → (end : World × Node × PutResponse) × (put net request t first schedule world s ≡ some end)
        × PutEnd end
  unfolding put
  put-PutEnd self a enough = elim (standing s self) [
    | inl (gone, known) ↦ ((world, s, refused), rw (known, put) refl, removed_self gone)
    | inr (serves, known) ↦ elim (Bool-cases (names_node s.node_id listed)) [
      | inl named ↦ elim (Bool-cases (ltb (length listed) s.w)) [
        | inl less ↦ (
          (world, s, refused),
          rw (known, put, named) (coordinate_put_few (ground (arith, less))),
          few serves (names_node-In s.node_id listed named) (ground (arith, less)),
        )
        | inr wide ↦
            let (world', s', resp, returned, facts) =
              coordinate_put-Coordinated net request.key request.value (some request.context) listed
                t schedule world s a (ground (arith, wide)) enough in
            (
              (world', s', resp),
              rw (known, put, named) returned,
              coordinated serves (names_node-In s.node_id listed named) (ground (arith, wide))
                  world' s' resp facts,
            )
      ]
      | inr other ↦ elim (Bool-cases request.forwarded) [
        | inl again ↦ (
          (world, s, refused),
          rw (known, put, other, again) refl,
          looped serves (names_node-out s.node_id listed other) again,
        )
        | inr fresh ↦ (
          forward_put net request listed first world s,
          rw (known, put, other, fresh) refl,
          passed_on serves (names_node-out s.node_id listed other) fresh _ _ _
              (forward_put-PassedOn net request listed first world s),
        )
      ]
    ]
  ]
