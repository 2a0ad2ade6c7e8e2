-- ===== src/Get/Handler.antt =====
-- How a read ends, on every branch, the calls to the other nodes included.
use driftstore.Prelude.{
  ℕ, ◌+◌, ◌≤◌, ◌<◌, ◌≡◌, refl, Bool, true, false, List, [], ◌∷◌, ◌++◌, Option, none, some, if_pos,
  if_neg, arith, length, length-append, ltb, Bool-cases, Option-cases, All, All-append, inl, inr,
  sym, ap, subst, if◌then◌else◌,
}
use driftstore.Text.{Text, text_dec}
use driftstore.Assoc.{IsMap}
use driftstore.Ring.{PreferenceListEntry}
use driftstore.Node.{Node, ReplicateReadResponse, up, removed}
use driftstore.Ring.Owners.{node_ids}
use driftstore.Node.Wellformed.{HasSelf, Standing, standing}
use driftstore.Resolve.{VersionedValue}
use driftstore.Store.{mark_unreachable, local_get}
use driftstore.Store.Writes.{IsStore, local_get-IsWell}
use driftstore.Route.{preference_list_for_key}
use driftstore.Network.{Network}
use driftstore.FanOut.Acks.{OnlyMarks, OnlyMarks-trans}
use driftstore.Get.{
  ReplicaResult, ReadEnd, nothing_found, local_result, remote_result, read_self, other_nodes,
  read_others, get,
}
use driftstore.Get.Repair.{IsResult}
use driftstore.Get.Collect.{
  OwnResult, read_self-OwnResult, but, other_nodes-but, Reads, read_others-Reads,
}
use driftstore.Get.Answer.{Finished, finish_get-Finished}

local_result-IsResult :
    (id : Text) (o : Option VersionedValue)
    → ((v : VersionedValue) → o ≡ some v → IsMap v.clock.counters)
    → IsResult (local_result id o)
local_result-IsResult id none h = tt
local_result-IsResult id (some v) h = h v refl

read_self-IsResult :
    (key : Text) (pref_list : List PreferenceListEntry) (s : Node)
    → IsStore s
    → All IsResult (read_self key pref_list s) × (length (read_self key pref_list s) ≤ 1)
unfolding read_self
read_self-IsResult key [] s h = (tt, omega arith)
read_self-IsResult key (entry ∷ rest) s h = elim (text_dec entry.node_id s.node_id) [
  | yes same ↦ rw (if_pos _ same) (
    (
      local_result-IsResult entry.node_id (local_get key s) (λ v e. local_get-IsWell s key v h e),
      tt,
    ),
    omega arith,
  )
  | no differ ↦ rw (if_neg _ differ) (read_self-IsResult key rest s h)
]

remote_result-IsResult :
    (id : Text) (resp : ReplicateReadResponse)
    → IsMap resp.vector_clock.counters
    → IsResult (remote_result id resp)
remote_result-IsResult id resp h = by_found resp.found
  where
    by_found :
        (b : Bool)
        → IsResult (
            if b
            then record {
              peer_id = id;
              found = true;
              value = resp.value;
              clock = resp.vector_clock;
            }
            else local_result id none)
    by_found true = h
    by_found false = tt

module _ {World : Type 0} (net : Network World) where
  -- no clock that a peer answers holds a node twice
  abbrev pub ReadsWell : Type 0
  ReadsWell =
      (peer key : Text) (w : World) (resp : ReplicateReadResponse)
      → (net.call_replicate_read peer key w).1 ≡ some resp
      → IsMap resp.vector_clock.counters

  -- What the calls to the other nodes add to the results: one for each call at most.
  record Collected (count : ℕ) (s : Node) (results : List ReplicaResult) (s' : Node)
      (results' : List ReplicaResult) : Type 0 where
    wells : All IsResult results'
    bounded : length results' ≤ length results + count
    marks : OnlyMarks s s'

  read_others-Collected :
      (key : Text) (peers : List Text) (results : List ReplicaResult) (world : World) (s : Node)
      → ReadsWell
      → All IsResult results
      → let (world', s', results') = read_others net key peers results world s in
        Collected (length peers) s results s' results'
  unfolding read_others
  read_others-Collected key [] results world s well h = record {
    wells = h;
    bounded = omega arith;
    marks = refl;
  }
  read_others-Collected key (peer ∷ peers) results world s well h =
      elim (Option-cases (net.call_replicate_read peer key world).1) [
        | inl failed ↦
            let rest =
              read_others-Collected key peers results (net.call_replicate_read peer key world).0
                (mark_unreachable peer s) well h in
            rw (failed, read_others)
              (record {
                wells = rest.wells;
                bounded = omega (arith, rest.bounded);
                marks =
                    OnlyMarks-trans s (mark_unreachable peer s) _ (unfold mark_unreachable in refl)
                      rest.marks;
              })
        | inr (resp, ok) ↦
            let more = results ++ remote_result peer resp ∷ [] in
            let rest =
              read_others-Collected key peers more (net.call_replicate_read peer key world).0 s well
                (All-append IsResult results (remote_result peer resp ∷ []) h
                  (remote_result-IsResult peer resp (well peer key world resp ok), tt)) in
            rw (ok, read_others)
              (record {
                wells = rest.wells;
                bounded =
                    omega
                      (arith, rest.bounded, length-append results (remote_result peer resp ∷ []));
                marks = rest.marks;
              })
      ]

length-other_nodes_le :
    (id : Text) (pref_list : List PreferenceListEntry)
    → length (other_nodes id pref_list) ≤ length pref_list
unfolding other_nodes
length-other_nodes_le id [] = omega arith
length-other_nodes_le id (entry ∷ rest) = ground (arith, length-other_nodes_le id rest)

asked_once :
    (key : Text) (pref_list : List PreferenceListEntry) (s : Node)
    → length (read_self key pref_list s) + length (other_nodes s.node_id pref_list)
      ≤ length pref_list
unfolding read_self other_nodes
asked_once key [] s = omega arith
asked_once key (entry ∷ rest) s =
    ground (arith, asked_once key rest s, length-other_nodes_le s.node_id rest)

module _ {World : Type 0} (net : Network World) (order : List Text → List Text) (key : Text)
    (world : World) (s : Node) where
  -- the preference list that the handler works with
  abbrev pub asked : List PreferenceListEntry
  asked = preference_list_for_key key s.n s

  -- The ends of a read: a removed node, or a list of fewer than R entries, finds nothing; otherwise
  -- the results of the store and the calls, one for each entry at most, are resolved by the node with
  -- its new marks.
  pub data GetEnd : World → ReadEnd → Type 0 where
    removed_self :
        Standing s removed
        → GetEnd world (record { node = s; response = nothing_found 0; repair = none })
    few :
        Standing s up
        → length asked < s.r
        → GetEnd world (record { node = s; response = nothing_found 0; repair = none })
    read :
        Standing s up
        → s.r ≤ length asked
        → (own others : List ReplicaResult) → OwnResult key s asked own
        → (world' : World) (s' : Node)
        → Reads net key (order (but s.node_id (node_ids asked))) world s world' s' others
        → length (own ++ others) ≤ length asked
        → OnlyMarks s s'
        → (end : ReadEnd) → Finished key (own ++ others) s' end
        → GetEnd world' end

  -- Every read returns, where the table has the node's own entry, no clock that is stored or
  -- answered holds a node twice, and every call ends, once each. A removed node, or a preference
  -- list of fewer than R entries, finds nothing and changes nothing. Any other read asks each node
  -- of the list but its own, in some order; its results are what its store has, where the list names
  -- it, and what each call that did not fail answered, one for each entry at most, and these are
  -- resolved and repaired by the node, of which the calls changed the unreachable peers alone.
  pub get-GetEnd :
      HasSelf s
      → IsStore s
      → ReadsWell net
      → ((xs : List Text) → length (order xs) ≡ length xs)
      → (world' : World) × (end : ReadEnd) × (get net order key world s ≡ some (world', end))
        × GetEnd world' end
  unfolding get
  get-GetEnd self store well all = elim (standing s self) [
    | inl (gone, known) ↦ (
      world,
      record { node = s; response = nothing_found 0; repair = none },
      rw (known, get) refl,
      removed_self gone,
    )
    | inr (serves, known) ↦ elim (Bool-cases (ltb (length asked) s.r)) [
      | inl less ↦ (
        world,
        record { node = s; response = nothing_found 0; repair = none },
        rw (known, get, less) refl,
        few serves (ground (arith, less)),
      )
      | inr wide ↦
          let own = read_self key asked s in
          let peers = order (other_nodes s.node_id asked) in
          let (own_wells, one) = read_self-IsResult key asked s store in
          let (world', s', results) = read_others net key peers own world s in
          let step = read_others-Collected net key peers own world s well own_wells in
          let same_store : s'.kv_store ≡ s.kv_store = ap (λ x. x.kv_store) step.marks in
          let (end, ended, how) =
            finish_get-Finished key results s' step.wells
              (subst (All (λ e. IsMap e.1.clock.counters)) (sym same_store) store) in
          let (others, together, reads) = read_others-Reads net key peers own world s in
          let bounded : length results ≤ length asked =
            omega
              (arith, step.bounded, all (other_nodes s.node_id asked), asked_once key asked s) in
          (
            world',
            end,
            rw (known, get, wide, ended) refl,
            read serves (ground (arith, wide)) own others (read_self-OwnResult key asked s) world'
                s'
                (subst (λ ps. Reads net key (order ps) world s world' s' others)
                  (other_nodes-but s.node_id asked) reads)
                (subst (λ rs. length rs ≤ length asked) together bounded) step.marks end
                (subst (λ rs. Finished key rs s' end) together how),
          )
    ]
  ]
