-- ===== src/Get/Collect.antt =====
-- What a read collects: its own result and those of the other nodes, by what the store and the calls
-- gave.
use driftstore.Prelude.{
  ◌≡◌, ◌≢◌, refl, true, false, List, [], ◌∷◌, ◌++◌, ite, Option, none, some, if_pos, if_neg, In,
  keep_if, Bool-cases, Option-cases, inl, inr, sym, ap, subst, ◌∙◌,
}
use driftstore.Text.{Text, text_dec}
use driftstore.Assoc.{find}
use driftstore.Clock.{no_clock}
use driftstore.Ring.{PreferenceListEntry}
use driftstore.Ring.Owners.{node_ids}
use driftstore.Node.{Node, ReplicateReadResponse}
use driftstore.Resolve.{VersionedValue}
use driftstore.Store.{mark_unreachable, local_get}
use driftstore.Network.{Network}
use driftstore.Get.{ReplicaResult, local_result, remote_result, read_self, other_nodes, read_others}

abbrev pub missing_at : Text → ReplicaResult
missing_at id = record { peer_id = id; found = false; value = []; clock = no_clock }

-- The node's own result: what its store has of the key, where the list names it, and none elsewhere.
pub data OwnResult (key : Text) (s : Node) (pref_list : List PreferenceListEntry)
    : List ReplicaResult → Type 0 where
  unlisted : (In s.node_id (node_ids pref_list) → ⊥) → OwnResult key s pref_list []
  absent :
      In s.node_id (node_ids pref_list)
      → find key s.kv_store ≡ none
      → OwnResult key s pref_list (missing_at s.node_id ∷ [])
  held :
      In s.node_id (node_ids pref_list)
      → (v : VersionedValue) → find key s.kv_store ≡ some v
      → OwnResult key s pref_list
          (record { peer_id = s.node_id; found = true; value = v.value; clock = v.clock } ∷ [])

weaken_own :
    (key : Text) (s : Node) (entry : PreferenceListEntry) (rest : List PreferenceListEntry)
    (own : List ReplicaResult)
    → entry.node_id ≢ s.node_id
    → OwnResult key s rest own
    → OwnResult key s (entry ∷ rest) own
weaken_own key s entry rest _ ne (unlisted out) =
    unlisted (λ m. elim m [ inl same ↦ ne (sym same) | inr later ↦ out later ])
weaken_own key s entry rest _ ne (absent m gone) = absent (inr m) gone
weaken_own key s entry rest _ ne (held m v there) = held (inr m) v there

pub read_self-OwnResult :
    (key : Text) (pref_list : List PreferenceListEntry) (s : Node)
    → OwnResult key s pref_list (read_self key pref_list s)
unfolding read_self local_get
read_self-OwnResult key [] s = unlisted (λ m. elim m [ ])
read_self-OwnResult key (entry ∷ rest) s = elim (text_dec entry.node_id s.node_id) [
  | no differ ↦
      rw (if_neg _ differ) (weaken_own key s entry rest _ differ (read_self-OwnResult key rest s))
  | yes same ↦ rw (if_pos _ same) (
      subst (λ id. OwnResult key s (entry ∷ rest) (local_result id (find key s.kv_store) ∷ []))
        (sym same) (by_lookup (find key s.kv_store) refl (inl (sym same))))
]
  where
    by_lookup :
        (o : Option VersionedValue)
        → find key s.kv_store ≡ o
        → In s.node_id (node_ids (entry ∷ rest))
        → OwnResult key s (entry ∷ rest) (local_result s.node_id o ∷ [])
    by_lookup none e m = absent m e
    by_lookup (some v) e m = held m v e

-- the nodes but one
abbrev pub but : Text → List Text → List Text
but id = keep_if (λ n. ite (text_dec n id) false true)

but_same : (id n : Text) (ns : List Text) → n ≡ id → but id (n ∷ ns) ≡ but id ns
but_same id n ns same =
    let out : ite (text_dec n id) false true ≡ false = if_pos (text_dec n id) same _ _ in
    rw out refl

but_other : (id n : Text) (ns : List Text) → n ≢ id → but id (n ∷ ns) ≡ n ∷ but id ns
but_other id n ns differ =
    let kept : ite (text_dec n id) false true ≡ true = if_neg (text_dec n id) differ _ _ in
    rw kept refl

pub other_nodes-but :
    (id : Text) (pref_list : List PreferenceListEntry)
    → other_nodes id pref_list ≡ but id (node_ids pref_list)
unfolding other_nodes
other_nodes-but id [] = refl
other_nodes-but id (entry ∷ rest) = elim (text_dec entry.node_id id) [
  | yes same ↦
      if_pos (text_dec entry.node_id id) same _ _
      ∙ other_nodes-but id rest
      ∙ sym (but_same id entry.node_id (node_ids rest) same)
  | no differ ↦
      if_neg (text_dec entry.node_id id) differ _ _
      ∙ ap (◌∷◌ entry.node_id) (other_nodes-but id rest)
      ∙ sym (but_other id entry.node_id (node_ids rest) differ)
]

append_one : (xs ys : List ReplicaResult) (x : ReplicaResult) → (xs ++ x ∷ []) ++ ys ≡ xs ++ x ∷ ys
append_one [] ys x = refl
append_one (z ∷ xs) ys x = ap (◌∷◌ z) (append_one xs ys x)

module _ {World : Type 0} (net : Network World) (key : Text) where
  -- Calls to nodes, one after the other, from a state of the peers and of the node to the next, and
  -- the results that they give: what each node answered, and none for a call that failed, whose
  -- node is marked.
  pub data Reads : List Text → World → Node → World → Node → List ReplicaResult → Type 0 where
    all_asked : (w : World) (s : Node) → Reads [] w s w s []
    failed :
        (peer : Text) (peers : List Text) (w w' : World) (s s' : Node) (rs : List ReplicaResult)
        → (net.call_replicate_read peer key w).1 ≡ none
        → Reads peers (net.call_replicate_read peer key w).0 (mark_unreachable peer s) w' s' rs
        → Reads (peer ∷ peers) w s w' s' rs
    empty :
        (peer : Text) (peers : List Text) (w w' : World) (s s' : Node) (rs : List ReplicaResult)
        (resp : ReplicateReadResponse)
        → (net.call_replicate_read peer key w).1 ≡ some resp
        → resp.found ≡ false
        → Reads peers (net.call_replicate_read peer key w).0 s w' s' rs
        → Reads (peer ∷ peers) w s w' s' (missing_at peer ∷ rs)
    found :
        (peer : Text) (peers : List Text) (w w' : World) (s s' : Node) (rs : List ReplicaResult)
        (resp : ReplicateReadResponse)
        → (net.call_replicate_read peer key w).1 ≡ some resp
        → resp.found ≡ true
        → Reads peers (net.call_replicate_read peer key w).0 s w' s' rs
        → Reads (peer ∷ peers) w s w' s' (
            record { peer_id = peer; found = true; value = resp.value; clock = resp.vector_clock }
            ∷ rs)

  pub read_others-Reads :
      (peers : List Text) (results : List ReplicaResult) (w : World) (s : Node)
      → let (w', s', results') = read_others net key peers results w s in
        (rs : List ReplicaResult) × (results' ≡ results ++ rs) × Reads peers w s w' s' rs
  unfolding read_others
  read_others-Reads [] results w s = ([], append_nil results, all_asked w s)
    where
      append_nil : (xs : List ReplicaResult) → xs ≡ xs ++ []
      append_nil [] = refl
      append_nil (x ∷ xs) = ap (◌∷◌ x) (append_nil xs)
  read_others-Reads (peer ∷ peers) results w s =
      elim (Option-cases (net.call_replicate_read peer key w).1) [
        | inl lost ↦
            let (rs, same, reads) =
              read_others-Reads peers results (net.call_replicate_read peer key w).0
                (mark_unreachable peer s) in
            rw (lost, read_others) (rs, same, failed peer peers w _ s _ rs lost reads)
        | inr (resp, ok) ↦
            let (rs, same, reads) =
              read_others-Reads peers (results ++ remote_result peer resp ∷ [])
                (net.call_replicate_read peer key w).0 s in
            rw (ok, read_others)
              (
                remote_result peer resp ∷ rs,
                same ∙ append_one results rs (remote_result peer resp),
                answered resp rs ok _ _ reads,
              )
      ]
    where
      answered :
          (resp : ReplicateReadResponse) (rs : List ReplicaResult)
          → (net.call_replicate_read peer key w).1 ≡ some resp
          → (w' : World) (s' : Node) → Reads peers (net.call_replicate_read peer key w).0 s w' s' rs
          → Reads (peer ∷ peers) w s w' s' (remote_result peer resp ∷ rs)
      answered resp rs ok w' s' reads = elim (Bool-cases resp.found) [
        | inl yes_found ↦ rw yes_found (found peer peers w w' s s' rs resp ok yes_found reads)
        | inr not_found ↦ rw not_found (empty peer peers w w' s s' rs resp ok not_found reads)
      ]
