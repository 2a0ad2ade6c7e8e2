-- ===== src/Cluster/ReadYourWrites.antt =====
-- A write that a put acknowledged is seen by the reads of the other nodes.
use driftstore.Prelude.{
  ℕ, ◌+◌, ◌*◌, ◌≤◌, ◌<◌, ◌≡◌, ◌≢◌, refl, ℤ, true, false, List, ◌∷◌, Option, some, if_pos, if_neg,
  arith, length, All, All-In, In, inl, inr, sym, ap, subst, ◌∙◌,
}
use driftstore.Text.{Text, text_dec}
use driftstore.Assoc.{find, insert}
use driftstore.Assoc.Laws.{find-insert}
use driftstore.Ring.{PreferenceListEntry, mix64, fnv1a64}
use driftstore.Route.{preference_list_for_key}
use driftstore.Ring.Owners.{node_ids}
use driftstore.Ring.Natural.{length-natural_nodes_le}
use driftstore.Ring.Clockwise.{IsRing}
use driftstore.Node.{Node, PutRequest, PutResponse, is_self_removed}
use driftstore.Store.Writes.{some_inj}
use driftstore.FanOut.Progress.{turns}
use driftstore.Get.{ReadEnd, get}
use driftstore.Put.{Times, put}
use driftstore.Put.Outcome.{threads}
use driftstore.Cluster.{Fate, Cluster, cluster_net}
use driftstore.Cluster.Calls.{AllWell, CopyAt, HintAt}
use driftstore.Cluster.Copies.{WellNode, HasCopy}
use driftstore.Cluster.Owners.{NamesPlainly}
use driftstore.Cluster.Puts.{Backed, homes, put-Backed}
use driftstore.Cluster.Gets.{Reorders, Sees, get-Sees}

-- the cluster with the coordinator back among its members
abbrev pub rejoin : Text → Node → Cluster → Cluster
rejoin id s c = record c { members = insert id s c.members }

module _ (id : Text) (s : Node) (c : Cluster) where
  rejoined_self : find id (rejoin id s c).members ≡ some s
  rejoined_self = find-insert id id s c.members ∙ if_pos (text_dec id id) refl _ _

  rejoined_other : (n : Text) → id ≢ n → find n (rejoin id s c).members ≡ find n c.members
  rejoined_other n ne = find-insert id n s c.members ∙ if_neg (text_dec id n) ne _ _

  rejoin-AllWell : AllWell c → WellNode s → AllWell (rejoin id s c)
  unfolding AllWell
  rejoin-AllWell well fine n x e = elim (text_dec id n) [
    | no differ ↦ well n x (sym (rejoined_other n differ) ∙ e)
    | yes same ↦
        subst WellNode
          (some_inj (sym rejoined_self ∙ ap (λ k. find k (rejoin id s c).members) same ∙ e)) fine
  ]

module _ (key : Text) (pref_list : List PreferenceListEntry) (s : Node) (c' : Cluster) (s' : Node)
    (resp : PutResponse) (b : Backed key pref_list s c' s' resp)
    (direct : (n o : Text) → HintAt key resp.context n o c' → ⊥) where
  -- where no hint was needed, each node behind the acknowledgements has the write itself
  other-CopyAt : (n : Text) → In n b.others → CopyAt key resp.context n c'
  other-CopyAt n m = elim (All-In _ b.others n b.covered m) [
    | inl copy ↦ copy
    | inr (k, hint) ↦ absurd (direct k n hint)
  ]

  member-CopyAt :
      (n : Text) → In n (s.node_id ∷ b.others) → CopyAt key resp.context n (rejoin s.node_id s' c')
  member-CopyAt n (inl same) = (
    s',
    ap (λ k. find k (rejoin s.node_id s' c').members) same ∙ rejoined_self s.node_id s' c',
    b.own,
  )
  member-CopyAt n (inr m) =
      let (x, there, copy) = other-CopyAt n m in
      (
        x,
        rejoined_other s.node_id s' c' n (All-In (λ o. s.node_id ≢ o) b.others n b.distinct.0 m)
            ∙ there,
        copy,
      )

module _ (fate : ℕ → Fate) (now : ℕ → ℤ)
    (relay : Text → PutRequest → Cluster → Cluster × Option PutResponse) (request : PutRequest)
    (t : Times) (first : ℕ) (schedule : List ℕ) (c : Cluster) (s : Node)
    (order : List Text → List Text) where
  -- A client that was told of a successful put reads it at any other node. In a cluster whose
  -- connections may lose any request and any answer, where no clock that a node keeps holds a node
  -- twice, let a put succeed at a coordinator that is a member with its ring in order and that its
  -- preference list of W entries or more names without a hint, each thread with twice as many turns
  -- as the ring has tokens, and two more; and let no member hold a hint for the write. A read of the
  -- key then returns at another member whose ring is in order and whose list of R entries or more
  -- names only nodes that the key belongs to by the coordinator's ring, where W and R are more than
  -- N; and it answers a version that the write does not dominate, or says that fewer than R nodes
  -- answered.
  pub get-Sees-put :
      (c' : Cluster) (s' : Node) (resp : PutResponse) (reader : Node)
      → AllWell c
      → WellNode s
      → IsRing s.ring
      → is_self_removed s ≡ some false
      → s.w ≤ length (preference_list_for_key request.key s.n s)
      → NamesPlainly s.node_id (preference_list_for_key request.key s.n s)
      → ((i : ℕ)
          → i < length (threads (preference_list_for_key request.key s.n s) s)
          → 2 * length s.ring + 2 ≤ turns i schedule)
      → put (cluster_net fate now relay) request t first schedule c s ≡ some (c', s', resp)
      → resp.success ≡ true
      → ((n o : Text) → HintAt request.key resp.context n o c' → ⊥)
      → find reader.node_id c'.members ≡ some reader
      → s.node_id ≢ reader.node_id
      → IsRing reader.ring
      → is_self_removed reader ≡ some false
      → reader.r ≤ length (preference_list_for_key request.key reader.n reader)
      → All
          (λ n. In n (homes request.key s))
          (node_ids (preference_list_for_key request.key reader.n reader))
      → Reorders order
      → s.n < s.w + reader.r
      → (c'' : Cluster) × (end : ReadEnd) × (get
            (cluster_net fate now relay)
            order
            request.key
            (rejoin s.node_id s' c')
            reader
          ≡ some (c'', end))
        × Sees resp.context reader end
  unfolding AllWell
  get-Sees-put c' s' resp reader well fine ring serves wide named enough returned ok direct there
        other ring' serves' wide' home reorders meets =
      let (c₁, s₁, resp₁, returned₁, b₁, home₁) =
        put-Backed fate now relay request t first schedule c s well ring serves wide named enough in
      let pref_list = preference_list_for_key request.key s.n s in
      let all : (b : Backed request.key pref_list s c' s' resp) × All
            (λ n. In n (homes request.key s)) (s.node_id ∷ b.others) =
        subst
          (λ p.
            (b : Backed request.key pref_list s p.0 p.1 p.2) × All (λ n. In n (homes request.key s))
              (s.node_id ∷ b.others))
          (some_inj (sym returned₁ ∙ returned)) (b₁, home₁) in
      let b = all.0 in
      let few = length-natural_nodes_le s.n s.ring (mix64 (fnv1a64 request.key)) in
      get-Sees fate now relay order request.key resp.context b.clock_well (homes request.key s)
        (s.node_id ∷ b.others) (rejoin s.node_id s' c') reader
        (rejoin-AllWell s.node_id s' c' b.well (b.own_well fine))
        (b.well reader.node_id reader there).store ring' serves' reorders wide' home b.distinct
        all.1 (omega (arith, few, b.counted, b.quorum ok)) (reader_copy b)
        (λ n m ne. member-CopyAt request.key pref_list s c' s' resp b direct n m)
    where
      reader_copy :
          (b : Backed request.key (preference_list_for_key request.key s.n s) s c' s' resp)
          → In reader.node_id (s.node_id ∷ b.others)
          → HasCopy request.key resp.context reader
      reader_copy b (inl same) = absurd (other (sym same))
      reader_copy b (inr m) =
          let (x, at, copy) =
            other-CopyAt request.key (preference_list_for_key request.key s.n s) s c' s' resp b
              direct reader.node_id m in
          subst (HasCopy request.key resp.context) (some_inj (sym at ∙ there)) copy
