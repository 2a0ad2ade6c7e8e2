-- ===== src/Cluster/Puts.antt =====
-- What stands behind the acknowledgements of a coordinated write: each is a node of its own that
-- has the write, or for which another node holds a hint.
use driftstore.Prelude.{
  ℕ, ◌+◌, ◌*◌, ◌≤◌, ◌<◌, ◌≡◌, ◌≢◌, ℤ, true, false, List, [], ◌∷◌, Option, some, if_pos, if_neg,
  arith, length, All, All-map, All-In, All-of_In, In, Pairwise, ◌∙◌,
}
use driftstore.Text.{Text, text_dec}
use driftstore.Assoc.{IsMap}
use driftstore.Clock.{VectorClock}
use driftstore.Ring.{PreferenceListEntry, mix64, fnv1a64}
use driftstore.Route.{is_reachable, preference_list_for_key}
use driftstore.Ring.Natural.{owner_ids, natural_nodes, owner_ids-preference_list}
use driftstore.Ring.Clockwise.{IsRing}
use driftstore.Node.{Node, PutRequest, PutResponse, is_self_removed}
use driftstore.FanOut.{Shared, pref_list_ids}
use driftstore.FanOut.Acks.{run_tasks-Effect}
use driftstore.FanOut.Progress.{turns}
use driftstore.Put.{Times, coordinate_local, coordinate_put, put_answer, names_node, put}
use driftstore.Put.Outcome.{put_answer-quorum, threads, run_end, coordinate_put-run_end}
use driftstore.Cluster.{Fate, Cluster, cluster_net}
use driftstore.Cluster.Calls.{AllWell}
use driftstore.Cluster.Copies.{WellNode, HasCopy}
use driftstore.Cluster.Tally.{Covered, run_tasks-Tallied}
use driftstore.Cluster.Owners.{
  owners, owners-All, owners-distinct, NamesPlainly, NamesPlainly-In, unmarked, picked,
  ones-unmarked, start_tasks-Tally, Tally-picked, picked-All, picked-Pairwise,
}
use driftstore.Cluster.OwnCopies.{coordinate_local-OwnCopy, HasCopy-marks, WellNode-marks}

module _ (key : Text) (pref_list : List PreferenceListEntry) (s : Node) where
  -- What a coordinated write leaves in the cluster.
  pub record Backed (c' : Cluster) (s' : Node) (resp : PutResponse) : Type 0 where
    -- the nodes behind the acknowledgements, but the coordinator
    pub others : List Text
    pub counted : 1 + length others ≡ resp.acks
    pub distinct : Pairwise ◌≢◌ (s.node_id ∷ others)
    pub listed : All (λ o. In o (owner_ids pref_list)) (s.node_id ∷ others)
    pub covered : All (Covered key resp.context c') others
    -- the coordinator's own copy
    pub own : HasCopy key resp.context s'
    pub own_well : WellNode s → WellNode s'
    -- the put succeeds with W acknowledgements
    pub quorum : resp.success ≡ true → s.w ≤ resp.acks
    pub clock_well : IsMap resp.context.counters
    pub well : AllWell c'

module _ (fate : ℕ → Fate) (now : ℕ → ℤ)
    (relay : Text → PutRequest → Cluster → Cluster × Option PutResponse) (key value : Text)
    (context : Option VectorClock) (pref_list : List PreferenceListEntry) (t : Times)
    (schedule : List ℕ) (c : Cluster) (s : Node) where
  pub coordinate_put-Backed :
      AllWell c
      → IsRing s.ring
      → is_self_removed s ≡ some false
      → s.w ≤ length pref_list
      → NamesPlainly s.node_id pref_list
      → Pairwise ◌≢◌ (owner_ids pref_list)
      → ((i : ℕ) → i < length (threads pref_list s) → 2 * length s.ring + 2 ≤ turns i schedule)
      → (c' : Cluster) × (s' : Node) × (resp : PutResponse) × (coordinate_put
            (cluster_net fate now relay)
            key
            value
            context
            pref_list
            t
            schedule
            c
            s
          ≡ some (c', s', resp))
        × Backed key pref_list s c' s' resp
  coordinate_put-Backed well ring serves wide named apart enough =
      let net = cluster_net fate now relay in
      let (s₁, clock, own) = coordinate_local key value context t pref_list s in
      let mine = coordinate_local-OwnCopy key value context t pref_list s serves named in
      let os = owners s.node_id pref_list in
      let g : Shared Cluster = record { world = c; node = s₁; acks = own } in
      let (ts', g') = run_end net key value context pref_list t schedule c s in
      let (ms, tally, on, count) =
        run_tasks-Tallied fate now relay key value clock mine.well schedule os (threads pref_list s)
          (unmarked os) g well
          (start_tasks-Tally key clock c s.node_id (pref_list_ids pref_list []) pref_list) in
      let (covers, many) = Tally-picked key clock g'.world os ts' ms tally in
      let effect = run_tasks-Effect net key value clock schedule (threads pref_list s) g in
      (
        g'.world,
        g'.node,
        put_answer s.w g'.acks clock,
        coordinate_put-run_end net key value context pref_list t schedule c s ring wide enough,
        record {
          others = picked os ms;
          counted = omega (arith, many, count, mine.counted, ones-unmarked os);
          distinct =
              let all = owners-distinct s.node_id pref_list apart named in
              (picked-All (λ o. s.node_id ≢ o) os ms all.0, picked-Pairwise os ms all.1);
          listed = (
            NamesPlainly-In s.node_id pref_list named,
            picked-All (λ o. In o (owner_ids pref_list)) os ms
                (owners-All (λ o. In o (owner_ids pref_list)) s.node_id pref_list
                  (All-of_In (λ o. In o (owner_ids pref_list)) (owner_ids pref_list) (λ o m. m))),
          );
          covered = covers;
          own = HasCopy-marks key clock s₁ g'.node effect.marks mine.copy;
          own_well = λ w. WellNode-marks s₁ g'.node effect.marks (mine.kept w);
          quorum = λ ok. (put_answer-quorum s.w g'.acks clock).0 ok;
          clock_well = mine.well;
          well = on.well;
        },
      )

NamesPlainly-names_node :
    (id : Text) (pref_list : List PreferenceListEntry)
    → NamesPlainly id pref_list
    → names_node id pref_list ≡ true
unfolding names_node
NamesPlainly-names_node id [] named = elim named [ ]
NamesPlainly-names_node id (entry ∷ rest) named = elim (text_dec entry.node_id id) [
  | yes same ↦ if_pos (text_dec entry.node_id id) same _ _
  | no differ ↦
      if_neg (text_dec entry.node_id id) differ _ _
      ∙ NamesPlainly-names_node id rest (rw (if_neg _ differ) at named)
]

-- the nodes that a node takes a key to belong to
abbrev pub homes : Text → Node → List Text
homes key s = natural_nodes s.n s.ring (mix64 (fnv1a64 key))

module _ (fate : ℕ → Fate) (now : ℕ → ℤ)
    (relay : Text → PutRequest → Cluster → Cluster × Option PutResponse) (request : PutRequest)
    (t : Times) (first : ℕ) (schedule : List ℕ) (c : Cluster) (s : Node) where
  abbrev pub listed_for : List PreferenceListEntry
  listed_for = preference_list_for_key request.key s.n s

  -- In a cluster whose connections may lose any request and any answer, where no clock that a
  -- member keeps holds a node twice, a put returns at a node that is a member with its ring in
  -- order, that its preference list of W entries or more names without a hint, once each thread has
  -- had twice as many turns as the ring has tokens, and two more. As many distinct nodes as the put
  -- counts acknowledgements, the coordinator among them, belong to the key by the ring; the
  -- coordinator holds a version that has seen the clock of the answer, and so does each of the
  -- others, or some member holds a hint for it that has.
  pub put-Backed :
      AllWell c
      → IsRing s.ring
      → is_self_removed s ≡ some false
      → s.w ≤ length listed_for
      → NamesPlainly s.node_id listed_for
      → ((i : ℕ) → i < length (threads listed_for s) → 2 * length s.ring + 2 ≤ turns i schedule)
      → (c' : Cluster) × (s' : Node) × (resp : PutResponse) × (put
            (cluster_net fate now relay)
            request
            t
            first
            schedule
            c
            s
          ≡ some (c', s', resp))
        × (b : Backed request.key listed_for s c' s' resp) × All
            (λ n. In n (homes request.key s))
            (s.node_id ∷ b.others)
  unfolding put preference_list_for_key
  put-Backed well ring serves wide named enough =
      let (apart, at_home) =
        owner_ids-preference_list s.n (is_reachable s) s.ring (mix64 (fnv1a64 request.key)) ring in
      let (c', s', resp, returned, b) =
        coordinate_put-Backed fate now relay request.key request.value (some request.context)
          listed_for t schedule c s well ring serves wide named apart enough in
      (
        c',
        s',
        resp,
        rw (serves, put, NamesPlainly-names_node s.node_id listed_for named) returned,
        b,
        All-map (λ n. In n (owner_ids listed_for)) (λ n. In n (homes request.key s))
            (λ n m. All-In (λ o. In o (homes request.key s)) (owner_ids listed_for) n at_home m)
            (s.node_id ∷ b.others) b.listed,
      )
