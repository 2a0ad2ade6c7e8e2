-- ===== src/Cluster/Reads.antt =====
-- What the calls of a read report of a write.
use driftstore.Prelude.{
  ℕ, ◌≡◌, ◌⊎◌, refl, ℤ, Bool, true, false, List, [], ◌∷◌, ◌++◌, Option, none, some, All, All-append,
  All-map, In, Bool-cases, Option-cases, inl, inr, sym, ap, subst, ◌∙◌,
}
use mathlib.Core.List.{map-append, append_assoc, append-nil}
use driftstore.Text.{Text}
use driftstore.Assoc.{IsMap}
use driftstore.Clock.{VectorClock}
use driftstore.Clock.Order.{Le}
use driftstore.Node.{Node, PutRequest, PutResponse, ReplicateReadResponse, is_self_removed}
use driftstore.Store.{mark_unreachable, local_get, replicate_read, not_found}
use driftstore.Store.Writes.{some_inj, none_ne_some, local_get-IsWell}
use driftstore.FanOut.Acks.{OnlyMarks, OnlyMarks-trans}
use driftstore.Get.{ReplicaResult, remote_result, read_others}
use driftstore.Get.Repair.{IsResult}
use driftstore.Get.Quorum.{peer_ids}
use driftstore.Cluster.{Fate, Cluster, reading, cluster_net}
use driftstore.Cluster.Copies.{WellNode, HasCopy, HasHint}
use driftstore.Cluster.Calls.{
  CallEnd, untouched, handled, call-CallEnd, AllWell, CopyAt, Onward, Onward-same, Onward-moved,
}
use driftstore.Cluster.Owners.{picked}

-- A result reports the write if its node is one of `ws`.
abbrev pub Reports : VectorClock → List Text → ReplicaResult → Type 0
Reports clock ws r = In r.peer_id ws → (r.found ≡ true) × Le clock r.clock

module _ (key : Text) (clock : VectorClock) where
  -- What a read of a node answers: no clock with a node twice, and the write where it has a copy.
  pub record Answer (x : Node) (a : ReplicateReadResponse) : Type 0 where
    pub well : WellNode x → IsMap a.vector_clock.counters
    pub copy : HasCopy key clock x → (a.found ≡ true) × Le clock a.vector_clock

  -- nothing found, at a node without a copy
  Answer-nothing : (x : Node) → (HasCopy key clock x → ⊥) → Answer x not_found
  Answer-nothing x without = record { well = λ w. tt; copy = λ c. absurd (without c) }

  Answer-returned :
      (x : Node) (a b : ReplicateReadResponse)
      → replicate_read key x ≡ some a
      → replicate_read key x ≡ some b
      → Answer x a
      → Answer x b
  Answer-returned x a b p q h = subst (Answer x) (some_inj (sym p ∙ q)) h

  replicate_read-Answer :
      (x : Node) (a : ReplicateReadResponse) → replicate_read key x ≡ some a → Answer x a
  unfolding replicate_read
  replicate_read-Answer x a e = elim (Option-cases (is_self_removed x)) [
    | inl thrown ↦ absurd (none_ne_some (sym (thrown_lem thrown) ∙ e))
    | inr (gone, known) ↦ elim (Bool-cases gone) [
      | inl left ↦
          Answer-returned x not_found a (rw (known, replicate_read, left) refl) e
            (Answer-nothing x (λ c. cc (known, left, c.serves)))
      | inr live ↦ elim (Option-cases (local_get key x)) [
        | inl empty ↦
            Answer-returned x not_found a (rw (known, replicate_read, live, empty) refl) e
              (Answer-nothing x (λ c. none_ne_some (sym empty ∙ c.holds)))
        | inr (vv, holds) ↦
            Answer-returned x (record { found = true; value = vv.value; vector_clock = vv.clock }) a
              (rw (known, replicate_read, live, holds) refl) e
              (record {
                well = λ w. local_get-IsWell x key vv w.store holds;
                copy = λ c.
                    (refl, subst (λ v. Le clock v.clock) (some_inj (sym c.holds ∙ holds)) c.seen);
              })
      ]
    ]
  ]
    where
      thrown_lem : is_self_removed x ≡ none → replicate_read key x ≡ none
      thrown_lem thrown = rw (thrown, replicate_read) refl

  -- the handler leaves the node as it is
  reading-Answer :
      (x x' : Node) (a : ReplicateReadResponse)
      → reading key x ≡ some (x', a)
      → (x ≡ x') × Answer x a
  reading-Answer x x' a e = elim (Option-cases (replicate_read key x)) [
    | inl thrown ↦ absurd (let h = rw (thrown, reading) at e in let y : ⊥ = cc in y)
    | inr (b, ran) ↦
        let same : ◌≡◌ {A = Option (Node × ReplicateReadResponse)} (some (x, b)) (some (x', a)) =
          rw (ran, reading) at e in
        let pair = some_inj same in
        (ap (λ p. p.0) pair, subst (Answer x) (ap (λ p. p.1) pair) (replicate_read-Answer x b ran))
  ]

module _ (fate : ℕ → Fate) (now : ℕ → ℤ)
    (relay : Text → PutRequest → Cluster → Cluster × Option PutResponse) (key : Text)
    (clock : VectorClock) where
  -- what a call of a read leaves and answers
  record ReadAt (peer : Text) (c : Cluster) (r : Cluster × Option ReplicateReadResponse)
      : Type 0 where
    onward : Onward key clock c r.0
    answer :
        (a : ReplicateReadResponse)
        → r.1 ≡ some a
        → IsMap a.vector_clock.counters
          × (CopyAt key clock peer c → (a.found ≡ true) × Le clock a.vector_clock)

  ReadAt-of :
      (peer : Text) (c : Cluster) (r : Cluster × Option ReplicateReadResponse)
      → AllWell c
      → CallEnd peer (reading key) c r
      → ReadAt peer c r
  unfolding AllWell
  ReadAt-of peer c r well (untouched same nothing) = record {
    onward = Onward-same key clock c r.0 well same;
    answer = λ a e. absurd (none_ne_some (sym nothing ∙ e));
  }
  ReadAt-of peer c r well (handled x x' b there ran moved back) =
      let (same, facts) = reading-Answer key clock x x' b ran in
      let fine = well peer x there in
      record {
        onward =
            Onward-moved key clock peer x x' c r.0 there moved well (subst WellNode same fine)
              (subst (HasCopy key clock) same) (λ o. subst (HasHint o key clock) same);
        answer = λ a e.
            let it = answer_is a e back in
            (
              subst (λ y. IsMap y.vector_clock.counters) it (facts.well fine),
              λ (y, at, copy).
                  let here : y ≡ x = some_inj (sym at ∙ there) in
                  subst (λ z. (z.found ≡ true) × Le clock z.vector_clock) it
                    (facts.copy (subst (HasCopy key clock) here copy)),
            );
      }
    where
      answer_is : (a : ReplicateReadResponse) → r.1 ≡ some a → (r.1 ≡ none) ⊎ (r.1 ≡ some b) → b ≡ a
      answer_is a e (inl lost) = absurd (none_ne_some (sym lost ∙ e))
      answer_is a e (inr same) = some_inj (sym same ∙ e)

  remote_result-Reports :
      (ws : List Text) (peer : Text) (a : ReplicateReadResponse)
      → IsMap a.vector_clock.counters
      → (In peer ws → (a.found ≡ true) × Le clock a.vector_clock)
      → IsResult (remote_result peer a)
        × Reports clock ws (remote_result peer a)
        × ((remote_result peer a).peer_id ≡ peer)
  remote_result-Reports ws peer a u h = elim (Bool-cases a.found) [
    | inl y ↦ rw y (u, (λ m. (refl, (h m).1)), refl)
    | inr n ↦ rw n (tt, (λ m. absurd (let x : ⊥ = cc (n, (h m).0) in x)), refl)
  ]

  -- what the calls to `peers` make of the results
  pub record ReadAll (ws : List Text) (peers : List Text) (results : List ReplicaResult) (s : Node)
      (end : Cluster × Node × List ReplicaResult) : Type 0 where
    pub wells : All IsResult end.2
    pub reports : All (Reports clock ws) end.2
    pub marks : OnlyMarks s end.1
    pub answered : List Bool
    pub ids : peer_ids end.2 ≡ peer_ids results ++ picked peers answered

  pub read_others-ReadAll :
      (ws peers : List Text) (results : List ReplicaResult) (c : Cluster) (s : Node)
      → AllWell c
      → All (λ p. In p ws → CopyAt key clock p c) peers
      → All IsResult results
      → All (Reports clock ws) results
      → ReadAll ws peers results s (read_others (cluster_net fate now relay) key peers results c s)
  unfolding read_others picked
  read_others-ReadAll ws [] results c s well holders wells reports = record {
    wells = wells;
    reports = reports;
    marks = refl;
    answered = [];
    ids = sym (append-nil (peer_ids results));
  }
  read_others-ReadAll ws (peer ∷ peers) results c s well holders wells reports =
      let net = cluster_net fate now relay in
      let r = net.call_replicate_read peer key c in
      let at = ReadAt-of peer c r well (call-CallEnd fate now relay peer (reading key) c) in
      let holders' =
        All-map (λ p. In p ws → CopyAt key clock p c) (λ p. In p ws → CopyAt key clock p r.0)
          (λ p h m. at.onward.copies p (h m)) peers holders.1 in
      elim (Option-cases r.1) [
        | inl failed ↦
            let rest =
              read_others-ReadAll ws peers results r.0 (mark_unreachable peer s) at.onward.well
                holders' wells reports in
            rw (failed, read_others)
              (record {
                wells = rest.wells;
                reports = rest.reports;
                marks =
                    OnlyMarks-trans s (mark_unreachable peer s) _ (unfold mark_unreachable in refl)
                      rest.marks;
                answered = false ∷ rest.answered;
                ids = rest.ids;
              })
        | inr (a, ok) ↦
            let (u, found) = at.answer a ok in
            let (fine, tells, named) =
              remote_result-Reports ws peer a u (λ m. found (holders.0 m)) in
            let more = results ++ remote_result peer a ∷ [] in
            let rest =
              read_others-ReadAll ws peers more r.0 s at.onward.well holders'
                (All-append IsResult results (remote_result peer a ∷ []) wells (fine, tt))
                (All-append (Reports clock ws) results (remote_result peer a ∷ []) reports
                  (tells, tt)) in
            rw (ok, read_others)
              (record {
                wells = rest.wells;
                reports = rest.reports;
                marks = rest.marks;
                answered = true ∷ rest.answered;
                ids =
                    rest.ids
                    ∙ ap (λ ids. ids ++ picked peers rest.answered)
                        (map-append (λ x. x.peer_id) results (remote_result peer a ∷ [])
                          ∙ ap (λ id. peer_ids results ++ id ∷ []) named)
                    ∙ append_assoc (peer_ids results) (peer ∷ []) (picked peers rest.answered);
              })
      ]
