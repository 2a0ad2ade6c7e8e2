-- ===== src/Cluster/Calls.antt =====
-- What one call does to the nodes of a cluster.
use driftstore.Prelude.{
  ℕ, ◌≡◌, ◌≢◌, ◌⊎◌, refl, ℤ, Bool, true, false, Option, none, some, if_pos, if_neg, Option-cases,
  inl, inr, sym, ap, subst, ◌∙◌,
}
use driftstore.Text.{Text, text_dec}
use driftstore.Assoc.{find, insert, IsMap}
use driftstore.Assoc.Laws.{find-insert}
use driftstore.Clock.{VectorClock}
use driftstore.Node.{Node, PutRequest, PutResponse, ReplicateWriteResponse}
use driftstore.FanOut.{write_request}
use driftstore.Store.{replicate_write}
use driftstore.Store.Writes.{some_inj, none_ne_some}
use driftstore.Cluster.{
  Fate, arrives, request_lost, answer_lost, Cluster, settle, call, cluster_net,
}
use driftstore.Cluster.Copies.{WellNode, HasCopy, HasHint}
use driftstore.Cluster.Wrote.{replicate_write-Wrote}

-- How a call ends: no handler returned, or the callee's did, and its answer came back or was lost.
pub data CallEnd {A : Type 0} (peer : Text) (handler : Node → Option (Node × A)) (c : Cluster)
    (end : Cluster × Option A) : Type 0 where
  untouched : end.0.members ≡ c.members → end.1 ≡ none → CallEnd peer handler c end
  handled :
      (s s' : Node) (a : A)
      → find peer c.members ≡ some s
      → handler s ≡ some (s', a)
      → end.0.members ≡ insert peer s' c.members
      → (end.1 ≡ none) ⊎ (end.1 ≡ some a)
      → CallEnd peer handler c end

settle-CallEnd :
    {A : Type 0} (f : Fate) (peer : Text) (handler : Node → Option (Node × A)) (s : Node)
    (c : Cluster) (r : Option (Node × A))
    → find peer c.members ≡ some s
    → handler s ≡ r
    → CallEnd peer handler c (settle f peer r c)
unfolding settle
settle-CallEnd request_lost peer handler s c r there e = untouched refl refl
settle-CallEnd arrives peer handler s c none there e = untouched refl refl
settle-CallEnd answer_lost peer handler s c none there e = untouched refl refl
settle-CallEnd arrives peer handler s c (some (s', a)) there e =
    handled s s' a there e refl (inr refl)
settle-CallEnd answer_lost peer handler s c (some (s', a)) there e =
    handled s s' a there e refl (inl refl)

-- no clock that any node keeps holds a node twice
unfoldable pub AllWell : Cluster → Type 0
AllWell c = (n : Text) (s : Node) → find n c.members ≡ some s → WellNode s

module _ (key : Text) (clock : VectorClock) where
  abbrev pub CopyAt : Text → Cluster → Type 0
  CopyAt n c = (s : Node) × (find n c.members ≡ some s) × HasCopy key clock s

  abbrev pub HintAt : Text → Text → Cluster → Type 0
  HintAt n owner c = (s : Node) × (find n c.members ≡ some s) × HasHint owner key clock s

  -- What the cluster has of a write, it keeps.
  pub record Onward (c c' : Cluster) : Type 0 where
    pub well : AllWell c'
    pub copies : (n : Text) → CopyAt n c → CopyAt n c'
    pub hints : (n owner : Text) → HintAt n owner c → HintAt n owner c'

  pub Onward-trans : {a b c : Cluster} → Onward a b → Onward b c → Onward a c
  Onward-trans p q = record {
    well = q.well;
    copies = λ n h. q.copies n (p.copies n h);
    hints = λ n o h. q.hints n o (p.hints n o h);
  }

  pub Onward-same : (c c' : Cluster) → AllWell c → c'.members ≡ c.members → Onward c c'
  unfolding AllWell
  Onward-same c c' well same = record {
    well = λ n s e. well n s (ap (find n) (sym same) ∙ e);
    copies = λ n (s, e, h). (s, ap (find n) same ∙ e, h);
    hints = λ n o (s, e, h). (s, ap (find n) same ∙ e, h);
  }

  -- one node goes on to the next state
  module _ (peer : Text) (s s' : Node) (c c' : Cluster) (there : find peer c.members ≡ some s)
      (moved : c'.members ≡ insert peer s' c.members) where
    pub found_self : find peer c'.members ≡ some s'
    found_self =
        ap (find peer) moved
        ∙ find-insert peer peer s' c.members
        ∙ if_pos (text_dec peer peer) refl _ _

    pub found_other : (n : Text) → peer ≢ n → find n c'.members ≡ find n c.members
    found_other n ne =
        ap (find n) moved ∙ find-insert peer n s' c.members ∙ if_neg (text_dec peer n) ne _ _

    -- what holds of the node before holds of it after
    pub carried :
        (P : Node → Type 0)
        → (P s → P s')
        → (n : Text) → (x : Node) × (find n c.members ≡ some x) × P x
        → (x : Node) × (find n c'.members ≡ some x) × P x
    carried P step n (x, e, h) = elim (text_dec peer n) [
      | no differ ↦ (x, found_other n differ ∙ e, h)
      | yes same ↦
          let it : x ≡ s = some_inj (sym e ∙ ap (λ k. find k c.members) (sym same) ∙ there) in
          (s', ap (λ k. find k c'.members) (sym same) ∙ found_self, step (subst P it h))
    ]

    pub Onward-moved :
        AllWell c
        → WellNode s'
        → (HasCopy key clock s → HasCopy key clock s')
        → ((o : Text) → HasHint o key clock s → HasHint o key clock s')
        → Onward c c'
    unfolding AllWell
    Onward-moved well well' copies hints = record {
      well = λ n x e. elim (text_dec peer n) [
        | no differ ↦ well n x (sym (found_other n differ) ∙ e)
        | yes same ↦
            subst WellNode (some_inj (sym found_self ∙ ap (λ k. find k c'.members) same ∙ e)) well'
      ];
      copies = carried (HasCopy key clock) copies;
      hints = λ n o. carried (HasHint o key clock) (hints o) n;
    }

module _ (fate : ℕ → Fate) (now : ℕ → ℤ)
    (relay : Text → PutRequest → Cluster → Cluster × Option PutResponse) where
  pub call-CallEnd :
      {A : Type 0} (peer : Text) (handler : Node → Option (Node × A)) (c : Cluster)
      → CallEnd peer handler c (call fate now relay peer handler c)
  unfolding call
  call-CallEnd peer handler c = elim (Option-cases (find peer c.members)) [
    | inl nobody ↦ rw (nobody, call) (untouched refl refl)
    | inr (s, there) ↦
        rw (there, call) (settle-CallEnd (fate c.tick) peer handler s c (handler s) there refl)
  ]

  module _ (key value : Text) (clock : VectorClock) (well_clock : IsMap clock.counters)
      (peer owner : Text) (is_hint : Bool) (c : Cluster) (well : AllWell c) where
    -- what an answered write has left at the callee
    pub record Written (r : Cluster × Option ReplicateWriteResponse) : Type 0 where
      pub onward : Onward key clock c r.0
      pub copied :
          (resp : ReplicateWriteResponse)
          → r.1 ≡ some resp
          → resp.success ≡ true
          → is_hint ≡ false
          → CopyAt key clock peer r.0
      pub hinted :
          (resp : ReplicateWriteResponse)
          → r.1 ≡ some resp
          → resp.success ≡ true
          → is_hint ≡ true
          → HintAt key clock peer owner r.0

    abbrev write_handler : Node → Option (Node × ReplicateWriteResponse)
    write_handler s =
        replicate_write (write_request (cluster_net fate now relay) key value clock owner is_hint)
          (now c.tick) s

    Written-of :
        (r : Cluster × Option ReplicateWriteResponse) → CallEnd peer write_handler c r → Written r
    unfolding AllWell
    Written-of r (untouched same nothing) = record {
      onward = Onward-same key clock c r.0 well same;
      copied = λ resp e. absurd (none_ne_some (sym nothing ∙ e));
      hinted = λ resp e. absurd (none_ne_some (sym nothing ∙ e));
    }
    Written-of r (handled s s' a there ran moved back) =
        let wrote =
          replicate_write-Wrote key value clock well_clock owner (now c.tick) s (well peer s there)
            is_hint (s', a) ran in
        let found = found_self key clock peer s s' c r.0 there moved in
        record {
          onward =
              Onward-moved key clock peer s s' c r.0 there moved well wrote.well wrote.copies
                wrote.hints;
          copied = λ resp e ok plain.
              (s', found, wrote.copied (ap (λ x. x.success) (answer_is resp a e back) ∙ ok) plain);
          hinted = λ resp e ok hint.
              (s', found, wrote.hinted (ap (λ x. x.success) (answer_is resp a e back) ∙ ok) hint);
        }
      where
        answer_is :
            (resp a : ReplicateWriteResponse)
            → r.1 ≡ some resp
            → (r.1 ≡ none) ⊎ (r.1 ≡ some a)
            → a ≡ resp
        answer_is resp a e (inl lost) = absurd (none_ne_some (sym lost ∙ e))
        answer_is resp a e (inr same) = some_inj (sym same ∙ e)

    -- A write is at its callee where it is answered with success, and none is lost elsewhere.
    pub write-Written : Written (
        (cluster_net fate now relay).call_replicate_write peer
          (write_request (cluster_net fate now relay) key value clock owner is_hint)
          c)
    write-Written = Written-of _ (call-CallEnd peer write_handler c)
