-- ===== src/Cluster/Live.antt =====
-- Members that answer: their state as calls reach them, where no call is lost.
use driftstore.Prelude.{
  ℕ, ◌≡◌, refl, ℤ, Bool, true, false, List, [], ◌∷◌, Option, some, inl, inr, sym, ap, subst, ◌∙◌,
  In,
}
use driftstore.Text.{Text}
use driftstore.Assoc.{find}
use driftstore.Clock.{no_clock}
use driftstore.Node.{
  Node, HeldHint, PutRequest, PutResponse, ReplicateWriteResponse, is_self_removed,
}
use driftstore.Store.{accept_write, replicate_write}
use driftstore.Sections.Parts.{Untouched, store_replicated_write-Untouched}
use driftstore.Reachability.{delivery_request, ping_all}
use driftstore.Store.Writes.{some_inj}
use driftstore.Cluster.{Fate, arrives, Cluster, settle, call, cluster_net}
use driftstore.Cluster.Copies.{same_self}
use driftstore.Cluster.Calls.{CallEnd, untouched, handled, call-CallEnd, carried}
use driftstore.Cluster.Deliveries.{delivery}
use driftstore.Cluster.Handed.{plain_end}

abbrev pair : Text → Bool → Text × Bool
pair n b = (n, b)

-- a member that was not removed
abbrev pub Live : Text → Cluster → Type 0
Live n c = (x : Node) × (find n c.members ≡ some x) × (is_self_removed x ≡ some false)

plain_end_serves :
    (hint : HeldHint) (now : ℤ) (s : Node) (end : Node × ReplicateWriteResponse)
    → replicate_write (delivery_request hint) now s ≡ some end
    → is_self_removed s ≡ some false
    → is_self_removed end.0 ≡ some false
unfolding Untouched
plain_end_serves hint now s end ran serves = elim (plain_end hint now s end ran) [
  | inl same ↦ ap is_self_removed same ∙ serves
  | inr written ↦
      let (id, table, ring) =
        store_replicated_write-Untouched hint.key
          (record { value = hint.value; clock = hint.clock }) s in
      ap is_self_removed written ∙ same_self s _ id table ∙ serves
]

plain_accepted :
    (hint : HeldHint) (now : ℤ) (s : Node)
    → is_self_removed s ≡ some false
    → (s' : Node) × (resp : ReplicateWriteResponse) × (replicate_write (delivery_request hint) now s
        ≡ some (s', resp))
      × (resp.success ≡ true)
unfolding replicate_write accept_write
plain_accepted hint now s serves =
    let end = accept_write (delivery_request hint) now s in
    (end.0, end.1, rw (serves, replicate_write) refl, refl)

module _ (fate : ℕ → Fate) (now : ℕ → ℤ)
    (relay : Text → PutRequest → Cluster → Cluster × Option PutResponse) where
  -- a handler that leaves a live node live leaves every node so
  call-Live :
      {A : Type 0} (peer : Text) (handler : Node → Option (Node × A)) (c : Cluster) (n : Text)
      → ((s s' : Node) (a : A)
          → handler s ≡ some (s', a)
          → is_self_removed s ≡ some false
          → is_self_removed s' ≡ some false)
      → Live n c
      → Live n (call fate now relay peer handler c).0
  call-Live {A} peer handler c n keeps live =
      by_end (call fate now relay peer handler c) (call-CallEnd fate now relay peer handler c)
    where
      by_end : (r : Cluster × Option A) → CallEnd peer handler c r → Live n r.0
      by_end r (untouched same nothing) = (live.0, ap (find n) same ∙ live.1, live.2)
      by_end r (handled s s' a there ran moved back) =
          carried [] no_clock peer s s' c r.0 there moved (λ x. is_self_removed x ≡ some false)
            (keeps s s' a ran) n live

  pub delivery-Live :
      (target : Text) (hint : HeldHint) (c : Cluster) (n : Text)
      → Live n c
      → Live n (delivery fate now relay target hint c).0
  delivery-Live target hint c n =
      call-Live target (λ s. replicate_write (delivery_request hint) (now c.tick) s) c n
        (λ s s' a ran serves. plain_end_serves hint (now c.tick) s (s', a) ran serves)

  ping-Live :
      (peer : Text) (c : Cluster) (n : Text)
      → Live n c
      → Live n ((cluster_net fate now relay).call_ping peer c).0
  ping-Live peer c n =
      call-Live peer (λ s. some (s, tt)) c n
        (λ s s' a ran serves.
          subst (λ x. is_self_removed x ≡ some false) (ap (λ x. x.0) (some_inj ran)) serves)

  module _ (all_arrive : (tick : ℕ) → fate tick ≡ arrives) where
    call_answered :
        {A : Type 0} (peer : Text) (handler : Node → Option (Node × A)) (c : Cluster) (s s' : Node)
        (a : A)
        → find peer c.members ≡ some s
        → handler s ≡ some (s', a)
        → (call fate now relay peer handler c).1 ≡ some a
    unfolding call settle
    call_answered peer handler c s s' a there ran = rw (there, call, all_arrive c.tick, ran) refl

    -- a delivery to a live node succeeds
    pub delivery_succeeds :
        (target : Text) (hint : HeldHint) (c : Cluster)
        → Live target c
        → (resp : ReplicateWriteResponse) × ((delivery fate now relay target hint c).1 ≡ some resp)
          × (resp.success ≡ true)
    delivery_succeeds target hint c (x, there, serves) =
        let (s', resp, ran, ok) = plain_accepted hint (now c.tick) x serves in
        (
          resp,
          call_answered target (λ s. replicate_write (delivery_request hint) (now c.tick) s) c x s'
              resp there ran,
          ok,
        )

    ping_answered :
        (peer : Text) (c : Cluster)
        → Live peer c
        → ((cluster_net fate now relay).call_ping peer c).1 ≡ true
    ping_answered peer c (x, there, serves) =
        rw (call_answered peer (λ s. some (s, tt)) c x x tt there refl) refl

    -- a live node answers its ping, and is live after all pings
    pub ping_all_answered :
        (peers : List Text) (c : Cluster) (n : Text)
        → Live n c
        → let (c', answers) = ping_all (cluster_net fate now relay) peers c in
          Live n c' × (In n peers → In (n, true) answers)
    unfolding ping_all
    ping_all_answered [] c n live = (live, λ m. elim m [ ])
    ping_all_answered (peer ∷ peers) c n live =
        let (after, listed) = ping_all_answered peers _ n (ping-Live peer c n live) in
        (
          after,
          λ m. elim m [
            | inl same ↦ inl (
                subst
                  (λ p.
                    ◌≡◌ {A = Text × Bool} (n, true)
                      (p, ((cluster_net fate now relay).call_ping p c).1))
                  same (ap (pair n) (sym (ping_answered n c live))))
            | inr m' ↦ inr (listed m')
          ],
        )
