-- ===== src/DriftClient/Contexts.antt =====
-- What a call of the client keeps: its seeds, its rotation and the contexts it has seen.
use driftstore.Prelude.{
  ℕ, zero, suc, ◌+◌, ◌%◌, ◌<◌, ◌≡◌, ◌≢◌, refl, Bool, some, if_pos, if_neg, arith, length, ltb,
  get_elem?, Bool-cases, Option-cases, ◌⊎◌, inl, inr, sym, subst, ◌∙◌, if◌then◌else◌,
}
use driftstore.Text.{Text, text_dec}
use driftstore.Assoc.{find, insert}
use driftstore.Assoc.Laws.{find-insert}
use driftstore.Clock.{u64_mod}
use driftstore.Node.{PutRequest, PutResponse}
use driftstore.DriftClient.{
  Client, Seeds, next_start, request_of, remember_put, put_attempts, client_put,
}

-- What a put leaves of the client: the contexts of other keys, and under the key a clock that the
-- response carried, or what was there.
pub record Remembered (key : Text) (resp : PutResponse) (c c' : Client) : Type 0 where
  pub seeds : c'.seed_nodes ≡ c.seed_nodes
  pub calls : c'.calls_made ≡ c.calls_made
  pub others : (k : Text) → key ≢ k → find k c'.last_context ≡ find k c.last_context
  pub context :
      ((find key c'.last_context ≡ some resp.context) × (0 < length resp.context.counters))
      ⊎ ((find key c'.last_context ≡ find key c.last_context) × (length resp.context.counters ≡ 0))

remember_put-Remembered :
    (key : Text) (resp : PutResponse) (c : Client) → Remembered key resp c (remember_put key resp c)
unfolding remember_put
remember_put-Remembered key resp c = elim (Bool-cases (ltb 0 (length resp.context.counters))) [
  | inl real ↦ by_size real (record {
    seeds = refl;
    calls = refl;
    others = λ k ne. find-insert key k resp.context c.last_context ∙ if_neg (text_dec key k) ne _ _;
    context = inl (
      find-insert key key resp.context c.last_context ∙ if_pos (text_dec key key) refl _ _,
      ground (arith, real),
    );
  })
  | inr empty ↦ by_size empty (record {
    seeds = refl;
    calls = refl;
    others = λ k ne. refl;
    context = inr (refl, ground (arith, empty));
  })
]
  where
    by_size :
        {b : Bool}
        → ltb 0 (length resp.context.counters) ≡ b
        → Remembered key resp c
            (if b then record c { last_context = insert key resp.context c.last_context } else c)
        → Remembered key resp c (
            if ltb 0 (length resp.context.counters)
            then record c { last_context = insert key resp.context c.last_context }
            else c)
    by_size e r =
        subst
          (λ x.
            Remembered key resp c
              (if x then record c { last_context = insert key resp.context c.last_context } else c))
          (sym e) r

module _ {World : Type 0} (seeds : Seeds World) (req : PutRequest) where
  put_attempts-Remembered :
      (left first attempt : ℕ) (world : World) (c : Client)
      → let (world', c', resp) = put_attempts seeds req first left attempt world c in
        Remembered req.key resp c c'
  unfolding put_attempts
  put_attempts-Remembered zero first attempt world c = record {
    seeds = refl;
    calls = refl;
    others = λ k ne. refl;
    context = inr (refl, refl);
  }
  put_attempts-Remembered (suc left) first attempt world c =
      elim (Option-cases (get_elem? c.seed_nodes ((first + attempt) % length c.seed_nodes))) [
        | inl out ↦
            rw (out, put_attempts)
              (record {
                seeds = refl;
                calls = refl;
                others = λ k ne. refl;
                context = inr (refl, refl);
              })
        | inr (addr, at) ↦ elim (Option-cases (seeds.seed_put addr req world).1) [
          | inl failed ↦
              rw (at, put_attempts, failed)
                (put_attempts-Remembered left first (attempt + 1) (seeds.seed_put addr req world).0
                  c)
          | inr (resp, ok) ↦ rw (at, put_attempts, ok) (remember_put-Remembered req.key resp c)
        ]
      ]

pub next_start-some :
    (c : Client)
    → 0 < length c.seed_nodes
    → next_start c
      ≡ some (
        c.calls_made % length c.seed_nodes,
        record c { calls_made = (c.calls_made + 1) % u64_mod },
      )
unfolding next_start
next_start-some c h = ground arith

-- A put of a client that has a seed returns. It moves the rotation by one, whatever the seeds
-- answer, and keeps the contexts of the other keys; the context of the key becomes the
-- response's clock where that counts any node, and stays as it was where it does not.
pub client_put-Remembered :
    {World : Type 0} (seeds : Seeds World) (key value : Text) (world : World) (c : Client)
    → 0 < length c.seed_nodes
    → (world' : World) × (c' : Client) × (resp : PutResponse) × (client_put seeds key value world c
        ≡ some (world', c', resp))
      × Remembered key resp (record c { calls_made = (c.calls_made + 1) % u64_mod }) c'
unfolding client_put
client_put-Remembered {World} seeds key value world c some_seed =
    let first = c.calls_made % length c.seed_nodes in
    let c' : Client = record c { calls_made = (c.calls_made + 1) % u64_mod } in
    let (world', c'', resp) =
      put_attempts seeds (request_of key value c) first (length c.seed_nodes) 0 world c' in
    (
      world',
      c'',
      resp,
      rw (next_start-some c some_seed, client_put) refl,
      put_attempts-Remembered seeds (request_of key value c) (length c.seed_nodes) first 0 world c',
    )
