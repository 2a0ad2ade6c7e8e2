-- ===== src/DriftClient/Failover.antt =====
-- A put reaches a seed that answers, whatever seed its turn starts at.
use driftstore.Prelude.{
  ℕ, zero, suc, ◌+◌, ◌%◌, ◌≤◌, ◌<◌, ◌≡◌, ◌≢◌, refl, List, none, some, arith, length, get_elem?, In,
  Option-cases, inl, inr, ap, sym, ◌∙◌, subst, dec_le,
}
use native.Mathlib.Nat.{mod-lt}
use driftstore.Text.{Text}
use driftstore.Clock.{u64_mod}
use driftstore.Node.{PutRequest, PutResponse}
use driftstore.DriftClient.{Client, Seeds, request_of, put_attempts, client_put}
use driftstore.DriftClient.Contexts.{next_start-some}
use driftstore.Rotation.{rotation_covers, position_of, get_elem?_some}

module _ {World : Type 0} (seeds : Seeds World) where
  -- some seed of the list answered the request so
  abbrev pub AnsweredBy : List Text → PutRequest → PutResponse → Type 0
  AnsweredBy seed_nodes req resp =
      (addr : Text) × (w : World) × (i : ℕ) × (get_elem? seed_nodes i ≡ some addr)
      × ((seeds.seed_put addr req w).1 ≡ some resp)

  put_attempts-AnsweredBy :
      (req : PutRequest) (left first attempt i : ℕ) (world : World) (c : Client) (addr : Text)
      → 0 < length c.seed_nodes
      → attempt ≤ i
      → i < attempt + left
      → get_elem? c.seed_nodes ((first + i) % length c.seed_nodes) ≡ some addr
      → ((w : World) → (seeds.seed_put addr req w).1 ≢ none)
      → AnsweredBy c.seed_nodes req (put_attempts seeds req first left attempt world c).2
  unfolding put_attempts
  put_attempts-AnsweredBy req zero first attempt i world c addr some_seed lo hi at answers =
      absurd (omega arith)
  put_attempts-AnsweredBy req (suc left) first attempt i world c addr some_seed lo hi at answers =
      elim (Option-cases (get_elem? c.seed_nodes ((first + attempt) % length c.seed_nodes))) [
        | inl out ↦ absurd (
            get_elem?_some c.seed_nodes ((first + attempt) % length c.seed_nodes)
              (mod-lt (first + attempt) some_seed) out)
        | inr (peer, here) ↦ elim (Option-cases (seeds.seed_put peer req world).1) [
          | inl failed ↦
              let later : attempt + 1 ≤ i = passed peer attempt here failed lo in
              rw (here, put_attempts, failed)
                (put_attempts-AnsweredBy req left first (attempt + 1) i
                  (seeds.seed_put peer req world).0 c addr some_seed later (omega arith) at answers)
          | inr (resp, ok) ↦
              rw (here, put_attempts, ok)
                (peer, world, (first + attempt) % length c.seed_nodes, here, ok)
        ]
      ]
    where
      passed :
          (peer : Text) (k : ℕ)
          → get_elem? c.seed_nodes ((first + k) % length c.seed_nodes) ≡ some peer
          → (seeds.seed_put peer req world).1 ≡ none
          → k ≤ i
          → k + 1 ≤ i
      passed peer k here failed le = elim (dec_le (k + 1) i) [
        | yes more ↦ more
        | no less ↦
            let same : k ≡ i = omega arith in
            let it : peer ≡ addr = ground (
              arith,
              here,
              subst (λ x. get_elem? c.seed_nodes ((first + x) % length c.seed_nodes) ≡ some addr)
                  (sym same) at,
            ) in
            absurd (answers world (subst (λ x. (seeds.seed_put x req world).1 ≡ none) it failed))
      ]

  -- A put is answered as soon as one of the client's seeds answers every put: from any position of
  -- the rotation the attempts reach it, and the answer is what one of the client's own seeds gave to
  -- this request.
  pub client_put-AnsweredBy :
      (key value : Text) (world : World) (c : Client) (addr : Text)
      → In addr c.seed_nodes
      → ((w : World) → (seeds.seed_put addr (request_of key value c) w).1 ≢ none)
      → (world' : World) × (c' : Client) × (resp : PutResponse) × (client_put seeds key value world
            c
          ≡ some (world', c', resp))
        × AnsweredBy c.seed_nodes (request_of key value c) resp
  unfolding client_put
  client_put-AnsweredBy key value world c addr member answers =
      let (j, less, at) = position_of addr c.seed_nodes member in
      let some_seed : 0 < length c.seed_nodes = omega arith in
      let first = c.calls_made % length c.seed_nodes in
      let (i, within, hits) =
        rotation_covers first (length c.seed_nodes) j (mod-lt c.calls_made some_seed) less in
      let moved : Client = record c { calls_made = (c.calls_made + 1) % u64_mod } in
      let req = request_of key value c in
      let (world', c', resp) = put_attempts seeds req first (length c.seed_nodes) 0 world moved in
      (
        world',
        c',
        resp,
        rw (next_start-some c some_seed, client_put) refl,
        put_attempts-AnsweredBy req (length c.seed_nodes) first 0 i world moved addr some_seed
            (omega arith) (omega arith) (ap (get_elem? c.seed_nodes) hits ∙ at) answers,
      )
