-- ===== src/DriftClient.antt =====
-- src/driftclient.hpp: the client's rotation over its seeds and its causal context.
pub mod Contexts
pub mod Failover
use driftstore.Prelude.{
  ℕ, zero, suc, ◌+◌, ◌%◌, Bool, true, false, List, [], ◌∷◌, Option, none, some, if◌then◌else◌, ltb,
  length, get_elem?,
}
use driftstore.Text.{Text}
use driftstore.Assoc.{Assoc, find, insert}
use driftstore.Clock.{VectorClock, no_clock, u64_mod}
use driftstore.Node.{PutRequest, PutResponse, GetResponse}

pub record Client : Type 0 where
  pub seed_nodes : List Text
  pub calls_made : ℕ
  pub last_context : Assoc VectorClock

-- The calls a client makes, with `none` for a status that is not OK.
pub record Seeds (World : Type 0) : Type 0 where
  pub seed_ping : Text → World → World × Bool
  pub seed_put : Text → PutRequest → World → World × Option PutResponse
  pub seed_get : Text → Text → World → World × Option GetResponse

abbrev pub no_put : PutResponse
no_put = record { success = false; acks = 0; context = no_clock }

abbrev pub no_get : GetResponse
no_get = record { found = false; value = []; responses = 0; context = no_clock }

-- `none` is the division by zero where there is no seed; `size_t` wraps.
unfoldable pub next_start : Client → Option (ℕ × Client)
next_start c = elim (length c.seed_nodes) [
  | zero ↦ none
  | suc k ↦ some (c.calls_made % suc k, record c { calls_made = (c.calls_made + 1) % u64_mod })
]

abbrev pub context_or_empty : Option VectorClock → VectorClock
context_or_empty none = no_clock
context_or_empty (some c) = c

abbrev pub request_of : Text → Text → Client → PutRequest
request_of key value c = record {
  key = key;
  value = value;
  context = context_or_empty (find key c.last_context);
  forwarded = false;
}

-- a response that carries a clock is remembered
unfoldable pub remember_put : Text → PutResponse → Client → Client
remember_put key resp c =
    if ltb 0 (length resp.context.counters)
    then record c { last_context = insert key resp.context c.last_context }
    else c

unfoldable pub remember_get : Text → GetResponse → Client → Client
remember_get key resp c =
    if resp.found then record c { last_context = insert key resp.context c.last_context } else c

module _ {World : Type 0} (seeds : Seeds World) where
  unfoldable pub any_alive : List Text → World → World × Bool
  any_alive [] world = (world, false)
  any_alive (addr ∷ rest) world =
      let (world', alive) = seeds.seed_ping addr world in
      elim alive [ true ↦ (world', true) | false ↦ any_alive rest world' ]

  unfoldable pub connect : List Text → World → World × Option Client
  unfolding any_alive
  connect seed_nodes world =
      let (world', alive) = any_alive seed_nodes world in
      (
        world',
        if alive
            then some (record { seed_nodes = seed_nodes; calls_made = 0; last_context = [] })
            else none,
      )

  -- The attempts that are left, from `attempt` on.
  unfoldable pub put_attempts :
      PutRequest → ℕ → ℕ → ℕ → World → Client → World × Client × PutResponse
  unfolding remember_put
  put_attempts req first zero attempt world c = (world, c, no_put)
  put_attempts req first (suc left) attempt world c =
      elim (get_elem? c.seed_nodes ((first + attempt) % length c.seed_nodes)) [
        | none ↦ (world, c, no_put)
        | some addr ↦
            let (world', answer) = seeds.seed_put addr req world in
            elim answer [
              | some resp ↦ (world', remember_put req.key resp c, resp)
              | none ↦ put_attempts req first left (attempt + 1) world' c
            ]
      ]

  unfoldable pub client_put : Text → Text → World → Client → Option (World × Client × PutResponse)
  unfolding next_start put_attempts
  client_put key value world c = elim (next_start c) [
    | none ↦ none
    | some (first, c') ↦
        some (put_attempts (request_of key value c) first (length c.seed_nodes) 0 world c')
  ]

  unfoldable pub get_attempts : Text → ℕ → ℕ → ℕ → World → Client → World × Client × GetResponse
  unfolding remember_get
  get_attempts key first zero attempt world c = (world, c, no_get)
  get_attempts key first (suc left) attempt world c =
      elim (get_elem? c.seed_nodes ((first + attempt) % length c.seed_nodes)) [
        | none ↦ (world, c, no_get)
        | some addr ↦
            let (world', answer) = seeds.seed_get addr key world in
            elim answer [
              | some resp ↦ (world', remember_get key resp c, resp)
              | none ↦ get_attempts key first left (attempt + 1) world' c
            ]
      ]

  unfoldable pub client_get : Text → World → Client → Option (World × Client × GetResponse)
  unfolding next_start get_attempts
  client_get key world c = elim (next_start c) [
    | none ↦ none
    | some (first, c') ↦ some (get_attempts key first (length c.seed_nodes) 0 world c')
  ]
