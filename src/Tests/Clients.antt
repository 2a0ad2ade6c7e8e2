-- ===== src/Tests/Clients.antt =====
-- A client of three seeds, the first of which is down.
use driftstore.Prelude.{
  ℕ, suc, ◌%◌, true, some, none, [], ◌∷◌, ◌≡◌, ◌≢◌, refl, inl, inr, arith, ite,
}
use driftstore.Text.{text_dec}
use driftstore.Clock.{u64_mod}
use driftstore.Node.{PutResponse}
use driftstore.DriftClient.{Client, Seeds, client_put, request_of}
use driftstore.DriftClient.Contexts.{Remembered, client_put-Remembered}
use driftstore.DriftClient.Failover.{AnsweredBy, client_put-AnsweredBy}
use driftstore.Tests.Samples.{node_a, node_b, node_c, key_k, clock_ab}

abbrev answer : PutResponse
answer = record { success = true; acks = 2; context = clock_ab }

abbrev seeds : Seeds ℕ
seeds = record {
  seed_ping = λ addr calls. (suc calls, true);
  seed_put = λ addr req calls. (suc calls, ite (text_dec addr node_a) none (some answer));
  seed_get = λ addr key calls. (suc calls, none);
}

abbrev client : Client
client = record { seed_nodes = node_a ∷ node_b ∷ node_c ∷ []; calls_made = 3; last_context = [] }

client_put-Remembered_example :
    (world' : ℕ) × (c' : Client) × (resp : PutResponse) × (client_put seeds key_k
        (b'v' ∷ [])
        0
        client
      ≡ some (world', c', resp))
    × Remembered key_k resp (record client { calls_made = 4 % u64_mod }) c'
client_put-Remembered_example = client_put-Remembered seeds key_k (b'v' ∷ []) 0 client (omega arith)

c_answers : (w : ℕ) → (seeds.seed_put node_c (request_of key_k (b'v' ∷ []) client) w).1 ≢ none
unfolding text_dec
c_answers w e = cc e

client_put-AnsweredBy_example :
    (world' : ℕ) × (c' : Client) × (resp : PutResponse) × (client_put seeds key_k
        (b'v' ∷ [])
        0
        client
      ≡ some (world', c', resp))
    × AnsweredBy seeds client.seed_nodes (request_of key_k (b'v' ∷ []) client) resp
client_put-AnsweredBy_example =
    client_put-AnsweredBy seeds key_k (b'v' ∷ []) 0 client node_c (inr (inr (inl refl))) c_answers
