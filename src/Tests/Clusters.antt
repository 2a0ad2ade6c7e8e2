-- ===== src/Tests/Clusters.antt =====
-- A cluster of three nodes, of which the third never gets a request.
use driftstore.Prelude.{
  ℕ, ◌≤◌, ◌<◌, ℤ, pos, true, false, List, [], ◌∷◌, Option, none, some, ◌≡◌, ◌≢◌, refl, All, In, inl,
  inr, length, arith, All-of_In, ◌==◌, if◌then◌else◌,
}
use driftstore.Text.{Text, text_dec}
use driftstore.Assoc.{find}
use driftstore.Clock.{VectorClock, no_clock}
use driftstore.Ring.{PreferenceListEntry, preference_list, mix64, fnv1a64}
use driftstore.Ring.Clockwise.{IsRing}
use driftstore.Ring.Owners.{node_ids}
use driftstore.Node.{Node, MembershipEntry, up, PutRequest, PutResponse, is_self_removed}
use driftstore.Route.{is_reachable, preference_list_for_key}
use driftstore.Put.{Times, put}
use driftstore.Get.{ReadEnd, get}
use driftstore.Assoc.Laws.{All-find}
use driftstore.Resolve.{VersionedValue}
use driftstore.Store.Hints.{held_hint}
use driftstore.Cluster.Copies.{WellNode}
use driftstore.Cluster.Calls.{AllWell, HintAt}
use driftstore.Cluster.Owners.{NamesPlainly}
use driftstore.Ring.Natural.{natural_nodes}
use driftstore.Ring.Preference.{fresh}
use driftstore.FanOut.{start_tasks, pref_list_ids}
use driftstore.Cluster.Puts.{Backed, homes, put-Backed}
use driftstore.Cluster.Gets.{Reorders, Sees}
use driftstore.Cluster.ReadYourWrites.{rejoin, get-Sees-put}
use driftstore.FanOut.Progress.{turns}
use driftstore.Put.Outcome.{threads}
use driftstore.Cluster.{Fate, arrives, request_lost, Cluster, cluster_net, call}
use driftstore.Store.{replicate_write}
use driftstore.Assoc.{insert}
use driftstore.Route.{may_substitute}
use driftstore.Clock.{merge_clocks}
use driftstore.Tests.Samples.{node_a, node_b, node_c, key_k}

abbrev entry : Text → MembershipEntry
entry id = record { writer_id = id; address = id; status = up; tokens = []; last_updated = pos 1 }

abbrev pub node : Text → Node
node id = record {
  node_id = id;
  vnodes = 1;
  table = (id, entry id) ∷ [];
  ring = (10, node_a) ∷ (20, node_b) ∷ (30, node_c) ∷ [];
  unreachable_peers = [];
  kv_store = [];
  hints_for_target = [];
  n = 3;
  w = 2;
  r = 2;
}

-- `c` cannot be reached by the first call
abbrev pub fate : ℕ → Fate
fate tick = if tick == 1 then request_lost else arrives

abbrev pub now : ℕ → ℤ
now tick = pos tick

abbrev pub relay : Text → PutRequest → Cluster → Cluster × Option PutResponse
relay peer request c = (c, none)

abbrev pub start_cluster : Cluster
start_cluster = record {
  members = (node_a, node node_a) ∷ (node_b, node node_b) ∷ (node_c, node node_c) ∷ [];
  tick = 0;
}

abbrev request : PutRequest
request = record { key = key_k; value = b'v' ∷ []; context = no_clock; forwarded = false }

abbrev times : Times
times = record { now = pos 5; hint_now = pos 6 }

-- eight turns for each thread
abbrev turns_each : List ℕ
turns_each = 0 ∷ 0 ∷ 0 ∷ 0 ∷ 0 ∷ 0 ∷ 0 ∷ 0 ∷ 1 ∷ 1 ∷ 1 ∷ 1 ∷ 1 ∷ 1 ∷ 1 ∷ 1 ∷ []

abbrev pub clock_v : VectorClock
clock_v = record { counters = (node_a, 1) ∷ []; last_updated = pos 5; writer_id = node_a }

abbrev version_v : VersionedValue
version_v = record { value = b'v' ∷ []; clock = clock_v }

-- `b` has the write as well, and `a` has marked `c`
abbrev after_put : Cluster
after_put = record {
  members =
      (node_a, node node_a)
      ∷ (node_b, record (node node_b) { kv_store = (key_k, version_v) ∷ [] })
      ∷ (node_c, node node_c)
      ∷ [];
  tick = 2;
}

abbrev coordinator : Node
coordinator = record (node node_a) {
  unreachable_peers = node_c ∷ [];
  kv_store = (key_k, version_v) ∷ [];
}

abbrev two_acks : PutResponse
two_acks = record { success = true; acks = 2; context = clock_v }

put_run :
    put (cluster_net fate now relay) request times 0 turns_each start_cluster (node node_a)
    ≡ some (after_put, coordinator, two_acks)
unfolding put find text_dec preference_list mix64 fnv1a64 is_reachable call replicate_write insert
    may_substitute merge_clocks
put_run = refl

tokens-IsRing : IsRing ((10, node_a) ∷ (20, node_b) ∷ (30, node_c) ∷ [])
tokens-IsRing = omega arith

serves_a : is_self_removed (node node_a) ≡ some false
unfolding is_self_removed find text_dec
serves_a = refl

serves_c : is_self_removed (node node_c) ≡ some false
unfolding is_self_removed find text_dec
serves_c = refl

fresh_node : (id : Text) → WellNode (node id)
unfolding held_hint find
fresh_node id = record { store = tt; hints = λ t k h e. absurd (let x : ⊥ = cc in x) }

pub start_well : AllWell start_cluster
unfolding AllWell
start_well n s e =
    All-find (λ k x. WellNode x) start_cluster.members
      (fresh_node node_a, (fresh_node node_b, (fresh_node node_c, tt))) n s e

abbrev listed : List PreferenceListEntry
listed = preference_list_for_key key_k 3 (node node_a)

listed_lem : node_ids listed ≡ node_a ∷ node_b ∷ node_c ∷ []
unfolding preference_list_for_key preference_list mix64 fnv1a64 is_reachable text_dec find
listed_lem = refl

plainly : NamesPlainly node_a listed
unfolding preference_list_for_key preference_list mix64 fnv1a64 is_reachable text_dec find
plainly = refl

long_enough : 2 ≤ length listed
unfolding preference_list_for_key preference_list mix64 fnv1a64 is_reachable text_dec find
long_enough = omega arith

two_threads : length (threads listed (node node_a)) ≡ 2
unfolding preference_list_for_key preference_list mix64 fnv1a64 is_reachable text_dec find threads
    start_tasks pref_list_ids
two_threads = refl

enough : (i : ℕ) → i < length (threads listed (node node_a)) → 8 ≤ turns i turns_each
unfolding turns
enough i h = let e = two_threads in ground arith

put-Backed_example :
    (c' : Cluster) × (s' : Node) × (resp : PutResponse) × (put
        (cluster_net fate now relay)
        request
        times
        0
        turns_each
        start_cluster
        (node node_a)
      ≡ some (c', s', resp))
    × (b : Backed key_k listed (node node_a) c' s' resp) × All
        (λ n. In n (homes key_k (node node_a)))
        (node_a ∷ b.others)
put-Backed_example =
    put-Backed fate now relay request times 0 turns_each start_cluster (node node_a) start_well
      tokens-IsRing serves_a long_enough plainly enough

-- what the third node takes the key to belong to
reader_list :
    All
      (λ n. In n (homes key_k (node node_a)))
      (node_ids (preference_list_for_key key_k 3 (node node_c)))
unfolding preference_list_for_key preference_list mix64 fnv1a64 is_reachable text_dec find
    natural_nodes fresh
reader_list = (inl refl, (inr (inl refl), (inr (inr (inl refl)), tt)))

reader_long : 2 ≤ length (preference_list_for_key key_k 3 (node node_c))
unfolding preference_list_for_key preference_list mix64 fnv1a64 is_reachable text_dec find
reader_long = omega arith

hint_free : (n o : Text) → HintAt key_k clock_v n o after_put → ⊥
unfolding held_hint find
hint_free n o (s, at, hint) =
    let none_held : held_hint o key_k s ≡ none =
      All-find (λ k x. held_hint o key_k x ≡ none) after_put.members (refl, (refl, (refl, tt))) n s
        at in
    let e = hint.held in absurd (let x : ⊥ = cc in x)

same_order : Reorders (λ xs. xs)
same_order xs = (λ p. p, All-of_In (λ x. In x xs) xs (λ x m. m))

a_apart_c : node_a ≢ node_c
a_apart_c e = ground (arith, e)

get-Sees-put_example :
    (c'' : Cluster) × (end : ReadEnd) × (get
        (cluster_net fate now relay)
        (λ xs. xs)
        key_k
        (rejoin node_a coordinator after_put)
        (node node_c)
      ≡ some (c'', end))
    × Sees clock_v (node node_c) end
unfolding find text_dec
get-Sees-put_example =
    get-Sees-put fate now relay request times 0 turns_each start_cluster (node node_a) (λ xs. xs)
      after_put coordinator two_acks (node node_c) start_well (fresh_node node_a) tokens-IsRing
      serves_a long_enough plainly enough put_run refl hint_free refl a_apart_c tokens-IsRing
      serves_c reader_long reader_list same_order (omega arith)
