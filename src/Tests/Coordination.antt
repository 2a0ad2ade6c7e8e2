-- ===== src/Tests/Coordination.antt =====
-- Reads and writes coordinated by a small node.
use driftstore.Prelude.{
  subst, length, ◌≢◌, inl, inr, ℕ, pos, suc, true, false, List, some, none, [], ◌∷◌, ◌≡◌, ◌≤◌, ◌<◌,
  refl, All, In, arith, ite,
}
use driftstore.Text.{Text, text_dec}
use driftstore.Assoc.{find, insert, IsMap}
use driftstore.Clock.{
  VectorClock, no_clock, compare_vector_clocks, compare_finish, compare_shared, compare_rest,
  verdict, count, merge_clocks, build_new_clock,
}
use driftstore.Ring.{natural, holder, mix64, fnv1a64, preference_list}
use driftstore.Ring.Clockwise.{IsRing, nodes, clockwise}
use driftstore.Node.{Node, stored, ReplicateWriteResponse, PutResponse, PutRequest}
use driftstore.Store.{local_get, store_replicated_write}
use driftstore.Store.Writes.{IsStore}
use driftstore.Network.{Network}
use driftstore.Route.{
  find_substitute, may_substitute, is_reachable, differs, preference_list_for_key,
}
use driftstore.Route.StandIn.{FirstOf, StandsIn, Unfit}
use driftstore.Route.Substitute.{find_substitute-FirstOf}
use driftstore.Ring.Preference.{fresh}
use driftstore.FanOut.{Task, sending, Shared, run_tasks, all_finished, start_tasks, pref_list_ids}
use driftstore.FanOut.Progress.{turns, all_finished-run_tasks}
use driftstore.FanOut.Acks.{Effect, open_tasks, run_tasks-Effect}
use driftstore.Put.{
  Times, coordinate_put, coordinate_local, hold_own_hint, refused, put, forward_put,
}
use driftstore.Put.Outcome.{threads, Coordinated, coordinate_put-Coordinated}
use driftstore.Put.Forward.{RelayedFrom, forward_put-RelayedFrom}
use driftstore.Put.Handler.{PutEnd, put-PutEnd}
use driftstore.Node.Wellformed.{HasSelf}
use driftstore.Get.{ReadEnd, get}
use driftstore.Get.Handler.{ReadsWell, GetEnd, get-GetEnd}
use driftstore.Tests.Samples.{
  clock_b-IsMap, clock_ab-IsMap, entry_a, node_a, node_b, node_c, key_k, clock_b, clock_ab-IsMap,
  version_a, version_b, sample,
}

abbrev accepted : ReplicateWriteResponse
accepted = record { success = true; outcome = stored }

-- Peers that take every write, but `b`, which never answers; they count the calls.
abbrev peers : Network ℕ
peers = record {
  call_replicate_write =
      λ peer request calls. (suc calls, ite (text_dec peer node_b) none (some accepted));
  call_replicate_read = λ peer key calls. (suc calls, none);
  call_put = λ peer request calls. (suc calls, none);
  call_ping = λ peer calls. (suc calls, true);
  call_gossip = λ peer table calls. (suc calls, none);
}

-- `a` with a ring that has `c` as well
abbrev three : Node
three = record sample { ring = (10, node_a) ∷ (20, node_b) ∷ (30, node_c) ∷ [] }

three-IsRing : IsRing three.ring
three-IsRing = omega arith

three-IsStore : IsStore three
three-IsStore = (clock_ab-IsMap, tt)

-- `b` fails, and `c` stands in for it
stand_in : find_substitute key_k node_b (node_a ∷ node_b ∷ []) three ≡ some node_c
unfolding find_substitute text_dec preference_list mix64 fnv1a64 may_substitute is_reachable differs
stand_in = refl

find_substitute-FirstOf_example :
    let excluded = node_a ∷ node_b ∷ [] in
    FirstOf
      (StandsIn node_b excluded three)
      (Unfit node_b excluded three)
      (fresh [] (clockwise (mix64 (fnv1a64 key_k)) three.ring))
      (find_substitute key_k node_b excluded three)
    × ((t : Text) → find_substitute key_k node_b excluded three ≡ some t → In t (nodes three.ring))
    × (find_substitute key_k node_b excluded three ≡ none
        → All (Unfit node_b excluded three) (nodes three.ring))
find_substitute-FirstOf_example =
    find_substitute-FirstOf key_k node_b (node_a ∷ node_b ∷ []) three three-IsRing

abbrev round : List ℕ
round = 0 ∷ 0 ∷ 0 ∷ 0 ∷ 0 ∷ 0 ∷ 0 ∷ 0 ∷ []

abbrev one_thread : List Task
one_thread = sending node_b node_b (node_a ∷ node_b ∷ []) false ∷ []

abbrev shared : Shared ℕ
shared = record { world = 0; node = three; acks = 1 }

enough_turns : (i : ℕ) → i < 1 → 8 ≤ turns i round
unfolding turns
enough_turns i h = ground arith

all_finished-run_tasks_example :
    all_finished (run_tasks peers key_k [] clock_b round one_thread shared).0 ≡ true
all_finished-run_tasks_example =
    all_finished-run_tasks peers key_k [] clock_b round one_thread shared three-IsRing enough_turns

run_tasks-Effect_example :
    let (ts', g') = run_tasks peers key_k [] clock_b round one_thread shared in
    Effect (open_tasks one_thread) shared (open_tasks ts') g'
run_tasks-Effect_example = run_tasks-Effect peers key_k [] clock_b round one_thread shared

abbrev times : Times
times = record { now = pos 300; hint_now = pos 301 }

coordinate_put-Coordinated_example :
    let pref_list = natural node_a ∷ natural node_b ∷ [] in
    (world' : ℕ) × (s' : Node) × (resp : PutResponse) × (coordinate_put peers key_k []
        (some clock_b)
        pref_list
        times
        round
        0
        three
      ≡ some (world', s', resp))
    × Coordinated 2 (coordinate_local key_k [] (some clock_b) times pref_list three) three s' resp
unfolding start_tasks pref_list_ids text_dec
coordinate_put-Coordinated_example =
    coordinate_put-Coordinated peers key_k [] (some clock_b) (natural node_a ∷ natural node_b ∷ [])
      times round 0 three three-IsRing (omega arith) enough_turns

-- Two blind writes through a node that holds the hint for `b` get the same clock, and the hint
-- keeps the first value although both are acknowledged.
abbrev first_blind : Node × VectorClock × ℕ
first_blind =
    coordinate_local key_k (b'1' ∷ []) (some no_clock) times (holder node_a node_b ∷ []) sample

abbrev second_blind : Node × VectorClock × ℕ
second_blind =
    coordinate_local key_k (b'2' ∷ []) (some no_clock) times (holder node_a node_b ∷ [])
      first_blind.0

blind_same_clock : first_blind.1 ≡ second_blind.1
unfolding coordinate_local text_dec find
blind_same_clock = refl

blind_lost : (first_blind.0 ≡ second_blind.0) × (second_blind.2 ≡ 1)
unfolding coordinate_local build_new_clock merge_clocks hold_own_hint compare_vector_clocks
    compare_finish compare_shared compare_rest verdict count find insert text_dec
blind_lost = (refl, refl)

-- A write of `a` that a concurrent write of `b` replaced comes back as an older write of `a` does:
-- the replica then holds a version that the first dominates.
abbrev after_three : Node
after_three =
    (store_replicated_write key_k version_a (store_replicated_write key_k version_b sample).0).0

older_returns : local_get key_k after_three ≡ some version_a
unfolding local_get store_replicated_write compare_vector_clocks compare_finish compare_shared
    compare_rest verdict count find insert text_dec
older_returns = refl

abbrev put_request : PutRequest
put_request = record { key = key_k; value = b'v' ∷ []; context = clock_b; forwarded = false }

three-HasSelf : HasSelf three
unfolding find text_dec
three-HasSelf = (entry_a, refl)

listed_three : preference_list_for_key key_k 2 three ≡ natural node_a ∷ natural node_b ∷ []
unfolding preference_list_for_key preference_list mix64 fnv1a64 is_reachable text_dec
listed_three = refl

enough_three :
    (i : ℕ) → i < length (threads (preference_list_for_key key_k 2 three) three) → 8 ≤ turns i round
unfolding turns start_tasks pref_list_ids text_dec
enough_three i h = enough_turns i (subst (λ l. i < length (threads l three)) listed_three h)

put-PutEnd_example :
    (end : ℕ × Node × PutResponse) × (put peers put_request times 0 round 0 three ≡ some end)
    × PutEnd peers put_request times 0 round 0 three end
put-PutEnd_example =
    put-PutEnd peers put_request times 0 round 0 three three-HasSelf three-IsRing enough_three

-- `c` takes the puts that are forwarded to it
abbrev forwarding : Network ℕ
forwarding = record peers {
  call_put = λ peer request calls. (suc calls, ite (text_dec peer node_c) (some refused) none);
}

c_takes :
    (w : ℕ) → (forwarding.call_put node_c (record put_request { forwarded = true }) w).1 ≢ none
unfolding text_dec
c_takes w e = cc e

forward_put-RelayedFrom_example :
    let pref_list = natural node_b ∷ natural node_c ∷ [] in
    RelayedFrom forwarding
      (record put_request { forwarded = true })
      pref_list
      (forward_put forwarding put_request pref_list 0 7 three).2
forward_put-RelayedFrom_example =
    forward_put-RelayedFrom forwarding put_request (natural node_b ∷ natural node_c ∷ []) 0 7 three
      (natural node_c) (omega arith) (inr (inl refl)) c_takes

-- `b` answers a read with the newer version
abbrev answering : Network ℕ
answering = record peers {
  call_replicate_read = λ peer key calls.
      (suc calls, some (record { found = true; value = b'y' ∷ []; vector_clock = clock_b }));
}

answering-ReadsWell : ReadsWell answering
answering-ReadsWell peer key w resp e =
    let it : clock_b ≡ resp.vector_clock = ground (arith, e) in
    subst (λ c. IsMap c.counters) it clock_b-IsMap

abbrev in_order : List Text → List Text
in_order xs = xs

get-GetEnd_example :
    (world' : ℕ) × (end : ReadEnd) × (get answering in_order key_k 0 three ≡ some (world', end))
    × GetEnd answering in_order key_k 0 three world' end
get-GetEnd_example =
    get-GetEnd answering in_order key_k 0 three three-HasSelf three-IsStore answering-ReadsWell
      (λ xs. refl)
