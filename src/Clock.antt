-- ===== src/Clock.antt =====
-- src/vector_clock.hpp, lines 37-194: comparing, merging and building vector clocks.
pub mod Order
pub mod Compare
pub mod Merge
pub mod Build
use driftstore.Prelude.{
  ℕ, ◌+◌, ◌%◌, ◌^◌, max, ℤ, Bool, true, false, not, ◌&&◌, [], ◌∷◌, Option, none, some, ltb, length,
  if◌then◌else◌, pos,
}
use driftstore.Text.{Text}
use driftstore.Assoc.{Assoc, find, insert}

-- `message VectorClock`
pub record VectorClock : Type 0 where
  pub counters : Assoc ℕ
  pub last_updated : ℤ
  pub writer_id : Text

-- the message that a default constructor makes
abbrev pub no_clock : VectorClock
no_clock = record { counters = []; last_updated = pos 0; writer_id = [] }

pub data ClockComparison : Type 0 where
  equal dominates dominated concurrent : ClockComparison

pub ClockComparison-discrete : Discrete ClockComparison
ClockComparison-discrete = hlevel

-- `it->second` after `find(node_id)`, and 0 at the end of the map.
unfoldable pub count : Assoc ℕ → Text → ℕ
count m node_id = elim (find node_id m) [ some cnt ↦ cnt | none ↦ 0 ]

-- The first loop of `compareVectorClocks`: the two flags and `shared_key_cnt`.
unfoldable pub compare_shared : Assoc ℕ → Assoc ℕ → Bool → Bool → ℕ → Bool × Bool × ℕ
compare_shared [] b_map a_greater b_greater shared_key_cnt = (a_greater, b_greater, shared_key_cnt)
compare_shared ((node_id, a_cnt) ∷ rest) b_map a_greater b_greater shared_key_cnt =
    let b_cnt = count b_map node_id in
    let shared' : ℕ = elim (find node_id b_map) [
      | some cnt ↦ shared_key_cnt + 1
      | none ↦ shared_key_cnt
    ] in
    let a_greater' = if ltb b_cnt a_cnt then true else a_greater in
    let b_greater' = if ltb a_cnt b_cnt then true else b_greater in
    let next = compare_shared rest b_map a_greater' b_greater' shared' in
    if a_greater' && b_greater' then (a_greater', b_greater', shared') else next

-- The second loop: an entry of `b_map` that `a_map` lacks.
unfoldable pub compare_rest : Assoc ℕ → Assoc ℕ → Bool → Bool
compare_rest a_map [] b_greater = b_greater
compare_rest a_map ((node_id, b_cnt) ∷ rest) b_greater =
    let next = compare_rest a_map rest b_greater in
    elim (find node_id a_map) [ none ↦ if ltb 0 b_cnt then true else next | some _ ↦ next ]

unfoldable pub verdict : Bool → Bool → ClockComparison
verdict a_greater b_greater =
    if not a_greater && not b_greater
    then equal
    else if a_greater && not b_greater
    then dominates
    else if not a_greater && b_greater
    then dominated
    else concurrent

-- What follows the first loop.
unfoldable pub compare_finish : Assoc ℕ → Assoc ℕ → Bool × Bool × ℕ → ClockComparison
compare_finish a_map b_map (a_greater, b_greater, shared_key_cnt) = verdict a_greater (
    if ltb shared_key_cnt (length b_map) && not (a_greater && b_greater)
    then compare_rest a_map b_map b_greater
    else b_greater)

unfoldable pub compare_vector_clocks : VectorClock → VectorClock → ClockComparison
compare_vector_clocks a b =
    compare_finish a.counters b.counters (compare_shared a.counters b.counters false false 0)

-- The first loop of `mergeClocks`: the result's counters so far and `shared_key_cnt`.
unfoldable pub merge_shared : Assoc ℕ → Assoc ℕ → Assoc ℕ → ℕ → Assoc ℕ × ℕ
merge_shared [] b_map vc shared_key_cnt = (vc, shared_key_cnt)
merge_shared ((node_id, a_cnt) ∷ rest) b_map vc shared_key_cnt = elim (find node_id b_map) [
  | some b_cnt ↦ merge_shared rest b_map (insert node_id (max a_cnt b_cnt) vc) (shared_key_cnt + 1)
  | none ↦ merge_shared rest b_map (insert node_id a_cnt vc) shared_key_cnt
]

-- The second loop.
unfoldable pub merge_rest : Assoc ℕ → Assoc ℕ → Assoc ℕ → Assoc ℕ
merge_rest a_map [] vc = vc
merge_rest a_map ((node_id, b_cnt) ∷ rest) vc =
    merge_rest a_map rest
      (elim (find node_id a_map) [ none ↦ insert node_id b_cnt vc | some _ ↦ vc ])

unfoldable pub merge_clocks : VectorClock → VectorClock → VectorClock
unfolding merge_shared merge_rest
merge_clocks a b =
    let (vc, shared_key_cnt) = merge_shared a.counters b.counters [] 0 in
    record no_clock {
      counters =
          if ltb shared_key_cnt (length b.counters)
          then merge_rest a.counters b.counters vc
          else vc;
    }

abbrev pub u64_mod : ℕ
u64_mod = 2 ^ 64

abbrev pub value_or_empty : Option VectorClock → VectorClock
value_or_empty none = no_clock
value_or_empty (some c) = c

-- `now` is what `nowMillis` returns.
unfoldable pub build_new_clock : Option VectorClock → Option VectorClock → Text → ℤ → VectorClock
unfolding count
build_new_clock client_context local_copy coordinator_node_id now =
    let merged = merge_clocks (value_or_empty client_context) (value_or_empty local_copy) in
    record {
      counters =
          insert coordinator_node_id ((count merged.counters coordinator_node_id + 1) % u64_mod)
            merged.counters;
      last_updated = now;
      writer_id = coordinator_node_id;
    }
