-- ===== src/Resolve.antt =====
-- src/vector_clock.hpp, lines 21-34 and 196-281: what a read makes of the versions that the
-- replicas returned.
pub mod Lww
pub mod Split
pub mod Frontier
pub mod Cover
pub mod Winner
use driftstore.Prelude.{
  ℕ, ◌+◌, Bool, true, false, ◌&&◌, List, [], ◌∷◌, Option, none, some, ltb, ltb_ℤ, eqb_ℤ, ◌==◌,
  length, if◌then◌else◌,
}
use driftstore.Text.{Text, text_lt}
use driftstore.Clock.{VectorClock, compare_vector_clocks, equal, dominates, dominated, concurrent}

pub record VersionedValue : Type 0 where
  pub value : Text
  pub clock : VectorClock

pub record GetResolution : Type 0 where
  pub winner : VersionedValue
  pub concurrent_count : ℕ

-- The test of the loop: a later timestamp, or the same and a greater writer.
unfoldable pub beats : VersionedValue → VersionedValue → Bool
beats candidate winner =
    if ltb_ℤ winner.clock.last_updated candidate.clock.last_updated
    then true
    else eqb_ℤ candidate.clock.last_updated winner.clock.last_updated
      && text_lt winner.clock.writer_id candidate.clock.writer_id

unfoldable pub lww_loop : VersionedValue → List VersionedValue → VersionedValue
lww_loop winner [] = winner
lww_loop winner (candidate ∷ rest) =
    lww_loop (if beats candidate winner then candidate else winner) rest

-- `none` is the failed assertion.
unfoldable pub resolve_lww : List VersionedValue → Option VersionedValue
unfolding lww_loop
resolve_lww [] = none
resolve_lww (first ∷ rest) = some (lww_loop first rest)

-- The inner loop from `j`, over the entries from the `j`-th on.
unfoldable pub keep_from : VectorClock → ℕ → ℕ → List VersionedValue → Bool
keep_from clock i j [] = true
keep_from clock i j (r ∷ rest) =
    let next = keep_from clock i (j + 1) rest in
    if j == i then next else elim (compare_vector_clocks clock r.clock) [
      | equal ↦ if ltb j i then false else next
      | dominated ↦ false
      | dominates ↦ next
      | concurrent ↦ next
    ]

-- The outer loop from `i`, over the entries from the `i`-th on.
unfoldable pub frontier_from : List VersionedValue → ℕ → List VersionedValue → List VersionedValue
unfolding keep_from
frontier_from replica_responses i [] = []
frontier_from replica_responses i (r ∷ rest) =
    let next = frontier_from replica_responses (i + 1) rest in
    if keep_from r.clock i 0 replica_responses then r ∷ next else next

unfoldable pub compute_frontier : List VersionedValue → List VersionedValue
unfolding frontier_from
compute_frontier replica_responses = frontier_from replica_responses 0 replica_responses

-- `frontier.size() > 1 ? resolveLWW(frontier) : std::move(frontier[0])`
unfoldable pub pick : List VersionedValue → Option VersionedValue
unfolding resolve_lww
pick [] = none
pick (only ∷ []) = some only
pick (first ∷ second ∷ rest) = resolve_lww (first ∷ second ∷ rest)

-- `none` is the failed assertion, or a read of `frontier[0]` in an empty frontier.
unfoldable pub resolve_get_result : List VersionedValue → Option GetResolution
unfolding compute_frontier pick
resolve_get_result [] = none
resolve_get_result (r ∷ rest) =
    let frontier = compute_frontier (r ∷ rest) in
    elim (pick frontier) [
      | none ↦ none
      | some winner ↦ some (record { winner = winner; concurrent_count = length frontier })
    ]
