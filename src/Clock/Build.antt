-- ===== src/Clock/Build.antt =====
-- `buildNewClock`: a new clock above the client's context and the coordinator's own copy.
use driftstore.Prelude.{ℕ, ◌+◌, ◌%◌, ◌≤◌, ◌<◌, max, ℤ, ◌≡◌, Option, ite, arith}
use driftstore.Text.{Text, text_dec}
use driftstore.Assoc.{Assoc, insert, IsMap}
use driftstore.Assoc.Laws.{find-insert, insert-IsMap}
use driftstore.Clock.{
  VectorClock, dominates, compare_vector_clocks, build_new_clock, count, value_or_empty, u64_mod,
}
use driftstore.Clock.Order.{Means, axis}
use driftstore.Clock.Compare.{compare_vector_clocks_of_Means}
use driftstore.Clock.Merge.{axis-merge_clocks, merge_clocks-IsMap}

count-insert :
    (k n : Text) (v : ℕ) (m : Assoc ℕ) → count (insert k v m) n ≡ ite (text_dec k n) v (count m n)
unfolding count
count-insert k n v m = ground (arith, find-insert k n v m)

-- a present clock holds no node twice
abbrev pub IsClock : Option VectorClock → Type 0
IsClock c = IsMap (value_or_empty c).counters

-- what the client and the coordinator's own copy have seen of a node
abbrev pub base : Option VectorClock → Option VectorClock → Text → ℕ
base client_context local_copy n =
    max (axis (value_or_empty client_context) n) (axis (value_or_empty local_copy) n)

module _ (client_context local_copy : Option VectorClock) (id : Text) (now : ℤ) where
  pub build_new_clock-IsMap : IsMap (build_new_clock client_context local_copy id now).counters
  unfolding build_new_clock
  build_new_clock-IsMap = insert-IsMap id _ _ (merge_clocks-IsMap _ _)

  module _ (uc : IsClock client_context) (ul : IsClock local_copy) where
    -- The new clock counts on each node what the two clocks count together, and for the
    -- coordinator one more, modulo 2 ^ 64.
    pub axis-build_new_clock :
        (n : Text)
        → axis (build_new_clock client_context local_copy id now) n
          ≡ ite
              (text_dec id n)
              ((base client_context local_copy id + 1) % u64_mod)
              (base client_context local_copy n)
    unfolding build_new_clock
    axis-build_new_clock n = rw (
      count-insert,
      axis-merge_clocks (value_or_empty client_context) (value_or_empty local_copy) uc ul id,
      axis-merge_clocks (value_or_empty client_context) (value_or_empty local_copy) uc ul n,
    )

    module _ (room : base client_context local_copy id + 1 < u64_mod) where
      build_new_clock-Means :
          (c : Option VectorClock)
          → ((n : Text) → axis (value_or_empty c) n ≤ base client_context local_copy n)
          → Means (build_new_clock client_context local_copy id now) (value_or_empty c) dominates
      build_new_clock-Means c h = (
        λ n. ground (arith, h n, axis-build_new_clock n),
        (id, ground (arith, h id, axis-build_new_clock id)),
      )

      -- Where no clock holds a node twice and while the coordinator's counter stays below 2 ^
      -- 64, the new clock dominates both the client's context and the coordinator's own copy.
      pub build_new_clock-dominates :
          (compare_vector_clocks
              (build_new_clock client_context local_copy id now)
              (value_or_empty client_context)
            ≡ dominates)
          × (compare_vector_clocks
                (build_new_clock client_context local_copy id now)
                (value_or_empty local_copy)
              ≡ dominates)
      build_new_clock-dominates = (
        compare_vector_clocks_of_Means _ _ build_new_clock-IsMap uc
            (build_new_clock-Means client_context (λ n. omega arith)),
        compare_vector_clocks_of_Means _ _ build_new_clock-IsMap ul
            (build_new_clock-Means local_copy (λ n. omega arith)),
      )
