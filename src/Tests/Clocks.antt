-- ===== src/Tests/Clocks.antt =====
-- Comparing, merging, building and resolving at small clocks.
use driftstore.Prelude.{pos, List, some, [], ◌∷◌, ◌≡◌, refl, All, In, inl, arith}
use driftstore.Text.{text_dec}
use driftstore.Assoc.{find, insert, IsMap}
use driftstore.Resolve.{VersionedValue, GetResolution}
use driftstore.Resolve.Split.{Survivors, compute_frontier-Survivors}
use driftstore.Clock.{
  VectorClock, dominates, concurrent, compare_finish, compare_vector_clocks, compare_shared,
  compare_rest, verdict, merge_clocks, build_new_clock, count,
}
use driftstore.Clock.Order.{Le, Means}
use driftstore.Clock.Compare.{compare_vector_clocks-Means}
use driftstore.Clock.Merge.{merge_clocks_least}
use driftstore.Clock.Build.{build_new_clock-dominates}
use driftstore.Resolve.{compute_frontier, resolve_get_result}
use driftstore.Resolve.Frontier.{IsWell}
use driftstore.Resolve.Cover.{compute_frontier_covers}
use driftstore.Resolve.Winner.{Resolved, resolve_get_result-Resolved}
use driftstore.Tests.Samples.{
  node_a, node_b, clock_a, clock_ab, clock_b, clock_a-IsMap, clock_ab-IsMap, clock_b-IsMap,
  version_a, version_ab, version_b,
}

ab_b_concurrent : compare_vector_clocks clock_ab clock_b ≡ concurrent
unfolding compare_vector_clocks compare_finish compare_shared verdict count find text_dec
ab_b_concurrent = refl

ab_a_dominates : compare_vector_clocks clock_ab clock_a ≡ dominates
unfolding compare_vector_clocks compare_finish compare_shared verdict count find text_dec
ab_a_dominates = refl

compare_vector_clocks-Means_example :
    Means clock_ab clock_b (compare_vector_clocks clock_ab clock_b)
compare_vector_clocks-Means_example =
    compare_vector_clocks-Means clock_ab clock_b clock_ab-IsMap clock_b-IsMap

merged_ab_b : (merge_clocks clock_ab clock_b).counters ≡ (node_a, 2) ∷ (node_b, 3) ∷ []
unfolding merge_clocks find insert text_dec
merged_ab_b = refl

merge_clocks_least_example :
    IsMap (merge_clocks clock_ab clock_b).counters
    × Le clock_ab (merge_clocks clock_ab clock_b)
    × Le clock_b (merge_clocks clock_ab clock_b)
    × ((c : VectorClock) → Le clock_ab c → Le clock_b c → Le (merge_clocks clock_ab clock_b) c)
merge_clocks_least_example = merge_clocks_least clock_ab clock_b clock_ab-IsMap clock_b-IsMap

abbrev new_clock : VectorClock
new_clock = build_new_clock (some clock_b) (some clock_ab) node_a (pos 130)

new_clock_counters : new_clock.counters ≡ (node_b, 3) ∷ (node_a, 3) ∷ []
unfolding build_new_clock merge_clocks find insert text_dec
new_clock_counters = refl

build_new_clock-dominates_example :
    (compare_vector_clocks new_clock clock_b ≡ dominates)
    × (compare_vector_clocks new_clock clock_ab ≡ dominates)
unfolding count find text_dec
build_new_clock-dominates_example =
    build_new_clock-dominates (some clock_b) (some clock_ab) node_a (pos 130) clock_b-IsMap
      clock_ab-IsMap (omega arith)

abbrev versions : List VersionedValue
versions = version_a ∷ version_ab ∷ version_b ∷ version_ab ∷ []

versions-IsWell : All IsWell versions
versions-IsWell = (clock_a-IsMap, (clock_ab-IsMap, (clock_b-IsMap, (clock_ab-IsMap, tt))))

versions_frontier : compute_frontier versions ≡ version_ab ∷ version_b ∷ []
unfolding compute_frontier compare_vector_clocks compare_finish compare_shared compare_rest verdict
    count find text_dec
versions_frontier = refl

compute_frontier-Survivors_example : Survivors [] versions (compute_frontier versions)
compute_frontier-Survivors_example = compute_frontier-Survivors versions

compute_frontier_covers_example :
    (s : VersionedValue) × In s (compute_frontier versions) × Le version_a.clock s.clock
compute_frontier_covers_example =
    compute_frontier_covers versions version_a versions-IsWell (inl refl)

resolve_get_result-Resolved_example :
    (g : GetResolution) × (resolve_get_result versions ≡ some g) × Resolved versions g
resolve_get_result-Resolved_example =
    resolve_get_result-Resolved version_a (version_ab ∷ version_b ∷ version_ab ∷ []) versions-IsWell
