-- ===== src/Resolve/Frontier.antt =====
-- `computeFrontier` leaves pairwise concurrent versions that cover all the versions given.
use driftstore.Prelude.{
  ◌≡◌, List, [], ◌∷◌, ◌++◌, arith, All, All-map, All-append_left, All-append_right, All-In,
  All-of_In, In, Pairwise,
}
use driftstore.Assoc.{IsMap}
use driftstore.Clock.{
  VectorClock, compare_vector_clocks, ClockComparison, equal, dominates, dominated, concurrent,
}
use driftstore.Clock.Compare.{compare_vector_clocks-Means, compare_vector_clocks_of_Means}
use driftstore.Clock.Order.{Means}
use driftstore.Resolve.{VersionedValue, compute_frontier}
use driftstore.Resolve.Split.{
  NotBelow, Differs, Survivors, done, keep, drop, compute_frontier-Survivors,
}

-- the clock of each version holds no node twice
abbrev pub IsWell : VersionedValue → Type 0
IsWell v = IsMap v.clock.counters

pub flip : ClockComparison → ClockComparison
flip equal = equal
flip dominates = dominated
flip dominated = dominates
flip concurrent = concurrent

Means-flip : (a b : VectorClock) (r : ClockComparison) → Means a b r → Means b a (flip r)
unfolding flip
Means-flip a b equal (p, q) = (q, p)
Means-flip a b dominates (p, q) = (p, q)
Means-flip a b dominated (p, q) = (p, q)
Means-flip a b concurrent (p, q) = (q, p)

-- Swapping the two clocks swaps the answer.
pub compare_vector_clocks-flip :
    (a b : VectorClock)
    → IsMap a.counters
    → IsMap b.counters
    → compare_vector_clocks b a ≡ flip (compare_vector_clocks a b)
compare_vector_clocks-flip a b ua ub =
    compare_vector_clocks_of_Means b a ub ua
      (Means-flip a b _ (compare_vector_clocks-Means a b ua ub))

pub Survivors-All {κ} :
    {before rest out : List VersionedValue} (P : VersionedValue → Type κ)
    → Survivors before rest out
    → All P rest
    → All P out
Survivors-All P (done before) h = tt
Survivors-All P (keep s f) h = (h.0, Survivors-All P f h.1)
Survivors-All P (drop s f) h = Survivors-All P f h.1

-- `t` survives behind the entries of `before`
abbrev pub Follows : List VersionedValue → VersionedValue → Type 0
Follows before t = All (λ r. NotBelow t r × Differs t r) before

Follows-left :
    (before : List VersionedValue) (r : VersionedValue) (out : List VersionedValue)
    → All (Follows (before ++ r ∷ [])) out
    → All (Follows before) out
Follows-left before r =
    All-map (Follows (before ++ r ∷ [])) (Follows before)
      (λ t. All-append_left (λ q. NotBelow t q × Differs t q) before (r ∷ []))

pub Follows-last :
    (before : List VersionedValue) (r : VersionedValue) (out : List VersionedValue)
    → All (Follows (before ++ r ∷ [])) out
    → All (λ t. NotBelow t r × Differs t r) out
Follows-last before r =
    All-map (Follows (before ++ r ∷ [])) (λ t. NotBelow t r × Differs t r)
      (λ t h. (All-append_right (λ q. NotBelow t q × Differs t q) before (r ∷ []) h).0)

pub Survivors-Follows :
    {before rest out : List VersionedValue} → Survivors before rest out → All (Follows before) out
Survivors-Follows (done before) = tt
Survivors-Follows {before} (keep {out = out} {r = r} s f) =
    (s.0, Follows-left before r out (Survivors-Follows f))
Survivors-Follows {before} {out = out} (drop {r = r} s f) =
    Follows-left before r out (Survivors-Follows f)

abbrev pub Concurrent : VersionedValue → VersionedValue → Type 0
Concurrent a b = compare_vector_clocks a.clock b.clock ≡ concurrent

Concurrent-of_not :
    (a b : VersionedValue)
    → IsWell a
    → IsWell b
    → NotBelow a b
    → NotBelow b a × Differs b a
    → Concurrent a b
unfolding flip
Concurrent-of_not a b ua ub p q =
    ground (arith, p, q.0, q.1, compare_vector_clocks-flip a.clock b.clock ua ub)

Survivors-Pairwise :
    {before rest out : List VersionedValue}
    → Survivors before rest out
    → All IsWell rest
    → Pairwise Concurrent out
Survivors-Pairwise (done before) u = tt
Survivors-Pairwise {before} (keep {out = out} {r = r} s f) u =
    let wells = Survivors-All IsWell f u.1 in
    let ahead = Survivors-All (NotBelow r) f s.1 in
    let behind = Follows-last before r out (Survivors-Follows f) in
    (
      All-of_In (Concurrent r) out λ t m.
          Concurrent-of_not r t u.0 (All-In IsWell out t wells m)
            (All-In (NotBelow r) out t ahead m)
            (All-In (λ q. NotBelow q r × Differs q r) out t behind m),
      Survivors-Pairwise f u.1,
    )
Survivors-Pairwise (drop s f) u = Survivors-Pairwise f u.1

-- The versions that `computeFrontier` keeps are pairwise concurrent, and are all among the
-- versions given, whose clocks hold no node twice.
pub compute_frontier-Pairwise :
    (xs : List VersionedValue)
    → All IsWell xs
    → Pairwise Concurrent (compute_frontier xs) × All (λ s. In s xs) (compute_frontier xs)
compute_frontier-Pairwise xs u = (
  Survivors-Pairwise (compute_frontier-Survivors xs) u,
  Survivors-All (λ s. In s xs) (compute_frontier-Survivors xs)
      (All-of_In (λ s. In s xs) xs (λ x m. m)),
)
