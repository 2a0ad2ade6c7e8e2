-- ===== src/Clock/Order.antt =====
-- The order of clocks that src/vector_clock.hpp (lines 51-60) describes: by the counter of each
-- node, a missing node counting 0.
use driftstore.Prelude.{ℕ, ◌≤◌, ◌<◌, ◌≡◌, refl, arith}
use driftstore.Text.{Text}
use driftstore.Clock.{VectorClock, ClockComparison, equal, dominates, dominated, concurrent, count}

abbrev pub axis : VectorClock → Text → ℕ
axis a node_id = count a.counters node_id

-- `b` has seen everything that `a` has
abbrev pub Le : VectorClock → VectorClock → Type 0
Le a b = (node_id : Text) → axis a node_id ≤ axis b node_id

-- on some axis `a` is ahead of `b`
abbrev pub Ahead : VectorClock → VectorClock → Type 0
Ahead a b = (node_id : Text) × (axis b node_id < axis a node_id)

-- what each outcome of a comparison means
abbrev pub Means : VectorClock → VectorClock → ClockComparison → Type 0
Means a b equal = Le a b × Le b a
Means a b dominates = Le b a × Ahead a b
Means a b dominated = Le a b × Ahead b a
Means a b concurrent = Ahead a b × Ahead b a

pub Le_refl : (a : VectorClock) → Le a a
Le_refl a n = omega arith

pub Le_trans : (a b c : VectorClock) → Le a b → Le b c → Le a c
Le_trans a b c p q n = omega (arith, p n, q n)

pub Ahead-not-Le : (a b : VectorClock) → Ahead a b → ¬ Le a b
Ahead-not-Le a b (n, h) p = omega (arith, p n)

-- The outcome is determined by the two clocks.
pub Means-unique : (a b : VectorClock) (r s : ClockComparison) → Means a b r → Means a b s → r ≡ s
Means-unique a b equal equal p q = refl
Means-unique a b equal dominates p q = absurd (Ahead-not-Le a b q.1 p.0)
Means-unique a b equal dominated p q = absurd (Ahead-not-Le b a q.1 p.1)
Means-unique a b equal concurrent p q = absurd (Ahead-not-Le a b q.0 p.0)
Means-unique a b dominates equal p q = absurd (Ahead-not-Le a b p.1 q.0)
Means-unique a b dominates dominates p q = refl
Means-unique a b dominates dominated p q = absurd (Ahead-not-Le a b p.1 q.0)
Means-unique a b dominates concurrent p q = absurd (Ahead-not-Le b a q.1 p.0)
Means-unique a b dominated equal p q = absurd (Ahead-not-Le b a p.1 q.1)
Means-unique a b dominated dominates p q = absurd (Ahead-not-Le b a p.1 q.0)
Means-unique a b dominated dominated p q = refl
Means-unique a b dominated concurrent p q = absurd (Ahead-not-Le a b q.0 p.0)
Means-unique a b concurrent equal p q = absurd (Ahead-not-Le a b p.0 q.0)
Means-unique a b concurrent dominates p q = absurd (Ahead-not-Le b a p.1 q.0)
Means-unique a b concurrent dominated p q = absurd (Ahead-not-Le a b p.0 q.0)
Means-unique a b concurrent concurrent p q = refl
