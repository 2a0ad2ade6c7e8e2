-- ===== src/FanOut/Progress.antt =====
-- Every thread of the fan-out returns: each new substitute uses up a node of the ring.
use driftstore.Prelude.{
  ℕ, zero, suc, ◌+◌, ◌*◌, ◌-◌, ◌≤◌, ◌<◌, ◌≡◌, refl, true, false, not, List, [], ◌∷◌, Option, none,
  some, ite, arith, length, length-map, keep_if, length-keep_if_le, In, Bool-cases, Option-cases,
  inl, inr, sym, ap, ◌∙◌, subst, if◌then◌else◌, ◌==◌,
}
use driftstore.Text.{Text, text_dec}
use driftstore.Clock.{VectorClock}
use driftstore.Ring.{RingMap, contains}
use driftstore.Ring.Clockwise.{IsRing, nodes}
use driftstore.Node.{Node, ReplicateWriteResponse}
use driftstore.Store.{mark_unreachable}
use driftstore.Route.{may_substitute, find_substitute}
use driftstore.Route.Substitute.{find_substitute_found}
use driftstore.Network.{Network}
use driftstore.FanOut.{
  Task, sending, searching, finished, Shared, add_id, take_answer, step_task, step_at, run_tasks,
  all_finished, write_request,
}

contains-add_id :
    (x n : Text) (ex : List Text)
    → contains n (add_id x ex) ≡ ite (text_dec x n) true (contains n ex)
unfolding contains add_id
contains-add_id x n ex = elim (text_dec x n) [
  | yes same ↦ ground (arith, same)
  | no differ ↦ ground (arith, differ)
]

-- the tokens of nodes that are not excluded
unfoldable pub left_over : List Text → List Text → ℕ
left_over ex ns = length (keep_if (λ n. not (contains n ex)) ns)

left_over-add_id_le : (x : Text) (ex ns : List Text) → left_over (add_id x ex) ns ≤ left_over ex ns
unfolding left_over
left_over-add_id_le x ex [] = omega arith
left_over-add_id_le x ex (n ∷ ns) =
    ground (arith, contains-add_id x n ex, left_over-add_id_le x ex ns)

left_over-add_id :
    (x : Text) (ex ns : List Text)
    → contains x ex ≡ false
    → In x ns
    → left_over (add_id x ex) ns + 1 ≤ left_over ex ns
unfolding left_over
left_over-add_id x ex [] new m = elim m [ ]
left_over-add_id x ex (n ∷ ns) new (inl same) =
    ground (arith, same, contains-add_id x n ex, left_over-add_id_le x ex ns)
left_over-add_id x ex (n ∷ ns) new (inr m) =
    ground (arith, contains-add_id x n ex, left_over-add_id x ex ns new m)

-- how many steps a thread may still take
unfoldable pub potential : RingMap → Task → ℕ
unfolding left_over
potential ring (sending target true_owner ex is_hint) =
    2 * left_over (add_id target ex) (nodes ring) + 2
potential ring (searching true_owner ex) = 2 * left_over ex (nodes ring) + 1
potential ring finished = 0

-- the same of the thread at a position
unfoldable pub potential_at : RingMap → ℕ → List Task → ℕ
unfolding potential
potential_at ring i [] = 0
potential_at ring zero (t ∷ ts) = potential ring t
potential_at ring (suc i) (t ∷ ts) = potential_at ring i ts

-- how often a schedule names a position
unfoldable pub turns : ℕ → List ℕ → ℕ
turns i [] = 0
turns i (j ∷ schedule) = (if j == i then 1 else 0) + turns i schedule

may_substitute-new :
    (true_owner : Text) (ex : List Text) (s : Node) (t : Text)
    → may_substitute true_owner ex s t ≡ true
    → contains t ex ≡ false
unfolding may_substitute
may_substitute-new true_owner ex s t h = ground (arith, h)

module _ {World : Type 0} (net : Network World) (key value : Text) (clock : VectorClock) where
  take_answer-potential :
      (target true_owner : Text) (ex : List Text) (world : World)
      (answer : Option ReplicateWriteResponse) (g : Shared World)
      → let (t', g') = take_answer net key value clock target true_owner ex world answer g in
        (potential g'.node.ring t' ≤ 2 * left_over (add_id target ex) (nodes g.node.ring) + 1)
        × (g'.node.ring ≡ g.node.ring)
  unfolding take_answer mark_unreachable potential
  take_answer-potential target true_owner ex world none g = (omega arith, refl)
  take_answer-potential target true_owner ex world (some resp) g = elim (Bool-cases resp.success) [
    | inl ok ↦ rw ok (omega arith, refl)
    | inr failed ↦ rw failed (omega arith, refl)
  ]

  -- A step brings a thread nearer to its return, and leaves the ring alone.
  step_task-potential :
      (t : Task) (g : Shared World)
      → IsRing g.node.ring
      → let (t', g') = step_task net key value clock t g in
        (potential g'.node.ring t' ≤ potential g.node.ring t - 1) × (g'.node.ring ≡ g.node.ring)
  unfolding step_task potential
  step_task-potential finished g a = (omega arith, refl)
  step_task-potential (sending target true_owner ex is_hint) g a =
      let (world', answer) =
        net.call_replicate_write target (write_request net key value clock true_owner is_hint)
          g.world in
      let next = take_answer-potential target true_owner ex world' answer g in
      (omega (arith, next.0), next.1)
  step_task-potential (searching true_owner ex) g a =
      elim (Option-cases (find_substitute key true_owner ex g.node)) [
        | inl nobody ↦ rw (nobody, step_task) (omega arith, refl)
        | inr (t, found) ↦
            let facts = find_substitute_found key true_owner ex g.node a t found in
            let fewer =
              left_over-add_id t ex (nodes g.node.ring)
                (may_substitute-new true_owner ex g.node t facts.0) facts.1 in
            rw (found, step_task) (omega (arith, fewer), refl)
      ]

  step_at-potential :
      (j i : ℕ) (ts : List Task) (g : Shared World)
      → IsRing g.node.ring
      → let (ts', g') = step_at net key value clock j ts g in
        (potential_at g'.node.ring i ts'
          ≤ potential_at g.node.ring i ts - (if j == i then 1 else 0))
        × (g'.node.ring ≡ g.node.ring)
  unfolding step_at potential_at
  step_at-potential j i [] g a = (omega arith, refl)
  step_at-potential zero zero (t ∷ ts) g a = step_task-potential t g a
  step_at-potential zero (suc i) (t ∷ ts) g a =
      let step = step_task-potential t g a in
      (ground (arith, ap (λ r. potential_at r i ts) step.1), step.1)
  step_at-potential (suc j) zero (t ∷ ts) g a =
      let step = step_at-potential j 0 ts g a in
      (ground (arith, ap (λ r. potential r t) step.1), step.1)
  step_at-potential (suc j) (suc i) (t ∷ ts) g a =
      let step = step_at-potential j i ts g a in (ground (arith, step.0), step.1)

  -- Whatever the schedule, each turn of a thread that has not returned uses up one of its steps.
  run_tasks-potential :
      (schedule : List ℕ) (i : ℕ) (ts : List Task) (g : Shared World)
      → IsRing g.node.ring
      → let (ts', g') = run_tasks net key value clock schedule ts g in
        (potential_at g'.node.ring i ts' ≤ potential_at g.node.ring i ts - turns i schedule)
        × (g'.node.ring ≡ g.node.ring)
  unfolding run_tasks turns
  run_tasks-potential [] i ts g a = (omega arith, refl)
  run_tasks-potential (j ∷ schedule) i ts g a =
      let (ts', g') = step_at net key value clock j ts g in
      let step = step_at-potential j i ts g a in
      let rest = run_tasks-potential schedule i ts' g' (subst IsRing (sym step.1) a) in
      (omega (arith, step.0, rest.0), rest.1 ∙ step.1)

potential_bound :
    (ring : RingMap) (i : ℕ) (ts : List Task) → potential_at ring i ts ≤ 2 * length ring + 2
unfolding potential_at potential left_over
potential_bound ring i [] = omega arith
potential_bound ring (suc i) (t ∷ ts) = potential_bound ring i ts
potential_bound ring zero (finished ∷ ts) = omega arith
potential_bound ring zero (searching true_owner ex ∷ ts) =
    omega
      (arith, length-keep_if_le (λ n. not (contains n ex)) (nodes ring), length-map ring (λ e. e.1))
potential_bound ring zero (sending target true_owner ex is_hint ∷ ts) = omega (
  arith,
  length-keep_if_le (λ n. not (contains n (add_id target ex))) (nodes ring),
  length-map ring (λ e. e.1),
)

all_finished-potential :
    (ring : RingMap) (ts : List Task)
    → ((i : ℕ) → i < length ts → potential_at ring i ts ≡ 0)
    → all_finished ts ≡ true
unfolding all_finished potential_at potential
all_finished-potential ring [] h = refl
all_finished-potential ring (finished ∷ ts) h =
    all_finished-potential ring ts (λ i le. h (suc i) (omega arith))
all_finished-potential ring (searching true_owner ex ∷ ts) h =
    absurd (omega (arith, h 0 (omega arith)))
all_finished-potential ring (sending target true_owner ex is_hint ∷ ts) h =
    absurd (omega (arith, h 0 (omega arith)))

module _ {World : Type 0} (net : Network World) (key value : Text) (clock : VectorClock) where
  length-step_at :
      (j : ℕ) (ts : List Task) (g : Shared World)
      → length (step_at net key value clock j ts g).0 ≡ length ts
  unfolding step_at
  length-step_at j [] g = refl
  length-step_at zero (t ∷ ts) g = refl
  length-step_at (suc j) (t ∷ ts) g = ap suc (length-step_at j ts g)

  pub length-run_tasks :
      (schedule : List ℕ) (ts : List Task) (g : Shared World)
      → length (run_tasks net key value clock schedule ts g).0 ≡ length ts
  unfolding run_tasks
  length-run_tasks [] ts g = refl
  length-run_tasks (j ∷ schedule) ts g =
      let (ts', g') = step_at net key value clock j ts g in
      length-run_tasks schedule ts' g' ∙ length-step_at j ts g

  -- On a ring in ascending order, every thread of the fan-out returns, whatever the peers answer
  -- and however the threads interleave, once each has had twice as many turns as the ring has
  -- tokens, and two more.
  pub all_finished-run_tasks :
      (schedule : List ℕ) (ts : List Task) (g : Shared World)
      → IsRing g.node.ring
      → ((i : ℕ) → i < length ts → 2 * length g.node.ring + 2 ≤ turns i schedule)
      → all_finished (run_tasks net key value clock schedule ts g).0 ≡ true
  all_finished-run_tasks schedule ts g a enough =
      let (ts', g') = run_tasks net key value clock schedule ts g in
      all_finished-potential g'.node.ring ts' (λ i le.
        let spent = run_tasks-potential net key value clock schedule i ts g a in
        omega (
          arith,
          spent.0,
          potential_bound g.node.ring i ts,
          enough i (omega (arith, length-run_tasks schedule ts g)),
        ))
