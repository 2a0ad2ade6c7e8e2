-- ===== src/FanOut/Acks.antt =====
-- What the threads of the fan-out do to what they share: each acknowledges at most once, and of
-- the node they change the unreachable peers alone.
use driftstore.Prelude.{
  ℕ, zero, suc, ◌+◌, ◌≤◌, ◌≡◌, refl, List, [], ◌∷◌, Option, none, some, arith, length, Bool-cases,
  Option-cases, inl, inr, ap, ◌∙◌,
}
use driftstore.Text.{Text}
use driftstore.Clock.{VectorClock}
use driftstore.Node.{Node, ReplicateWriteResponse}
use driftstore.Store.{mark_unreachable}
use driftstore.Route.{find_substitute}
use driftstore.Network.{Network}
use driftstore.FanOut.{
  Task, sending, searching, finished, Shared, take_answer, step_task, step_at, run_tasks,
  write_request,
}

abbrev one_if_open : Task → ℕ
one_if_open finished = 0
one_if_open (searching true_owner ex) = 1
one_if_open (sending target true_owner ex is_hint) = 1

-- the threads that have not returned
unfoldable pub open_tasks : List Task → ℕ
open_tasks [] = 0
open_tasks (t ∷ ts) = one_if_open t + open_tasks ts

-- the node but for its unreachable peers
abbrev pub OnlyMarks : Node → Node → Type 0
OnlyMarks s s' = s' ≡ record s { unreachable_peers = s'.unreachable_peers }

pub OnlyMarks-trans : (a b c : Node) → OnlyMarks a b → OnlyMarks b c → OnlyMarks a c
OnlyMarks-trans a b c p q =
    let with_marks : Node → Node = λ s. record s { unreachable_peers = c.unreachable_peers } in
    q ∙ ap with_marks p

-- What threads do from `g` on to `g'`, with `before` and `after` of them open.
pub record Effect {World : Type 0} (before : ℕ) (g : Shared World) (after : ℕ) (g' : Shared World)
    : Type 0 where
  pub marks : OnlyMarks g.node g'.node
  pub acked : g'.acks + after ≤ g.acks + before
  pub grows : g.acks ≤ g'.acks

module _ {World : Type 0} (net : Network World) (key value : Text) (clock : VectorClock) where
  take_answer-Effect :
      (target true_owner : Text) (ex : List Text) (world : World)
      (answer : Option ReplicateWriteResponse) (g : Shared World)
      → let (t', g') = take_answer net key value clock target true_owner ex world answer g in
        Effect 1 g (one_if_open t') g'
  unfolding take_answer mark_unreachable
  take_answer-Effect target true_owner ex world none g = record {
    marks = refl;
    acked = omega arith;
    grows = omega arith;
  }
  take_answer-Effect target true_owner ex world (some resp) g = elim (Bool-cases resp.success) [
    | inl ok ↦ rw ok (record { marks = refl; acked = omega arith; grows = omega arith })
    | inr failed ↦ rw failed (record { marks = refl; acked = omega arith; grows = omega arith })
  ]

  step_task-Effect :
      (t : Task) (g : Shared World)
      → let (t', g') = step_task net key value clock t g in
        Effect (one_if_open t) g (one_if_open t') g'
  unfolding step_task
  step_task-Effect finished g = record { marks = refl; acked = omega arith; grows = omega arith }
  step_task-Effect (sending target true_owner ex is_hint) g =
      let (world', answer) =
        net.call_replicate_write target (write_request net key value clock true_owner is_hint)
          g.world in
      take_answer-Effect target true_owner ex world' answer g
  step_task-Effect (searching true_owner ex) g =
      elim (Option-cases (find_substitute key true_owner ex g.node)) [
        | inl nobody ↦
            rw (nobody, step_task)
              (record { marks = refl; acked = omega arith; grows = omega arith })
        | inr (t, found) ↦
            rw (found, step_task)
              (record { marks = refl; acked = omega arith; grows = omega arith })
      ]

  step_at-Effect :
      (j : ℕ) (ts : List Task) (g : Shared World)
      → let (ts', g') = step_at net key value clock j ts g in
        Effect (open_tasks ts) g (open_tasks ts') g'
  unfolding step_at open_tasks
  step_at-Effect j [] g = record { marks = refl; acked = omega arith; grows = omega arith }
  step_at-Effect zero (t ∷ ts) g =
      let step = step_task-Effect t g in
      record { marks = step.marks; acked = omega (arith, step.acked); grows = step.grows }
  step_at-Effect (suc j) (t ∷ ts) g =
      let step = step_at-Effect j ts g in
      record { marks = step.marks; acked = omega (arith, step.acked); grows = step.grows }

  -- Whatever the schedule and the answers, the acknowledgements never go down and grow by no
  -- more than the number of threads that return, and of the node only the unreachable peers
  -- change.
  pub run_tasks-Effect :
      (schedule : List ℕ) (ts : List Task) (g : Shared World)
      → let (ts', g') = run_tasks net key value clock schedule ts g in
        Effect (open_tasks ts) g (open_tasks ts') g'
  unfolding run_tasks
  run_tasks-Effect [] ts g = record { marks = refl; acked = omega arith; grows = omega arith }
  run_tasks-Effect (j ∷ schedule) ts g =
      let (ts', g') = step_at net key value clock j ts g in
      let (ts'', g'') = run_tasks net key value clock schedule ts' g' in
      let step = step_at-Effect j ts g in
      let rest = run_tasks-Effect schedule ts' g' in
      record {
        marks = OnlyMarks-trans g.node g'.node g''.node step.marks rest.marks;
        acked = omega (arith, step.acked, rest.acked);
        grows = omega (arith, step.grows, rest.grows);
      }

pub open_tasks_le : (ts : List Task) → open_tasks ts ≤ length ts
unfolding open_tasks
open_tasks_le [] = omega arith
open_tasks_le (finished ∷ ts) = omega (arith, open_tasks_le ts)
open_tasks_le (searching true_owner ex ∷ ts) = omega (arith, open_tasks_le ts)
open_tasks_le (sending target true_owner ex is_hint ∷ ts) = omega (arith, open_tasks_le ts)
