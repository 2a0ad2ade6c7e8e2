-- ===== src/FanOut.antt =====
-- src/node_kv.cpp, lines 442-495: the writes that a coordinator sends to the other nodes of the
-- preference list, each in a thread of its own.
pub mod Progress
pub mod Acks
use driftstore.Prelude.{
  ℕ, zero, suc, ◌+◌, ℤ, Bool, true, false, List, [], ◌∷◌, Option, none, some, ite, if◌then◌else◌,
}
use driftstore.Text.{Text, text_dec}
use driftstore.Clock.{VectorClock}
use driftstore.Ring.{PreferenceListEntry, contains}
use driftstore.Node.{Node, ReplicateWriteRequest, ReplicateWriteResponse}
use driftstore.Store.{mark_unreachable}
use driftstore.Route.{find_substitute}
use driftstore.Network.{Network}

-- A thread is about to send to `target`, or to search for a substitute, or it has returned.
pub data Task : Type 0 where
  sending : (target : Text) → (true_owner : Text) → (excluded : List Text) → (is_hint : Bool) → Task
  searching : (true_owner : Text) → (excluded : List Text) → Task
  finished : Task

-- what the threads share
pub record Shared (World : Type 0) : Type 0 where
  pub world : World
  pub node : Node
  pub acks : ℕ

-- `excluded.insert(target)`
unfoldable pub add_id : Text → List Text → List Text
add_id x xs = if contains x xs then xs else x ∷ xs

-- `pref_list_ids`
unfoldable pub pref_list_ids : List PreferenceListEntry → List Text → List Text
unfolding add_id
pref_list_ids [] ids = ids
pref_list_ids (e ∷ rest) ids = pref_list_ids rest (add_id e.node_id ids)

abbrev pub task_for : List Text → PreferenceListEntry → Task
task_for ids entry = elim entry.hint_for_node_id [
  | none ↦ sending entry.node_id entry.node_id ids false
  | some owner ↦ sending entry.node_id owner ids true
]

-- the threads that are started: one for each entry but the node itself
unfoldable pub start_tasks : Text → List Text → List PreferenceListEntry → List Task
start_tasks node_id ids [] = []
start_tasks node_id ids (entry ∷ rest) =
    ite (text_dec entry.node_id node_id) (start_tasks node_id ids rest)
      (task_for ids entry ∷ start_tasks node_id ids rest)

module _ {World : Type 0} (net : Network World) (key value : Text) (clock : VectorClock) where
  abbrev pub write_request : Text → Bool → ReplicateWriteRequest
  write_request true_owner is_hint = record {
    key = key;
    value = value;
    vector_clock = clock;
    hint_for_node_id = if is_hint then some true_owner else none;
  }

  -- what a thread does with the answer of its call
  unfoldable pub take_answer :
      Text
      → Text
      → List Text
      → World
      → Option ReplicateWriteResponse
      → Shared World
      → Task × Shared World
  unfolding mark_unreachable add_id
  take_answer target true_owner excluded world' none g = (
    searching true_owner (add_id target excluded),
    record g { world = world'; node = mark_unreachable target g.node },
  )
  take_answer target true_owner excluded world' (some resp) g =
      if resp.success
      then (finished, record g { world = world'; acks = g.acks + 1 })
      else (searching true_owner (add_id target excluded), record g { world = world' })

  -- One step of a thread: a call with what follows from its answer, or a search.
  unfoldable pub step_task : Task → Shared World → Task × Shared World
  unfolding take_answer find_substitute
  step_task (sending target true_owner excluded is_hint) g =
      let (world', answer) =
        net.call_replicate_write target (write_request true_owner is_hint) g.world in
      take_answer target true_owner excluded world' answer g
  step_task (searching true_owner excluded) g =
      elim (find_substitute key true_owner excluded g.node) [
        | none ↦ (finished, g)
        | some substitute ↦ (sending substitute true_owner excluded true, g)
      ]
  step_task finished g = (finished, g)

  -- the thread at a position takes a step
  unfoldable pub step_at : ℕ → List Task → Shared World → List Task × Shared World
  unfolding step_task
  step_at i [] g = ([], g)
  step_at zero (t ∷ ts) g = let (t', g') = step_task t g in (t' ∷ ts, g')
  step_at (suc i) (t ∷ ts) g = let (ts', g') = step_at i ts g in (t ∷ ts', g')

  -- The threads run as the schedule says, which names the one that is next.
  unfoldable pub run_tasks : List ℕ → List Task → Shared World → List Task × Shared World
  unfolding step_at
  run_tasks [] ts g = (ts, g)
  run_tasks (i ∷ schedule) ts g = let (ts', g') = step_at i ts g in run_tasks schedule ts' g'

-- `f.get()` of every future returns
unfoldable pub all_finished : List Task → Bool
all_finished [] = true
all_finished (finished ∷ ts) = all_finished ts
all_finished (sending target true_owner excluded is_hint ∷ ts) = false
all_finished (searching true_owner excluded ∷ ts) = false
