-- ===== src/Put.antt =====
-- src/node_kv.cpp, lines 106-136 and 351-509: the coordination of a write.
pub mod Outcome
pub mod Forward
pub mod Passing
pub mod Handler
use driftstore.Prelude.{
  ℕ, zero, suc, ◌+◌, ◌%◌, ℤ, Bool, true, false, List, [], ◌∷◌, Option, none, some, ite,
  if◌then◌else◌, ltb, length, get_elem?,
}
use driftstore.Text.{Text, text_dec}
use driftstore.Assoc.{find}
use driftstore.Clock.{
  VectorClock, no_clock, build_new_clock, compare_vector_clocks, equal, dominates, dominated,
  concurrent,
}
use driftstore.Ring.{PreferenceListEntry}
use driftstore.Node.{Node, HeldHint, PutRequest, PutResponse, is_self_removed}
use driftstore.Store.{mark_unreachable, commit_coordinated_write, put_hint}
use driftstore.Route.{preference_list_for_key}
use driftstore.Network.{Network}
use driftstore.FanOut.{Shared, pref_list_ids, start_tasks, run_tasks, all_finished}

-- `now` and `hint_now` are what the two calls of `nowMillis` return.
pub record Times : Type 0 where
  pub now : ℤ
  pub hint_now : ℤ

abbrev pub refused : PutResponse
refused = record { success = false; acks = 0; context = no_clock }

-- A hint that the coordinator holds itself: it takes the place of a dominated one only.
unfoldable pub hold_own_hint : Text → HeldHint → Node → Node
unfolding put_hint
hold_own_hint target hint s = elim (find target s.hints_for_target) [
  | none ↦ put_hint target hint s
  | some hints ↦ elim (find hint.key hints) [
    | none ↦ put_hint target hint s
    | some held ↦ elim (compare_vector_clocks held.clock hint.clock) [
      | dominated ↦ put_hint target hint s
      | equal ↦ s
      | dominates ↦ s
      | concurrent ↦ s
    ]
  ]
]

-- what the coordinator does at the entry that names it
unfoldable pub coordinate_entry :
    Text → Text → Option VectorClock → Times → PreferenceListEntry → Node → Node × VectorClock × ℕ
unfolding commit_coordinated_write build_new_clock hold_own_hint
coordinate_entry key value client_context t entry s = elim entry.hint_for_node_id [
  | none ↦
      let (s', clock) = commit_coordinated_write key value client_context t.now s in (s', clock, 1)
  | some target ↦
      let clock = build_new_clock client_context none entry.node_id t.now in
      let hint : HeldHint = record {
        key = key;
        value = value;
        clock = clock;
        created_at = t.hint_now;
      } in
      (hold_own_hint target hint s, clock, 1)
]

-- The coordinator's own part, at the first entry that names it: its clock and its acknowledgement.
unfoldable pub coordinate_local :
    Text
    → Text
    → Option VectorClock
    → Times
    → List PreferenceListEntry
    → Node
    → Node × VectorClock × ℕ
unfolding coordinate_entry
coordinate_local key value client_context t [] s = (s, no_clock, 0)
coordinate_local key value client_context t (entry ∷ rest) s =
    ite (text_dec entry.node_id s.node_id) (coordinate_entry key value client_context t entry s)
      (coordinate_local key value client_context t rest s)

abbrev pub put_answer : ℕ → ℕ → VectorClock → PutResponse
put_answer w acks clock = record { success = not_less w acks; acks = acks; context = clock }
  where
    not_less : ℕ → ℕ → Bool
    not_less w acks = if ltb acks w then false else true

-- whether `std::find_if` finds the node in the list
unfoldable pub names_node : Text → List PreferenceListEntry → Bool
names_node node_id [] = false
names_node node_id (entry ∷ rest) =
    ite (text_dec entry.node_id node_id) true (names_node node_id rest)

module _ {World : Type 0} (net : Network World) where
  -- `none`: some thread has not returned when the schedule ends, and the handler waits for it.
  unfoldable pub coordinate_put :
      Text
      → Text
      → Option VectorClock
      → List PreferenceListEntry
      → Times
      → List ℕ
      → World
      → Node
      → Option (World × Node × PutResponse)
  unfolding coordinate_local start_tasks pref_list_ids run_tasks all_finished
  coordinate_put key value client_context pref_list t schedule world s =
      if ltb (length pref_list) s.w
      then some (world, s, refused)
      else let (s₁, clock, own) = coordinate_local key value client_context t pref_list s in
        let tasks = start_tasks s.node_id (pref_list_ids pref_list []) pref_list in
        let (tasks', g) =
          run_tasks net key value clock schedule tasks
            (record { world = world; node = s₁; acks = own }) in
        if all_finished tasks' then some (g.world, g.node, put_answer s.w g.acks clock) else none

  -- The attempts that are left, from the `i`-th on.
  unfoldable pub forward_loop :
      PutRequest → List PreferenceListEntry → ℕ → ℕ → ℕ → World → Node → World × Node × PutResponse
  unfolding mark_unreachable
  forward_loop request pref_list first zero i world s = (world, s, refused)
  forward_loop request pref_list first (suc left) i world s =
      elim (get_elem? pref_list ((first + i) % length pref_list)) [
        | none ↦ (world, s, refused)
        | some entry ↦
            let (world', answer) = net.call_put entry.node_id request world in
            elim answer [
              | some target_response ↦ (world', s, target_response)
              | none ↦
                  forward_loop request pref_list first left (i + 1) world'
                    (mark_unreachable entry.node_id s)
            ]
      ]

  -- `first` is the random position that the attempts start at.
  unfoldable pub forward_put :
      PutRequest → List PreferenceListEntry → ℕ → World → Node → World × Node × PutResponse
  unfolding forward_loop
  forward_put request pref_list first world s =
      forward_loop (record request { forwarded = true }) pref_list first (length pref_list) 0 world
        s

  -- `none` is an exception, or a thread that has not returned when the schedule ends.
  unfoldable pub put :
      PutRequest → Times → ℕ → List ℕ → World → Node → Option (World × Node × PutResponse)
  unfolding is_self_removed preference_list_for_key names_node coordinate_put forward_put
  put request t first schedule world s = elim (is_self_removed s) [
    | none ↦ none
    | some gone ↦
        if gone
        then some (world, s, refused)
        else let pref_list = preference_list_for_key request.key s.n s in
          if names_node s.node_id pref_list
          then coordinate_put request.key request.value (some request.context) pref_list t schedule
              world s
          else if request.forwarded
          then some (world, s, refused)
          else some (forward_put request pref_list first world s)
  ]
