-- ===== src/Put/Outcome.antt =====
-- What a coordinated write answers and leaves behind.
use driftstore.Prelude.{
  ℕ, ◌+◌, ◌*◌, ◌≤◌, ◌<◌, ◌≡◌, ◌↔◌, refl, true, false, List, [], ◌∷◌, Option, some, if_pos, if_neg,
  arith, length, ltb, Option-cases, inl, inr, sym, ap, subst,
}
use driftstore.Text.{Text, text_dec}
use driftstore.Assoc.{find}
use driftstore.Clock.{VectorClock}
use driftstore.Ring.{PreferenceListEntry}
use driftstore.Ring.Clockwise.{IsRing}
use driftstore.Node.{Node, HeldHint, PutResponse}
use driftstore.Store.Writes.{Comparison-cases}
use driftstore.Store.{commit_coordinated_write, put_hint}
use driftstore.Network.{Network}
use driftstore.FanOut.{Task, Shared, pref_list_ids, start_tasks, run_tasks}
use driftstore.FanOut.Progress.{turns, all_finished-run_tasks}
use driftstore.FanOut.Acks.{OnlyMarks, run_tasks-Effect, open_tasks_le}
use driftstore.Put.{
  Times, hold_own_hint, coordinate_entry, coordinate_local, coordinate_put, put_answer,
}

length-start_tasks_le :
    (id : Text) (ids : List Text) (pref_list : List PreferenceListEntry)
    → length (start_tasks id ids pref_list) ≤ length pref_list
unfolding start_tasks
length-start_tasks_le id ids [] = omega arith
length-start_tasks_le id ids (entry ∷ rest) = ground (arith, length-start_tasks_le id ids rest)

-- the node but for what it stores and the hints it holds
abbrev pub OnlyStores : Node → Node → Type 0
OnlyStores s s' = s' ≡ record s { kv_store = s'.kv_store; hints_for_target = s'.hints_for_target }

pub hold_own_hint-OnlyStores :
    (target : Text) (hint : HeldHint) (s : Node) → OnlyStores s (hold_own_hint target hint s)
unfolding hold_own_hint put_hint
hold_own_hint-OnlyStores target hint s = elim (Option-cases (find target s.hints_for_target)) [
  | inl gone ↦ rw (gone, hold_own_hint) refl
  | inr (hints, there) ↦ elim (Option-cases (find hint.key hints)) [
    | inl gone ↦ rw (there, hold_own_hint, gone) refl
    | inr (held, e) ↦ elim (Comparison-cases held.clock hint.clock) [
      | inl c ↦ rw (there, hold_own_hint, e, c) refl
      | inr (inl c) ↦ rw (there, hold_own_hint, e, c) refl
      | inr (inr (inl c)) ↦ rw (there, hold_own_hint, e, c) refl
      | inr (inr (inr c)) ↦ rw (there, hold_own_hint, e, c) refl
    ]
  ]
]

-- The coordinator's own part and the number of threads that it starts.
record OwnPart (s : Node) (threads entries : ℕ) (local : Node × VectorClock × ℕ) : Type 0 where
  within : local.2 + threads ≤ entries
  stores : OnlyStores s local.0

coordinate_entry-OwnPart :
    (key value : Text) (context : Option VectorClock) (t : Times) (entry : PreferenceListEntry)
    (s : Node) (threads entries : ℕ)
    → threads + 1 ≤ entries
    → OwnPart s threads entries (coordinate_entry key value context t entry s)
unfolding coordinate_entry commit_coordinated_write hold_own_hint put_hint
coordinate_entry-OwnPart key value context t entry s threads entries le =
    elim (Option-cases entry.hint_for_node_id) [
      | inl plain ↦ rw plain (record { within = omega arith; stores = refl })
      | inr (target, holds) ↦
          rw holds (record { within = omega arith; stores = hold_own_hint-OnlyStores target _ s })
    ]

coordinate_local-OwnPart :
    (key value : Text) (context : Option VectorClock) (t : Times) (ids : List Text)
    (pref_list : List PreferenceListEntry) (s : Node)
    → OwnPart s
        (length (start_tasks s.node_id ids pref_list))
        (length pref_list)
        (coordinate_local key value context t pref_list s)
unfolding coordinate_local start_tasks
coordinate_local-OwnPart key value context t ids [] s = record {
  within = omega arith;
  stores = refl;
}
coordinate_local-OwnPart key value context t ids (entry ∷ rest) s =
    elim (text_dec entry.node_id s.node_id) [
      | yes same ↦
          rw (if_pos _ same, if_pos _ same)
            (coordinate_entry-OwnPart key value context t entry s
              (length (start_tasks s.node_id ids rest)) (length (entry ∷ rest))
              (omega (arith, length-start_tasks_le s.node_id ids rest)))
      | no differ ↦
          let own = coordinate_local-OwnPart key value context t ids rest s in
          rw (if_neg _ differ, if_neg _ differ)
            (record { within = omega (arith, own.within); stores = own.stores })
    ]

-- How a coordinated write ends, after the coordinator's own part `local`.
pub record Coordinated (entries : ℕ) (local : Node × VectorClock × ℕ) (s : Node) (s' : Node)
    (resp : PutResponse) : Type 0 where
  -- success is W acknowledgements or more, of which there is one at most for each entry
  pub quorum : (resp.success ≡ true) ↔ (s.w ≤ resp.acks)
  pub bounded : resp.acks ≤ entries
  pub own_counted : local.2 ≤ resp.acks
  -- the client gets the clock of the write
  pub context : resp.context ≡ local.1
  -- what the node stores and the hints it holds come from its own part
  pub own_stores : OnlyStores s local.0
  pub marks : OnlyMarks local.0 s'

pub put_answer-quorum :
    (w acks : ℕ) (clock : VectorClock) → ((put_answer w acks clock).success ≡ true) ↔ (w ≤ acks)
put_answer-quorum w acks clock = (λ h. ground (arith, h), λ h. ground (arith, h))

-- the threads that a coordinator starts
abbrev pub threads : List PreferenceListEntry → Node → List Task
threads pref_list s = start_tasks s.node_id (pref_list_ids pref_list []) pref_list

module _ {World : Type 0} (net : Network World) (key value : Text) (context : Option VectorClock)
    (pref_list : List PreferenceListEntry) (t : Times) (schedule : List ℕ) (world : World)
    (s : Node) where
  -- the threads at their end
  abbrev pub run_end : List Task × Shared World
  run_end =
      let (s₁, clock, own) = coordinate_local key value context t pref_list s in
      run_tasks net key value clock schedule (threads pref_list s)
        (record { world = world; node = s₁; acks = own })

  -- with enough turns the write returns what its threads have left
  pub coordinate_put-run_end :
      IsRing s.ring
      → s.w ≤ length pref_list
      → ((i : ℕ) → i < length (threads pref_list s) → 2 * length s.ring + 2 ≤ turns i schedule)
      → let g' = run_end.1 in
        coordinate_put net key value context pref_list t schedule world s
        ≡ some (
          g'.world,
          g'.node,
          put_answer s.w g'.acks (coordinate_local key value context t pref_list s).1,
        )
  unfolding coordinate_put
  coordinate_put-run_end a wide enough =
      let (s₁, clock, own) = coordinate_local key value context t pref_list s in
      let part =
        coordinate_local-OwnPart key value context t (pref_list_ids pref_list []) pref_list s in
      let g : Shared World = record { world = world; node = s₁; acks = own } in
      let same_ring : s₁.ring ≡ s.ring = ap (λ x. x.ring) part.stores in
      let ended =
        all_finished-run_tasks net key value clock schedule (threads pref_list s) g
          (subst IsRing (sym same_ring) a)
          (λ i le.
            subst (λ r. 2 * length r + 2 ≤ turns i schedule) (sym same_ring) (enough i le)) in
      let not_small : ltb (length pref_list) s.w ≡ false = ground arith in
      rw (not_small, coordinate_put, ended) refl

  -- A coordinated write with at least W entries returns, on a ring in ascending order, once each
  -- thread has had twice as many turns as the ring has tokens, and two more. It succeeds exactly
  -- with W acknowledgements, of which there is one at most for each entry; it answers the clock of
  -- the write; and the node's store changes by its own part alone.
  pub coordinate_put-Coordinated :
      IsRing s.ring
      → s.w ≤ length pref_list
      → ((i : ℕ) → i < length (threads pref_list s) → 2 * length s.ring + 2 ≤ turns i schedule)
      → (world' : World) × (s' : Node) × (resp : PutResponse) × (coordinate_put net key value
            context pref_list t schedule world s
          ≡ some (world', s', resp))
        × Coordinated
            (length pref_list)
            (coordinate_local key value context t pref_list s)
            s
            s'
            resp
  coordinate_put-Coordinated a wide enough =
      let (s₁, clock, own) = coordinate_local key value context t pref_list s in
      let part =
        coordinate_local-OwnPart key value context t (pref_list_ids pref_list []) pref_list s in
      let g : Shared World = record { world = world; node = s₁; acks = own } in
      let g' = run_end.1 in
      let effect = run_tasks-Effect net key value clock schedule (threads pref_list s) g in
      (
        g'.world,
        g'.node,
        put_answer s.w g'.acks clock,
        coordinate_put-run_end a wide enough,
        record {
          quorum = put_answer-quorum s.w g'.acks clock;
          bounded = omega (arith, effect.acked, part.within, open_tasks_le (threads pref_list s));
          own_counted = effect.grows;
          context = refl;
          own_stores = part.stores;
          marks = effect.marks;
        },
      )
