-- ===== src/Cluster/Tally.antt =====
-- The threads of a coordinated write in a cluster: a thread that has acknowledged leaves the node
-- that it writes for with the write, or another node with a hint for it.
use driftstore.Prelude.{
  ℕ, zero, suc, ◌+◌, ◌≡◌, ◌⊎◌, refl, ℤ, Bool, true, false, List, [], ◌∷◌, Option, none, some, arith,
  Bool-cases, Option-cases, inl, inr, subst,
}
use driftstore.Text.{Text}
use driftstore.Assoc.{IsMap}
use driftstore.Clock.{VectorClock}
use driftstore.Node.{PutRequest, PutResponse, ReplicateWriteResponse}
use driftstore.Route.{find_substitute}
use driftstore.Network.{Network}
use driftstore.FanOut.{
  Task, sending, searching, finished, Shared, take_answer, step_task, step_at, run_tasks,
  write_request,
}
use driftstore.Cluster.{Fate, Cluster, cluster_net}
use driftstore.Cluster.Calls.{AllWell, CopyAt, HintAt, Onward, Onward-trans, write-Written}

-- the node that a thread writes for; to it the thread sends without a hint
abbrev pub Owned : Text → Task → Type 0
Owned o finished = Unit
Owned o (searching owner ex) = owner ≡ o
Owned o (sending target owner ex is_hint) = (owner ≡ o) × (is_hint ≡ false → target ≡ o)

abbrev pub one : Bool → ℕ
one true = 1
one false = 0

abbrev pub ones : List Bool → ℕ
ones [] = 0
ones (m ∷ ms) = one m + ones ms

module _ (key : Text) (clock : VectorClock) where
  -- The node has the write, or some node holds a hint for it.
  abbrev pub Covered : Cluster → Text → Type 0
  Covered c o = CopyAt key clock o c ⊎ ((n : Text) × HintAt key clock n o c)

  -- a thread, and whether it has acknowledged
  abbrev pub Entry : Cluster → Text → Task → Bool → Type 0
  Entry c o t true = Covered c o × (t ≡ finished)
  Entry c o t false = Owned o t

  abbrev pub Tally : Cluster → List Text → List Task → List Bool → Type 0
  Tally c [] [] [] = Unit
  Tally c (o ∷ os) (t ∷ ts) (m ∷ ms) = Entry c o t m × Tally c os ts ms
  Tally c [] [] (m ∷ ms) = ⊥
  Tally c [] (t ∷ ts) ms = ⊥
  Tally c (o ∷ os) [] ms = ⊥
  Tally c (o ∷ os) (t ∷ ts) [] = ⊥

  Covered-Onward :
      (c c' : Cluster) → Onward key clock c c' → (o : Text) → Covered c o → Covered c' o
  Covered-Onward c c' on o (inl copy) = inl (on.copies o copy)
  Covered-Onward c c' on o (inr (n, hint)) = inr (n, on.hints n o hint)

  Entry-Onward :
      (c c' : Cluster)
      → Onward key clock c c'
      → (o : Text) (t : Task) (m : Bool) → Entry c o t m
      → Entry c' o t m
  Entry-Onward c c' on o t true (h, e) = (Covered-Onward c c' on o h, e)
  Entry-Onward c c' on o t false h = h

  Tally-Onward :
      (c c' : Cluster)
      → Onward key clock c c'
      → (os : List Text) (ts : List Task) (ms : List Bool) → Tally c os ts ms
      → Tally c' os ts ms
  Tally-Onward c c' on [] [] [] h = tt
  Tally-Onward c c' on [] [] (m ∷ ms) h = elim h [ ]
  Tally-Onward c c' on [] (t ∷ ts) ms h = elim h [ ]
  Tally-Onward c c' on (o ∷ os) [] ms h = elim h [ ]
  Tally-Onward c c' on (o ∷ os) (t ∷ ts) [] h = elim h [ ]
  Tally-Onward c c' on (o ∷ os) (t ∷ ts) (m ∷ ms) h =
      (Entry-Onward c c' on o t m h.0, Tally-Onward c c' on os ts ms h.1)

module _ (fate : ℕ → Fate) (now : ℕ → ℤ)
    (relay : Text → PutRequest → Cluster → Cluster × Option PutResponse) (key value : Text)
    (clock : VectorClock) (well_clock : IsMap clock.counters) where
  abbrev pub net : Network Cluster
  net = cluster_net fate now relay

  -- a step of a thread that writes for `o`, from `g` on
  abbrev Stepped : Text → Bool → Shared Cluster → Task × Shared Cluster → Type 0
  Stepped o m g (t', g') =
      (m' : Bool) × Entry key clock g'.world o t' m'
      × Onward key clock g.world g'.world
      × (g'.acks + one m ≡ g.acks + one m')

  Onward-refl : (c : Cluster) → AllWell c → Onward key clock c c
  Onward-refl c well = record { well = well; copies = λ n h. h; hints = λ n o h. h }

  take_answer-Stepped :
      (o target owner : Text) (ex : List Text) (is_hint : Bool) (c' : Cluster)
      (answer : Option ReplicateWriteResponse) (g : Shared Cluster)
      → owner ≡ o
      → Onward key clock g.world c'
      → ((resp : ReplicateWriteResponse)
          → answer ≡ some resp
          → resp.success ≡ true
          → Covered key clock c' o)
      → Stepped o false g (take_answer net key value clock target owner ex c' answer g)
  unfolding take_answer
  take_answer-Stepped o target owner ex is_hint c' none g same on covers = (false, same, on, refl)
  take_answer-Stepped o target owner ex is_hint c' (some resp) g same on covers =
      elim (Bool-cases resp.success) [
        | inl ok ↦ rw ok (true, (covers resp refl ok, refl), on, omega arith)
        | inr declined ↦ rw declined (false, same, on, refl)
      ]

  step_task-Stepped :
      (o : Text) (t : Task) (m : Bool) (g : Shared Cluster)
      → AllWell g.world
      → Entry key clock g.world o t m
      → Stepped o m g (step_task net key value clock t g)
  unfolding step_task
  step_task-Stepped o finished m g well h = (m, h, Onward-refl g.world well, refl)
  step_task-Stepped o (searching owner ex) true g well h = absurd (let x : ⊥ = cc (h.1) in x)
  step_task-Stepped o (sending target owner ex is_hint) true g well h =
      absurd (let x : ⊥ = cc (h.1) in x)
  step_task-Stepped o (searching owner ex) false g well h =
      elim (Option-cases (find_substitute key owner ex g.node)) [
        | inl nobody ↦ rw (nobody, step_task) (false, tt, Onward-refl g.world well, refl)
        | inr (substitute, found) ↦
            rw (found, step_task)
              (false, (h, λ e. absurd (let x : ⊥ = cc in x)), Onward-refl g.world well, refl)
      ]
  step_task-Stepped o (sending target owner ex is_hint) false g well h =
      let written =
        write-Written fate now relay key value clock well_clock target owner is_hint g.world well in
      let (c', answer) =
        net.call_replicate_write target (write_request net key value clock owner is_hint) g.world in
      take_answer-Stepped o target owner ex is_hint c' answer g h.0 written.onward (λ resp e ok.
        elim (Bool-cases is_hint) [
          | inl hint ↦ inr (
            target,
            subst (λ x. HintAt key clock target x c') h.0 (written.hinted resp e ok hint),
          )
          | inr plain ↦
              inl (subst (λ x. CopyAt key clock x c') (h.1 plain) (written.copied resp e ok plain))
        ])

  -- threads that write for `os`, from `g` on
  abbrev pub Tallied : List Text → List Bool → Shared Cluster → List Task × Shared Cluster → Type 0
  Tallied os ms g (ts', g') =
      (ms' : List Bool) × Tally key clock g'.world os ts' ms'
      × Onward key clock g.world g'.world
      × (g'.acks + ones ms ≡ g.acks + ones ms')

  step_at-Tallied :
      (j : ℕ) (os : List Text) (ts : List Task) (ms : List Bool) (g : Shared Cluster)
      → AllWell g.world
      → Tally key clock g.world os ts ms
      → Tallied os ms g (step_at net key value clock j ts g)
  unfolding step_at
  step_at-Tallied j [] [] [] g well h = ([], tt, Onward-refl g.world well, refl)
  step_at-Tallied j [] [] (m ∷ ms) g well h = elim h [ ]
  step_at-Tallied j [] (t ∷ ts) ms g well h = elim h [ ]
  step_at-Tallied j (o ∷ os) [] ms g well h = elim h [ ]
  step_at-Tallied j (o ∷ os) (t ∷ ts) [] g well h = elim h [ ]
  step_at-Tallied zero (o ∷ os) (t ∷ ts) (m ∷ ms) g well h =
      let (m', entry, on, count) = step_task-Stepped o t m g well h.0 in
      let g' = (step_task net key value clock t g).1 in
      (
        m' ∷ ms,
        (entry, Tally-Onward key clock g.world g'.world on os ts ms h.1),
        on,
        omega (arith, count),
      )
  step_at-Tallied (suc j) (o ∷ os) (t ∷ ts) (m ∷ ms) g well h =
      let (ms', rest, on, count) = step_at-Tallied j os ts ms g well h.1 in
      let g' = (step_at net key value clock j ts g).1 in
      (
        m ∷ ms',
        (Entry-Onward key clock g.world g'.world on o t m h.0, rest),
        on,
        omega (arith, count),
      )

  pub run_tasks-Tallied :
      (schedule : List ℕ) (os : List Text) (ts : List Task) (ms : List Bool) (g : Shared Cluster)
      → AllWell g.world
      → Tally key clock g.world os ts ms
      → Tallied os ms g (run_tasks net key value clock schedule ts g)
  unfolding run_tasks
  run_tasks-Tallied [] os ts ms g well h = (ms, h, Onward-refl g.world well, refl)
  run_tasks-Tallied (j ∷ schedule) os ts ms g well h =
      let (ts', g') = step_at net key value clock j ts g in
      let (ms', step, on, count) = step_at-Tallied j os ts ms g well h in
      let (ms'', rest, on', count') = run_tasks-Tallied schedule os ts' ms' g' on.well step in
      (ms'', rest, Onward-trans key clock on on', omega (arith, count, count'))
