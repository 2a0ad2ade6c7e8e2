-- ===== src/Store/Commit.antt =====
-- `commitCoordinatedWrite`, and replicated writes that arrive more than once or in any order.
use driftstore.Prelude.{
  ℤ, ◌≡◌, ◌≢◌, refl, Option, List, [], ◌∷◌, some, All, In, inl, inr, sym, subst, ◌∙◌, All-map, ◌+◌,
  ◌<◌, Option-cases,
}
use driftstore.Text.{Text}
use driftstore.Assoc.{find}
use driftstore.Clock.{
  VectorClock, compare_vector_clocks, equal, dominates, dominated, concurrent, value_or_empty,
  u64_mod, build_new_clock,
}
use driftstore.Clock.Build.{build_new_clock-dominates, build_new_clock-IsMap, base, IsClock}
use driftstore.Clock.Compare.{compare_vector_clocks_of_Means}
use driftstore.Clock.Order.{Le, Le_trans, Ahead-not-Le}
use driftstore.Resolve.{VersionedValue}
use driftstore.Resolve.Frontier.{IsWell}
use driftstore.Resolve.Cover.{Means-of}
use driftstore.Node.{Node, already_current}
use driftstore.Store.{local_get, clock_of, commit_coordinated_write, store_replicated_write}
use driftstore.Store.Writes.{
  IsStore, local_get-IsWell, Comparison-cases, some_inj, written_self, written_others,
  written-IsStore, store_replicated_write-Held,
}

-- What the coordinator holds under `key` after its own write, which made the clock `updated`.
pub record Committed (key : Text) (value : Text) (context : Option VectorClock) (s : Node)
    (s' : Node) (updated : VectorClock) : Type 0 where
  pub holds : local_get key s' ≡ some (record { value = value; clock = updated })
  -- the new version is above what the client and the coordinator had seen
  pub above_context : compare_vector_clocks updated (value_or_empty context) ≡ dominates
  pub above_old :
      (old : VersionedValue)
      → local_get key s ≡ some old
      → compare_vector_clocks updated old.clock ≡ dominates
  pub others : (j : Text) → key ≢ j → local_get j s' ≡ local_get j s
  pub store : IsStore s'

-- the clock of what the node holds under the key
abbrev pub held_clock : Text → Node → Option VectorClock
held_clock key s = clock_of (local_get key s)

held_clock-IsClock : (key : Text) (s : Node) → IsStore s → IsClock (held_clock key s)
unfolding local_get
held_clock-IsClock key s h = elim (Option-cases (find key s.kv_store)) [
  | inl gone ↦ rw gone tt
  | inr (v, there) ↦ rw there (local_get-IsWell s key v h there)
]

-- A coordinated write stores the value under a clock that dominates both the client's context
-- and the version held before, where no clock holds a node twice and while the node's own
-- counter stays below 2 ^ 64; the other keys are as they were, and still no stored clock holds a
-- node twice.
pub commit_coordinated_write-Committed :
    (key value : Text) (context : Option VectorClock) (now : ℤ) (s : Node)
    → IsClock context
    → IsStore s
    → base context (held_clock key s) s.node_id + 1 < u64_mod
    → let (s', updated) = commit_coordinated_write key value context now s in
      Committed key value context s s' updated
unfolding commit_coordinated_write local_get
commit_coordinated_write-Committed key value context now s uc h room =
    let above =
      build_new_clock-dominates context (held_clock key s) s.node_id now uc
        (held_clock-IsClock key s h) room in
    let well = build_new_clock-IsMap context (held_clock key s) s.node_id now in
    record {
      holds = written_self key _ s well h;
      above_context = above.0;
      above_old = λ old e.
          subst
            (λ o.
              compare_vector_clocks (build_new_clock context (held_clock key s) s.node_id now)
                (value_or_empty (clock_of o))
              ≡ dominates)
            e above.1;
      others = written_others key _ s well h;
      store = written-IsStore key _ s well h;
    }

-- a write that the held version has seen changes nothing
pub store_replicated_write_current :
    (key : Text) (incoming v : VersionedValue) (s : Node)
    → IsWell incoming
    → IsWell v
    → local_get key s ≡ some v
    → Le incoming.clock v.clock
    → store_replicated_write key incoming s ≡ (s, already_current)
unfolding store_replicated_write local_get
store_replicated_write_current key incoming v s ui uv e le =
    elim (Comparison-cases v.clock incoming.clock) [
      | inl c ↦ rw (e, store_replicated_write, c) refl
      | inr (inl c) ↦ rw (e, store_replicated_write, c) refl
      | inr (inr (inl c)) ↦
          absurd (Ahead-not-Le incoming.clock v.clock (Means-of v incoming uv ui dominated c).1 le)
      | inr (inr (inr c)) ↦
          absurd (Ahead-not-Le incoming.clock v.clock (Means-of v incoming uv ui concurrent c).1 le)
    ]

-- Where no clock holds a node twice, a replicated write that arrives a second time is answered
-- by ALREADY_CURRENT and changes nothing.
pub store_replicated_write_again :
    (key : Text) (incoming : VersionedValue) (s : Node)
    → IsWell incoming
    → IsStore s
    → let s' = (store_replicated_write key incoming s).0 in
      store_replicated_write key incoming s' ≡ (s', already_current)
store_replicated_write_again key incoming s ui h =
    let first = store_replicated_write-Held key incoming s ui h in
    let uv = local_get-IsWell _ key first.version first.store first.holds in
    store_replicated_write_current key incoming first.version _ ui uv first.holds (first.seen)

-- replicated writes of one key, one after the other
unfoldable pub deliver : Text → List VersionedValue → Node → Node
deliver key [] s = s
deliver key (incoming ∷ rest) s = deliver key rest (store_replicated_write key incoming s).0

-- once the newest version is held, the older ones change nothing
deliver_kept :
    (key : Text) (xs : List VersionedValue) (v : VersionedValue) (s : Node)
    → All (λ x. IsWell x × Le x.clock v.clock) xs
    → IsWell v
    → local_get key s ≡ some v
    → deliver key xs s ≡ s
unfolding deliver
deliver_kept key [] v s below uv e = refl
deliver_kept key (x ∷ xs) v s ((ux, le), below) uv e =
    rw (store_replicated_write_current key x v s ux uv e le) (deliver_kept key xs v s below uv e)

-- Writes of one key arrive in any order, any number of times, with no clock that holds a node
-- twice: if one of them has seen all the others and what was held, the replica ends with a
-- version of that one's clock.
pub deliver_converges :
    (key : Text) (xs : List VersionedValue) (newest : VersionedValue) (s : Node)
    → All (λ x. IsWell x × Le x.clock newest.clock) xs
    → In newest xs
    → IsStore s
    → ((old : VersionedValue) → local_get key s ≡ some old → Le old.clock newest.clock)
    → (v : VersionedValue) × (local_get key (deliver key xs s) ≡ some v)
      × (compare_vector_clocks v.clock newest.clock ≡ equal)
unfolding deliver
deliver_converges key [] newest s below there h most = elim there [ ]
deliver_converges key (x ∷ xs) newest s ((ux, le), below) (inl same) h most =
    let step = store_replicated_write-Held key x s ux h in
    let v = step.version in
    let uv = local_get-IsWell _ key v step.store step.holds in
    let above : Le newest.clock v.clock = subst (λ y. Le y.clock v.clock) (sym same) step.seen in
    let upto = step.bounded newest le most in
    (
      v,
      rw
          (deliver_kept key xs v _
            (All-map (λ y. IsWell y × Le y.clock newest.clock) (λ y. IsWell y × Le y.clock v.clock)
              (λ y p. (p.0, Le_trans y.clock newest.clock v.clock p.1 above)) xs below)
            uv step.holds)
          step.holds,
      compare_vector_clocks_of_Means v.clock newest.clock uv (subst IsWell (sym same) ux)
          {r = equal} (upto, above),
    )
deliver_converges key (x ∷ xs) newest s ((ux, le), below) (inr later) h most =
    let step = store_replicated_write-Held key x s ux h in
    deliver_converges key xs newest _ below later step.store (λ old e.
      let same : step.version ≡ old = some_inj (sym step.holds ∙ e) in
      subst (λ y. Le y.clock newest.clock) same (step.bounded newest le most))
