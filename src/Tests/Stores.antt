-- ===== src/Tests/Stores.antt =====
-- Writes and hints at a small store.
use driftstore.Prelude.{pos, List, some, [], ◌∷◌, ◌≡◌, refl, inl, inr, arith, subst, ◌+◌, ◌<◌}
use driftstore.Text.{text_dec}
use driftstore.Assoc.{find, IsMap}
use driftstore.Clock.{
  compare_vector_clocks, compare_finish, compare_shared, compare_rest, verdict, equal, count,
  u64_mod,
}
use driftstore.Clock.Build.{base}
use driftstore.Clock.Order.{Le, Le_refl}
use driftstore.Resolve.{VersionedValue}
use driftstore.Node.{Node, HeldHint, stored, already_current}
use driftstore.Store.{local_get, commit_coordinated_write, store_replicated_write, hold_hint}
use driftstore.Store.Writes.{Held, IsStore, store_replicated_write-Held}
use driftstore.Store.Commit.{
  Committed, held_clock, commit_coordinated_write-Committed, store_replicated_write_again, deliver,
  deliver_converges,
}
use driftstore.Store.Hints.{HintHeld, held_hint, hold_hint-HintHeld}
use driftstore.Tests.Samples.{
  node_a, node_c, key_k, clock_a, clock_ab, clock_b, clock_a-IsMap, clock_ab-IsMap, clock_b-IsMap,
  version_a, version_ab, version_b, sample,
}

sample-IsStore : IsStore sample
sample-IsStore = (clock_ab-IsMap, tt)

-- a concurrent version takes the place of the held one, an older one does not
concurrent_stored : (store_replicated_write key_k version_b sample).1 ≡ stored
unfolding store_replicated_write compare_vector_clocks compare_finish compare_shared compare_rest
    verdict count find text_dec
concurrent_stored = refl

older_refused : store_replicated_write key_k version_a sample ≡ (sample, already_current)
unfolding store_replicated_write compare_vector_clocks compare_finish compare_shared compare_rest
    verdict count find text_dec
older_refused = refl

room : base (some clock_b) (held_clock key_k sample) node_a + 1 < u64_mod
unfolding local_get count find text_dec
room = omega arith

commit_coordinated_write-Committed_example :
    let (s', updated) =
      commit_coordinated_write key_k (b'w' ∷ []) (some clock_b) (pos 200) sample in
    Committed key_k (b'w' ∷ []) (some clock_b) sample s' updated
commit_coordinated_write-Committed_example =
    commit_coordinated_write-Committed key_k (b'w' ∷ []) (some clock_b) (pos 200) sample
      clock_b-IsMap sample-IsStore room

store_replicated_write-Held_example :
    let (s', outcome) = store_replicated_write key_k version_b sample in
    Held key_k version_b sample s' outcome
store_replicated_write-Held_example =
    store_replicated_write-Held key_k version_b sample clock_b-IsMap sample-IsStore

store_replicated_write_again_example :
    let s' = (store_replicated_write key_k version_b sample).0 in
    store_replicated_write key_k version_b s' ≡ (s', already_current)
store_replicated_write_again_example =
    store_replicated_write_again key_k version_b sample clock_b-IsMap sample-IsStore

abbrev hint_ab : HeldHint
hint_ab = record { key = key_k; value = b'x' ∷ []; clock = clock_ab; created_at = pos 7 }

abbrev hint_b : HeldHint
hint_b = record { key = key_k; value = b'y' ∷ []; clock = clock_b; created_at = pos 8 }

abbrev with_hint : Node
with_hint = record sample { hints_for_target = (node_c, (key_k, hint_ab) ∷ []) ∷ [] }

held_well :
    (held : HeldHint) → held_hint node_c key_k with_hint ≡ some held → IsMap held.clock.counters
unfolding held_hint find text_dec
held_well held e =
    let same : hint_ab ≡ held = ground (arith, e) in
    subst (λ h. IsMap h.clock.counters) same clock_ab-IsMap

hold_hint-HintHeld_example : HintHeld node_c hint_b with_hint (hold_hint node_c hint_b with_hint)
hold_hint-HintHeld_example = hold_hint-HintHeld node_c hint_b with_hint clock_b-IsMap held_well

a_below : Le clock_a clock_ab
unfolding count find
a_below n = ground arith

abbrev newer : List VersionedValue
newer = version_a ∷ version_ab ∷ version_a ∷ []

abbrev empty : Node
empty = record sample { kv_store = (key_k, version_a) ∷ [] }

empty_below :
    (old : VersionedValue) → local_get key_k empty ≡ some old → Le old.clock version_ab.clock
unfolding local_get find text_dec
empty_below old e =
    let same : version_a ≡ old = ground (arith, e) in subst (λ o. Le o.clock clock_ab) same a_below

deliver_converges_example :
    (v : VersionedValue) × (local_get key_k (deliver key_k newer empty) ≡ some v)
    × (compare_vector_clocks v.clock clock_ab ≡ equal)
deliver_converges_example =
    deliver_converges key_k newer version_ab empty
      (
        (clock_a-IsMap, a_below),
        ((clock_ab-IsMap, Le_refl clock_ab), ((clock_a-IsMap, a_below), tt)),
      )
      (inr (inl refl)) (clock_a-IsMap, tt) empty_below
