-- ===== src/Tests/Reads.antt =====
-- Reads with small results, and the delivery of a hint.
use driftstore.Prelude.{true, List, some, [], ◌∷◌, ◌≡◌, ◌≢◌, refl, inl, inr, arith}
use driftstore.Clock.{compare_vector_clocks, dominated}
use driftstore.Clock.Order.{Le_refl}
use driftstore.Store.Writes.{IsStore}
use driftstore.Get.{ReplicaResult, ReadEnd, finish_get}
use driftstore.Get.Quorum.{finish_get-quorum}
use driftstore.Tests.Samples.{
  node_a, node_b, node_c, key_k, clock_a, clock_ab, clock_a-IsMap, clock_ab-IsMap, version_ab,
  sample,
}

sample-IsStore : IsStore sample
sample-IsStore = (clock_ab-IsMap, tt)

-- `b` has the newer version, `c` is behind
abbrev results : List ReplicaResult
results =
    record { peer_id = node_b; found = true; value = b'x' ∷ []; clock = clock_ab }
    ∷ record { peer_id = node_c; found = true; value = b'z' ∷ []; clock = clock_a }
    ∷ []

a_not_b : node_a ≢ node_b
a_not_b e = ground (arith, e)

b_not_c : node_b ≢ node_c
b_not_c e = ground (arith, e)

c_not_a : node_c ≢ node_a
c_not_a e = ground (arith, e)

c_not_b : node_c ≢ node_b
c_not_b e = ground (arith, e)

-- `a` and `b` hold the write; `b` and `c` answer the read
finish_get-quorum_example :
    (end : ReadEnd) × (finish_get key_k results sample ≡ some end)
    × (end.response.found ≡ true)
    × (compare_vector_clocks end.response.context clock_ab ≢ dominated)
finish_get-quorum_example =
    finish_get-quorum key_k (node_a ∷ node_b ∷ node_c ∷ []) (node_a ∷ node_b ∷ []) results
      version_ab sample ((a_not_b, tt), (tt, tt)) (inl refl, (inr (inl refl), tt))
      ((b_not_c, tt), (tt, tt)) (inr (inl refl), (inr (inr (inl refl)), tt)) (omega arith)
      (omega arith)
      (
        λ m. (refl, Le_refl clock_ab),
        (
          λ m. elim m [
            | inl e ↦ absurd (c_not_a e)
            | inr n ↦ elim n [ inl e ↦ absurd (c_not_b e) | inr none_left ↦ elim none_left [ ] ]
          ],
          tt,
        ),
      )
      (clock_ab-IsMap, (clock_a-IsMap, tt)) clock_ab-IsMap sample-IsStore
