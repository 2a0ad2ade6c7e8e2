-- ===== src/Get/Quorum.antt =====
-- A read of R replicas sees a write that W replicas hold, where W + R is more than N.
use driftstore.Prelude.{
  ◌+◌, ◌≤◌, ◌<◌, ◌≡◌, ◌≢◌, refl, true, List, [], ◌∷◌, some, arith, All, All-In, In, Pairwise,
  length, length-map, map, Bool-cases, subst, inl, inr,
}
use driftstore.Text.{Text}
use driftstore.Clock.{compare_vector_clocks, dominated}
use driftstore.Clock.Order.{Le, Le_trans}
use driftstore.Clock.Compare.{compare_vector_clocks_of_Means}
use driftstore.Resolve.{VersionedValue}
use driftstore.Resolve.Frontier.{IsWell}
use driftstore.Resolve.Cover.{Means-of}
use driftstore.Resolve.Split.{NotBelow}
use driftstore.Node.{Node}
use driftstore.Store.Writes.{IsStore}
use driftstore.Get.{ReplicaResult, ReadEnd, found_versions, finish_get}
use driftstore.Get.Repair.{IsResult, found_versions-IsWell}
use driftstore.Get.Answer.{Finished, few, missing, answered, finish_get-Finished}
use driftstore.Get.Overlap.{In-overlap}

abbrev pub peer_ids : List ReplicaResult → List Text
peer_ids = map (λ r. r.peer_id)

-- the result that has an id
result_of :
    (x : Text) (rs : List ReplicaResult)
    → In x (peer_ids rs)
    → (r : ReplicaResult) × In r rs × (x ≡ r.peer_id)
result_of x [] m = elim m [ ]
result_of x (r ∷ rs) (inl same) = (r, inl refl, same)
result_of x (r ∷ rs) (inr m) = let (q, at, same) = result_of x rs m in (q, inr at, same)

In-found_versions :
    (r : ReplicaResult) (rs : List ReplicaResult)
    → In r rs
    → r.found ≡ true
    → In (record { value = r.value; clock = r.clock }) (found_versions rs)
unfolding found_versions
In-found_versions r [] m f = elim m [ ]
In-found_versions r (q ∷ rs) (inl same) f =
    subst (λ x. In (record { value = r.value; clock = r.clock }) (found_versions (x ∷ rs))) same
      (rw f (inl refl))
In-found_versions r (q ∷ rs) (inr m) f = elim (Bool-cases q.found) [
  | inl y ↦ rw y (inr (In-found_versions r rs m f))
  | inr n ↦ rw n (In-found_versions r rs m f)
]

-- what has not seen all of a version does not stand below it
above_NotBelow :
    (winner v written : VersionedValue)
    → IsWell winner
    → IsWell v
    → IsWell written
    → Le written.clock v.clock
    → NotBelow winner v
    → NotBelow winner written
above_NotBelow winner v written uw uv un le keeps below =
    let (under, (n, ahead)) = Means-of winner written uw un dominated below in
    keeps (
      compare_vector_clocks_of_Means winner.clock v.clock uw uv {r = dominated}
        (Le_trans winner.clock written.clock v.clock under le, (n, omega (arith, ahead, le n))))

-- a read that has a version above a write answers one that is not below it
Finished-NotBelow :
    (key : Text) (results : List ReplicaResult) (s : Node) (v written : VersionedValue)
    (end : ReadEnd)
    → Finished key results s end
    → s.r ≤ length results
    → In v (found_versions results)
    → All IsWell (found_versions results)
    → IsWell written
    → Le written.clock v.clock
    → (end.response.found ≡ true)
      × (compare_vector_clocks end.response.context written.clock ≢ dominated)
Finished-NotBelow key results s v written end (few less) enough m u w le = absurd (omega arith)
Finished-NotBelow key results s v written end (missing wide empty) enough m u w le =
    elim (subst (In v) empty m) [ ]
Finished-NotBelow key results s v written end (answered wide g resolved facts s' repair all) enough
      m u w le =
    (
      refl,
      above_NotBelow g.winner v written (All-In IsWell _ g.winner u facts.member)
          (All-In IsWell _ v u m) w le (All-In (NotBelow g.winner) _ v facts.undominated m),
    )

-- After a write that W of N nodes hold, a read with R results or more from distinct ones of the
-- N nodes, where W and the number of results are more than N together, finds a version that the
-- write does not dominate, when each of those W nodes that answers the read reports a version
-- that has seen the write, and no clock holds a node twice.
pub finish_get-quorum :
    (key : Text) (ns ws : List Text) (results : List ReplicaResult) (written : VersionedValue)
    (s : Node)
    → Pairwise ◌≢◌ ws
    → All (λ n. In n ns) ws
    → Pairwise ◌≢◌ (peer_ids results)
    → All (λ n. In n ns) (peer_ids results)
    → length ns < length ws + length results
    → s.r ≤ length results
    → All (λ r. In r.peer_id ws → (r.found ≡ true) × Le written.clock r.clock) results
    → All IsResult results
    → IsWell written
    → IsStore s
    → (end : ReadEnd) × (finish_get key results s ≡ some end)
      × (end.response.found ≡ true)
      × (compare_vector_clocks end.response.context written.clock ≢ dominated)
finish_get-quorum key ns ws results written s dw aw dr ar more enough holds u well store =
    let (x, at_w, at_r) =
      In-overlap ws (peer_ids results) ns dw dr aw ar
        (omega (arith, length-map results (λ r. r.peer_id))) in
    let (r, member, same) = result_of x results at_r in
    let (found, le) = All-In _ results r holds member (subst (λ y. In y ws) same at_w) in
    let v : VersionedValue = record { value = r.value; clock = r.clock } in
    let there = In-found_versions r results member found in
    let (end, ended, how) = finish_get-Finished key results s u store in
    let (answers, keeps) =
      Finished-NotBelow key results s v written end how enough there
        (found_versions-IsWell results u) well le in
    (end, ended, answers, keeps)
