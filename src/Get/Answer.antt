-- ===== src/Get/Answer.antt =====
-- What a read answers once its calls have ended.
use driftstore.Prelude.{
  ◌≤◌, ◌<◌, ◌≡◌, refl, true, false, List, [], ◌∷◌, Option, none, some, arith, All, All-In, length,
  ltb, Bool-cases, sym, subst, inl, inr,
}
use driftstore.Text.{Text}
use driftstore.Resolve.{VersionedValue, GetResolution, resolve_get_result}
use driftstore.Resolve.Frontier.{IsWell}
use driftstore.Resolve.Winner.{Resolved, resolve_get_result-Resolved}
use driftstore.Node.{Node}
use driftstore.Store.Writes.{IsStore}
use driftstore.Get.{
  ReplicaResult, ReadEnd, nothing_found, repair_thread, found_versions, stale_peers, finish_get,
}
use driftstore.Get.Repair.{IsResult, found_versions-IsWell, Repaired, self_repaired, All-Repaired}

-- How a read ends: without R results, or without a version, it finds nothing and changes nothing;
-- otherwise it answers the winner and repairs the rest.
pub data Finished (key : Text) (results : List ReplicaResult) (s : Node) : ReadEnd → Type 0 where
  few :
      (length results < s.r)
      → Finished key results s
          (record { node = s; response = nothing_found (length results); repair = none })
  missing :
      (s.r ≤ length results)
      → (found_versions results ≡ [])
      → Finished key results s
          (record { node = s; response = nothing_found (length results); repair = none })
  answered :
      (s.r ≤ length results)
      → (g : GetResolution) → (resolve_get_result (found_versions results) ≡ some g)
      → (Resolved (found_versions results) g)
      → (s' : Node) (repair : Option (VersionedValue × List Text))
      → (All (Repaired key g.winner s s' repair) results)
      → Finished key results s (record {
        node = s';
        response = record {
          found = true;
          value = g.winner.value;
          responses = length results;
          context = g.winner.clock;
        };
        repair = repair;
      })

pub finish_get-Finished :
    (key : Text) (results : List ReplicaResult) (s : Node)
    → All IsResult results
    → IsStore s
    → (end : ReadEnd) × (finish_get key results s ≡ some end) × Finished key results s end
unfolding finish_get
finish_get-Finished key results s u store = elim (Bool-cases (ltb (length results) s.r)) [
  | inl less ↦ (
    record { node = s; response = nothing_found (length results); repair = none },
    rw (less, finish_get) refl,
    few (ground (arith, less)),
  )
  | inr enough ↦ by_versions enough (found_versions results) refl
]
  where
    by_versions :
        ltb (length results) s.r ≡ false
        → (vs : List VersionedValue) → found_versions results ≡ vs
        → (end : ReadEnd) × (finish_get key results s ≡ some end) × Finished key results s end
    by_versions enough [] e = (
      record { node = s; response = nothing_found (length results); repair = none },
      rw (enough, finish_get, e) refl,
      missing (ground (arith, enough)) e,
    )
    by_versions enough (v ∷ vs) e =
        let wells = subst (All IsWell) e (found_versions-IsWell results u) in
        let (g, resolved, facts) = resolve_get_result-Resolved v vs wells in
        let winner_well = All-In IsWell (v ∷ vs) g.winner wells facts.member in
        let peers = stale_peers s.node_id g.winner.clock results in
        (
          record {
            node = self_repaired key g.winner results s;
            response = record {
              found = true;
              value = g.winner.value;
              responses = length results;
              context = g.winner.clock;
            };
            repair = repair_thread g.winner peers;
          },
          rw (enough, finish_get, e, resolved) refl,
          answered (ground (arith, enough)) g (rw e resolved)
              (subst (λ xs. Resolved xs g) (sym e) facts) (self_repaired key g.winner results s)
              (repair_thread g.winner peers)
              (All-Repaired key g.winner results s winner_well store),
        )
