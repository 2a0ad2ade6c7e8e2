-- ===== src/Resolve/Split.antt =====
-- The two loops of `computeFrontier` without their indices: an entry survives when it stands
-- against the entries before it and those after it.
use driftstore.Prelude.{
  ℕ, ◌+◌, ◌<◌, ◌≡◌, ◌≢◌, refl, true, List, [], ◌∷◌, ◌++◌, arith, length, All, Bool-cases, inl, inr,
  sym, length-append, ◌∙◌,
}
use mathlib.Core.List.{append_assoc}
use driftstore.Clock.{compare_vector_clocks, equal, dominated}
use driftstore.Resolve.{VersionedValue, keep_from, frontier_from, compute_frontier}

abbrev pub NotBelow : VersionedValue → VersionedValue → Type 0
NotBelow v r = compare_vector_clocks v.clock r.clock ≢ dominated

abbrev pub Differs : VersionedValue → VersionedValue → Type 0
Differs v r = compare_vector_clocks v.clock r.clock ≢ equal

abbrev pub Stands : List VersionedValue → VersionedValue → List VersionedValue → Type 0
Stands before v after = All (λ r. NotBelow v r × Differs v r) before × All (NotBelow v) after

module _ (v : VersionedValue) (i : ℕ) where
  keep_after :
      (j : ℕ) (after : List VersionedValue)
      → i < j
      → keep_from v.clock i j after ≡ true
      → All (NotBelow v) after
  unfolding keep_from
  keep_after j [] h e = tt
  keep_after j (r ∷ after) h e =
      (λ below. ground arith, keep_after (j + 1) after (omega arith) (ground arith))

  keep_after_conv :
      (j : ℕ) (after : List VersionedValue)
      → i < j
      → All (NotBelow v) after
      → keep_from v.clock i j after ≡ true
  unfolding keep_from
  keep_after_conv j [] h a = refl
  keep_after_conv j (r ∷ after) h a =
      ground (arith, a.0, keep_after_conv (j + 1) after (omega arith) a.1)

  keep-Stands :
      (j : ℕ) (before : List VersionedValue) (x : VersionedValue) (after : List VersionedValue)
      → j + length before ≡ i
      → keep_from v.clock i j (before ++ x ∷ after) ≡ true
      → Stands before v after
  unfolding keep_from
  keep-Stands j [] x after h e = (tt, keep_after (j + 1) after (omega arith) (ground arith))
  keep-Stands j (r ∷ before) x after h e =
      let ih = keep-Stands (j + 1) before x after (omega arith) (ground arith) in
      (((λ below. ground arith, λ same. ground arith), ih.0), ih.1)

  Stands-keep :
      (j : ℕ) (before : List VersionedValue) (x : VersionedValue) (after : List VersionedValue)
      → j + length before ≡ i
      → Stands before v after
      → keep_from v.clock i j (before ++ x ∷ after) ≡ true
  unfolding keep_from
  Stands-keep j [] x after h s = ground (arith, keep_after_conv (j + 1) after (omega arith) s.1)
  Stands-keep j (r ∷ before) x after h s =
      ground (arith, s.0.0, Stands-keep (j + 1) before x after (omega arith) (s.0.1, s.1))

-- Which entries of a list survive, when `before` stands in front of it.
pub data Survivors : List VersionedValue → List VersionedValue → List VersionedValue → Type 0 where
  done : (before : List VersionedValue) → Survivors before [] []
  keep :
      {before rest out : List VersionedValue} {r : VersionedValue}
      → Stands before r rest
      → Survivors (before ++ r ∷ []) rest out
      → Survivors before (r ∷ rest) (r ∷ out)
  drop :
      {before rest out : List VersionedValue} {r : VersionedValue}
      → ¬ Stands before r rest
      → Survivors (before ++ r ∷ []) rest out
      → Survivors before (r ∷ rest) out

frontier_from-Survivors :
    (all before rest : List VersionedValue) (i : ℕ)
    → all ≡ before ++ rest
    → length before ≡ i
    → Survivors before rest (frontier_from all i rest)
unfolding frontier_from
frontier_from-Survivors all before [] i e h = done before
frontier_from-Survivors all before (r ∷ rest) i e h =
    let start : 0 + length before ≡ i = omega arith in
    let ih =
      frontier_from-Survivors all (before ++ r ∷ []) rest (i + 1)
        (e ∙ sym (append_assoc before (r ∷ []) rest))
        (omega (arith, length-append before (r ∷ []))) in
    elim (Bool-cases (keep_from r.clock i 0 all)) [
      | inl kept ↦ rw kept (keep (keep-Stands r i 0 before r rest start (rw e at kept)) ih)
      | inr dropped ↦ rw dropped (
          drop
            (λ (s : Stands before r rest).
              let d = (rw e at dropped) in
              let k = Stands-keep r i 0 before r rest start s in cc (d, k))
            ih)
    ]

-- The double loop keeps exactly the entries that stand: those that no entry dominates, and that
-- equal no earlier entry.
pub compute_frontier-Survivors : (xs : List VersionedValue) → Survivors [] xs (compute_frontier xs)
unfolding compute_frontier
compute_frontier-Survivors xs = frontier_from-Survivors xs [] xs 0 refl refl
