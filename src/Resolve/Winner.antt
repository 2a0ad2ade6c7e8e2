-- ===== src/Resolve/Winner.antt =====
-- `resolveGetResult`: a read of versions always has a winner, and what the winner is.
use driftstore.Prelude.{
  true, ltb_ℤ, eqb_ℤ, eqb_ℤ_refl, All-map, ◌≡◌, refl, List, [], ◌∷◌, some, arith, All, All-In,
  All-of_In, In, length, false, inl, inr, subst, sym, ◌∙◌,
}
use driftstore.Text.{text_lt}
use driftstore.Clock.Order.{Le}
use driftstore.Resolve.{
  VersionedValue, GetResolution, beats, pick, compute_frontier, resolve_get_result,
}
use driftstore.Resolve.Lww.{beats_irrefl, resolve_lww-Unbeaten}
use driftstore.Resolve.Split.{
  NotBelow, Differs, Survivors, done, keep, drop, compute_frontier-Survivors,
}
use driftstore.Resolve.Frontier.{IsWell, Follows-last, Survivors-Follows, compute_frontier-Pairwise}
use driftstore.Resolve.Cover.{NotBelow-of_le, compute_frontier_covers}
use driftstore.Clock.Order.{Le_refl}

Survivors-NotBelow :
    {before rest out : List VersionedValue}
    → Survivors before rest out
    → All IsWell rest
    → All (λ t. All (NotBelow t) rest) out
Survivors-NotBelow (done before) u = tt
Survivors-NotBelow {before} (keep {rest = rest} {out = out} {r = r} s f) u =
    let ih = Survivors-NotBelow f u.1 in
    let last = Follows-last before r out (Survivors-Follows f) in
    (
      (NotBelow-of_le r r u.0 u.0 (Le_refl r.clock), s.1),
      All-of_In (λ t. All (NotBelow t) (r ∷ rest)) out
          λ t j. (
            (All-In (λ q. NotBelow q r × Differs q r) out t last j).0,
            All-In (λ q. All (NotBelow q) rest) out t ih j,
          ),
    )
Survivors-NotBelow {before} {out = out} (drop {rest = rest} {r = r} s f) u =
    let ih = Survivors-NotBelow f u.1 in
    let last = Follows-last before r out (Survivors-Follows f) in
    All-of_In (λ t. All (NotBelow t) (r ∷ rest)) out
      λ t j. (
        (All-In (λ q. NotBelow q r × Differs q r) out t last j).0,
        All-In (λ q. All (NotBelow q) rest) out t ih j,
      )

-- The winner among survivors.
pick-Best :
    (out : List VersionedValue) (s : VersionedValue)
    → In s out
    → (w : VersionedValue) × (pick out ≡ some w) × In w out × All (λ x. beats x w ≡ false) out
unfolding pick
pick-Best [] s i = elim i [ ]
pick-Best (v ∷ []) s i = (v, refl, inl refl, (beats_irrefl v, tt))
pick-Best (v ∷ v' ∷ vs) s i = resolve_lww-Unbeaten v (v' ∷ vs)

single_survivor :
    (out : List VersionedValue) (s w : VersionedValue)
    → length out ≡ 1
    → In s out
    → In w out
    → s ≡ w
single_survivor [] s w h i j = elim i [ ]
single_survivor (v ∷ []) s w h (inl e) (inl d) = e ∙ sym d
single_survivor (v ∷ []) s w h (inl e) (inr d) = elim d [ ]
single_survivor (v ∷ []) s w h (inr e) j = elim e [ ]
single_survivor (v ∷ v' ∷ vs) s w h i j = absurd (omega arith)

-- A version is no later write than the winner: its timestamp is not greater, and where it is the
-- same, its writer is not.
pub record NotLater (winner version : VersionedValue) : Type 0 where
  pub time : ltb_ℤ winner.clock.last_updated version.clock.last_updated ≡ false
  pub writer :
      version.clock.last_updated ≡ winner.clock.last_updated
      → text_lt winner.clock.writer_id version.clock.writer_id ≡ false

NotLater-unbeaten :
    (winner version : VersionedValue) → beats version winner ≡ false → NotLater winner version
unfolding beats
NotLater-unbeaten winner version e =
    let same_time = eqb_ℤ_refl winner.clock.last_updated in
    record {
      time = ground (arith, e);
      writer = λ same.
          let equal : eqb_ℤ version.clock.last_updated winner.clock.last_updated ≡ true =
            subst (λ t. eqb_ℤ t winner.clock.last_updated ≡ true) (sym same) same_time in
          ground (arith, e, equal);
    }

-- what a read resolved among `xs` promises
pub record Resolved (xs : List VersionedValue) (g : GetResolution) : Type 0 where
  -- the winner is a version that was given
  pub member : In g.winner xs
  -- no version given dominates it
  pub undominated : All (NotBelow g.winner) xs
  -- the conflict count is the number of versions that survive
  pub counted : g.concurrent_count ≡ length (compute_frontier xs)
  -- with no conflict the winner has seen every version
  pub sole : g.concurrent_count ≡ 1 → All (λ x. Le x.clock g.winner.clock) xs
  -- with a conflict it is the last writer among the survivors
  pub latest : All (NotLater g.winner) (compute_frontier xs)

-- Resolving one version or more always succeeds, when no clock holds a node twice: the winner is
-- one of them, none of them dominates it, it has seen them all unless there is a conflict, and
-- among the survivors of a conflict none is later, or as late with a greater writer.
pub resolve_get_result-Resolved :
    (v : VersionedValue) (vs : List VersionedValue)
    → All IsWell (v ∷ vs)
    → (g : GetResolution) × (resolve_get_result (v ∷ vs) ≡ some g) × Resolved (v ∷ vs) g
unfolding resolve_get_result
resolve_get_result-Resolved v vs u =
    let xs : List VersionedValue = v ∷ vs in
    let (s, kept, above) = compute_frontier_covers xs v u (inl refl) in
    let (w, picked, survived, latest) = pick-Best (compute_frontier xs) s kept in
    (
      record { winner = w; concurrent_count = length (compute_frontier xs) },
      rw (picked, resolve_get_result),
      record {
        member =
            All-In (λ q. In q xs) (compute_frontier xs) w (compute_frontier-Pairwise xs u).1
              survived;
        undominated =
            All-In (λ t. All (NotBelow t) xs) (compute_frontier xs) w
              (Survivors-NotBelow (compute_frontier-Survivors xs) u) survived;
        counted = refl;
        sole = λ one.
            All-of_In (λ x. Le x.clock w.clock) xs
              λ x j.
                let (t, t_kept, le) = compute_frontier_covers xs x u j in
                subst (λ q. Le x.clock q.clock)
                  (single_survivor (compute_frontier xs) t w one t_kept survived) le;
        latest =
            All-map (λ x. beats x w ≡ false) (NotLater w) (λ x e. NotLater-unbeaten w x e)
              (compute_frontier xs) latest;
      },
    )
