-- ===== src/Resolve/Cover.antt =====
-- Every version is below one that `computeFrontier` keeps.
use driftstore.Prelude.{
  ◌≡◌, refl, List, [], ◌∷◌, ◌++◌, arith, All, All-append_left, All-append_right, All-In, All-of_In,
  In, inl, inr, sym, subst, ap,
}
use mathlib.Core.List.{append-nil, append_assoc}
use driftstore.Clock.{
  ClockComparison-discrete, compare_vector_clocks, ClockComparison, equal, dominated,
}
use driftstore.Clock.Compare.{compare_vector_clocks-Means, compare_vector_clocks_of_Means}
use driftstore.Clock.Order.{Le, Means, Le_refl, Le_trans, Ahead-not-Le}
use driftstore.Resolve.{VersionedValue, compute_frontier}
use driftstore.Resolve.Split.{
  NotBelow, Differs, Stands, Survivors, keep, drop, compute_frontier-Survivors,
}
use driftstore.Resolve.Frontier.{IsWell}

abbrev pub Below : VersionedValue → VersionedValue → Type 0
Below a b = Le a.clock b.clock

-- An entry that stands is kept.
In-of_Stands :
    (pre : List VersionedValue) {before : List VersionedValue} (post : List VersionedValue)
    {out : List VersionedValue} (e : VersionedValue)
    → Survivors before (pre ++ e ∷ post) out
    → Stands (before ++ pre) e post
    → In e out
In-of_Stands [] post e (keep s f) st = inl refl
In-of_Stands [] {before} post e (drop s f) st =
    absurd (s (subst (λ b. Stands b e post) (append-nil before) st))
In-of_Stands (p ∷ pre) {before} post e (keep s f) st = inr (
    In-of_Stands pre post e f
      (subst (λ b. Stands b e post) (sym (append_assoc before (p ∷ []) pre)) st))
In-of_Stands (p ∷ pre) {before} post e (drop s f) st =
    In-of_Stands pre post e f
      (subst (λ b. Stands b e post) (sym (append_assoc before (p ∷ []) pre)) st)

pub Means-of :
    (a b : VersionedValue)
    → IsWell a
    → IsWell b
    → (r : ClockComparison) → compare_vector_clocks a.clock b.clock ≡ r
    → Means a.clock b.clock r
Means-of a b ua ub r e =
    subst (Means a.clock b.clock) e (compare_vector_clocks-Means a.clock b.clock ua ub)

pub equal_self : (a : VersionedValue) → IsWell a → compare_vector_clocks a.clock a.clock ≡ equal
equal_self a u =
    compare_vector_clocks_of_Means a.clock a.clock u u {r = equal}
      (Le_refl a.clock, Le_refl a.clock)

-- what is below something dominated is dominated
Below-trans :
    (a b c : VersionedValue)
    → IsWell a
    → IsWell c
    → Below a b
    → Means b.clock c.clock dominated
    → compare_vector_clocks a.clock c.clock ≡ dominated
Below-trans a b c ua uc h (p, (n, q)) =
    compare_vector_clocks_of_Means a.clock c.clock ua uc {r = dominated}
      (Le_trans a.clock b.clock c.clock h p, (n, omega (arith, h n)))

pub NotBelow-of_le : (a b : VersionedValue) → IsWell a → IsWell b → Below b a → NotBelow a b
NotBelow-of_le a b ua ub h e = Ahead-not-Le b.clock a.clock (Means-of a b ua ub dominated e).1 h

-- Above each version of a list, a version of the list that is below none.
climb :
    (m : VersionedValue) (ys : List VersionedValue)
    → All IsWell (m ∷ ys)
    → (t : VersionedValue) × In t (m ∷ ys) × Below m t × All (NotBelow t) (m ∷ ys)
climb m [] u = (m, inl refl, Le_refl m.clock, (NotBelow-of_le m m u.0 u.0 (Le_refl m.clock), tt))
climb m (y ∷ ys) u =
    elim (ClockComparison-discrete (compare_vector_clocks m.clock y.clock) dominated) [
      | yes up ↦
          let (t, member, le, free) = climb y ys u.1 in
          let m_le_y = (Means-of m y u.0 u.1.0 dominated up).0 in
          let m_le_t = Le_trans m.clock y.clock t.clock m_le_y le in
          let ut = All-In IsWell (y ∷ ys) t u.1 member in
          (t, inr member, m_le_t, (NotBelow-of_le t m ut u.0 m_le_t, free))
      | no level ↦
          let (t, member, le, free) = climb m ys (u.0, u.1.1) in
          let ut = All-In IsWell (m ∷ ys) t (u.0, u.1.1) member in
          (
            t,
            elim member [ inl e ↦ inl e | inr there ↦ inr (inr there) ],
            le,
            (
              free.0,
              (
                λ e. level (Below-trans m t y u.0 u.1.0 le (Means-of t y ut u.1.0 dominated e)),
                free.1,
              ),
            ),
          )
    ]

-- The first version of a list whose clock equals that of `m`.
first_equal :
    (m : VersionedValue) (ys : List VersionedValue)
    → In m ys
    → IsWell m
    → (pre : List VersionedValue) × (e : VersionedValue) × (post : List VersionedValue) × (ys
        ≡ pre ++ e ∷ post)
      × (compare_vector_clocks e.clock m.clock ≡ equal)
      × All (λ r. Differs r m) pre
first_equal m [] i u = elim i [ ]
first_equal m (y ∷ ys) i u =
    elim (ClockComparison-discrete (compare_vector_clocks y.clock m.clock) equal) [
      | yes same ↦ ([], y, ys, refl, same, tt)
      | no differ ↦
          let (pre, e, post, at, same, first) = first_equal m ys (later i differ) u in
          (y ∷ pre, e, post, ap (◌∷◌ y) at, same, (differ, first))
    ]
  where
    later : In m (y ∷ ys) → Differs y m → In m ys
    later (inl e) differ = absurd (differ (rw e (equal_self y (rw (← e) u))))
    later (inr there) differ = there

module _ (e m r : VersionedValue) (ue : IsWell e) (um : IsWell m) (ur : IsWell r) where
  same-NotBelow : compare_vector_clocks e.clock m.clock ≡ equal → NotBelow m r → NotBelow e r
  same-NotBelow same free below = free (
      Below-trans m e r um ur (Means-of e m ue um equal same).1
        (Means-of e r ue ur dominated below))

  same-Differs : compare_vector_clocks e.clock m.clock ≡ equal → Differs r m → Differs e r
  same-Differs same differ equal_r =
      let (p, q) = Means-of e m ue um equal same in
      let (s, t) = Means-of e r ue ur equal equal_r in
      differ (
        compare_vector_clocks_of_Means r.clock m.clock ur um {r = equal}
          (Le_trans r.clock e.clock m.clock t p, Le_trans m.clock e.clock r.clock q s))

-- Where no clock holds a node twice, every version given is below a version that
-- `computeFrontier` keeps: no write that a replica reported is forgotten, unless a kept version
-- has seen it.
pub compute_frontier_covers :
    (xs : List VersionedValue) (x : VersionedValue)
    → All IsWell xs
    → In x xs
    → (s : VersionedValue) × In s (compute_frontier xs) × Le x.clock s.clock
compute_frontier_covers xs x u i =
    let (m, member, le, free) = climb x xs (All-In IsWell xs x u i, u) in
    let um = All-In IsWell (x ∷ xs) m (All-In IsWell xs x u i, u) member in
    let (pre, e, post, at, same, first) = first_equal m xs (member_of_cons member i) um in
    let wells = subst (All IsWell) at u in
    let ue = (All-append_right IsWell pre (e ∷ post) wells).0 in
    let frees = subst (All (NotBelow m)) at free.1 in
    let stands : Stands pre e post = (
      All-of_In (λ r. NotBelow e r × Differs e r) pre
          λ r j.
            let ur = All-In IsWell pre r (All-append_left IsWell pre (e ∷ post) wells) j in
            (
              same-NotBelow e m r ue um ur same
                  (All-In (NotBelow m) pre r (All-append_left (NotBelow m) pre (e ∷ post) frees) j),
              same-Differs e m r ue um ur same (All-In (λ q. Differs q m) pre r first j),
            ),
      All-of_In (NotBelow e) post λ r j.
          same-NotBelow e m r ue um
            (All-In IsWell post r (All-append_right IsWell pre (e ∷ post) wells).1 j) same
            (All-In (NotBelow m) post r (All-append_right (NotBelow m) pre (e ∷ post) frees).1 j),
    ) in
    (
      e,
      In-of_Stands pre post e
          (subst (λ l. Survivors [] l (compute_frontier xs)) at (compute_frontier-Survivors xs))
          stands,
      Le_trans x.clock m.clock e.clock le (Means-of e m ue um equal same).1,
    )
  where
    member_of_cons : {m : VersionedValue} → In m (x ∷ xs) → In x xs → In m xs
    member_of_cons (inl e) j = subst (λ q. In q xs) (sym e) j
    member_of_cons (inr j') j = j'
