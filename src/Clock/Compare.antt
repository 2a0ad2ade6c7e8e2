-- ===== src/Clock/Compare.antt =====
-- `compareVectorClocks` computes the pointwise order.
use driftstore.Prelude.{
  ℕ, ◌+◌, ◌≤◌, ◌<◌, ◌≡◌, refl, Bool, true, false, ◌&&◌, not, [], ◌∷◌, none, some, arith, ltb,
  length, All, if◌then◌else◌, Bool-cases, Option-cases, inl, inr,
}
use driftstore.Text.{Text}
use driftstore.Assoc.{Assoc, find, IsMap}
use driftstore.Assoc.Laws.{Found, IsMap-Found, All-find}
use driftstore.Assoc.Shared.{shared, shared_covers}
use driftstore.Clock.{
  VectorClock, ClockComparison, compare_finish, compare_shared, compare_rest, verdict,
  compare_vector_clocks, count,
}
use driftstore.Clock.Order.{Le, Ahead, Means, Means-unique}

abbrev Above : Assoc ℕ → Assoc ℕ → Type 0
Above a b = (n : Text) × (count b n < count a n)

-- a flag that is set has a reason
abbrev Justified : Assoc ℕ → Assoc ℕ → Bool → Bool → Type 0
Justified a b ag bg = (ag ≡ true → Above a b) × (bg ≡ true → Above b a)

module _ (a b : Assoc ℕ) where
  Justified-step :
      (n : Text) (v : ℕ) (ag bg : Bool)
      → find n a ≡ some v
      → Justified a b ag bg
      → Justified a b
          (if ltb (count b n) v then true else ag)
          (if ltb v (count b n) then true else bg)
  unfolding count
  Justified-step n v ag bg e j = (
    λ t. elim (Bool-cases (ltb (count b n) v)) [
      | inl ahead ↦ (n, ground (arith, e))
      | inr behind ↦ j.0 (rw behind at t)
    ],
    λ t. elim (Bool-cases (ltb v (count b n))) [
      | inl ahead ↦ (n, ground (arith, e))
      | inr behind ↦ j.1 (rw behind at t)
    ],
  )

  compare_shared-Justified :
      (rest : Assoc ℕ) (ag bg : Bool) (k : ℕ)
      → Found a rest
      → Justified a b ag bg
      → let r = compare_shared rest b ag bg k in Justified a b r.0 r.1
  unfolding compare_shared
  compare_shared-Justified [] ag bg k f j = j
  compare_shared-Justified ((n, v) ∷ rest) ag bg k f j =
      let j' = Justified-step n v ag bg f.0 j in
      let next = compare_shared-Justified rest _ _ _ f.1 j' in
      elim (Bool-cases
        ((if ltb (count b n) v then true else ag) && (if ltb v (count b n) then true else bg))) [
          | inl stop ↦ rw stop j'
          | inr go ↦ rw go next
        ]

  -- what a clear flag says of the entries walked
  abbrev Cleared : Assoc ℕ → Bool → Bool → Bool × Bool × ℕ → ℕ → Type 0
  Cleared rest ag bg r k =
      (r.0 && r.1) ≡ false
      → (r.0 ≡ false → (ag ≡ false) × All (λ e. e.1 ≤ count b e.0) rest)
        × (r.1 ≡ false → (bg ≡ false) × All (λ e. count b e.0 ≤ e.1) rest)
        × (r.2 ≡ k + shared rest b)

  compare_shared-Cleared :
      (rest : Assoc ℕ) (ag bg : Bool) (k : ℕ) → Cleared rest ag bg (compare_shared rest b ag bg k) k
  unfolding compare_shared shared
  compare_shared-Cleared [] ag bg k = λ _. (λ e. (e, tt), λ e. (e, tt), omega arith)
  compare_shared-Cleared ((n, v) ∷ rest) ag bg k =
      elim (Bool-cases
        ((if ltb (count b n) v then true else ag) && (if ltb v (count b n) then true else bg))) [
          | inl stop ↦ rw stop (λ e. absurd (ground arith))
          | inr go ↦ rw go λ e.
              let ih = compare_shared-Cleared rest _ _ _ e in
              (
                λ f. let h = ih.0 f in (ground (arith, h.0), (ground (arith, h.0), h.1)),
                λ f. let h = ih.1 f in (ground (arith, h.0), (ground (arith, h.0), h.1)),
                ground (arith, ih.2),
              )
        ]

  compare_rest-Above :
      (rest : Assoc ℕ) (bg : Bool)
      → Found b rest
      → (bg ≡ true → Above b a)
      → compare_rest a rest bg ≡ true
      → Above b a
  unfolding compare_rest count
  compare_rest-Above [] bg f j e = j e
  compare_rest-Above ((n, v) ∷ rest) bg f j e = elim (Option-cases (find n a)) [
    | inr (w, there) ↦ compare_rest-Above rest bg f.1 j (rw (there, compare_rest) at e)
    | inl gone ↦ elim (Bool-cases (ltb 0 v)) [
      | inl some_v ↦ (n, ground (arith, gone, f.0))
      | inr no_v ↦ compare_rest-Above rest bg f.1 j (rw (gone, compare_rest, no_v) at e)
    ]
  ]

  compare_rest-Cleared :
      (rest : Assoc ℕ) (bg : Bool)
      → compare_rest a rest bg ≡ false
      → (bg ≡ false) × All (λ e. find e.0 a ≡ none → e.1 ≡ 0) rest
  unfolding compare_rest
  compare_rest-Cleared [] bg e = (e, tt)
  compare_rest-Cleared ((n, v) ∷ rest) bg e = elim (Option-cases (find n a)) [
    | inr (w, there) ↦
        let ih = compare_rest-Cleared rest bg (rw (there, compare_rest) at e) in
        (ih.0, (λ gone. cc there, ih.1))
    | inl gone ↦ elim (Bool-cases (ltb 0 v)) [
      | inl some_v ↦ absurd (ground (arith, gone))
      | inr no_v ↦
          let ih = compare_rest-Cleared rest bg (rw (gone, compare_rest, no_v) at e) in
          (ih.0, (λ _. ground arith, ih.1))
    ]
  ]

  count_le_entries :
      (m : Assoc ℕ) → All (λ e. e.1 ≤ count b e.0) m → (n : Text) → count m n ≤ count b n
  unfolding count
  count_le_entries m h n = elim (Option-cases (find n m)) [
    | inl gone ↦ ground (arith, gone)
    | inr (v, e) ↦ rw (e, count) (All-find (λ k w. w ≤ count b k) m h n v e)
  ]

  count_ge_entries :
      All (λ e. count b e.0 ≤ e.1) a
      → ((n : Text) → find n a ≡ none → count b n ≡ 0)
      → (n : Text) → count b n ≤ count a n
  count_ge_entries h z n = elim (Option-cases (find n a)) [
    | inl gone ↦ omega (arith, z n gone)
    | inr (v, e) ↦ unfold count in rw (e, count) (All-find (λ k w. count b k ≤ w) a h n v e)
  ]

  rest-covers :
      All (λ e. find e.0 a ≡ none → e.1 ≡ 0) b → (n : Text) → find n a ≡ none → count b n ≡ 0
  rest-covers h n gone = elim (Option-cases (find n b)) [
    | inl e ↦ unfold count in rw (e, count)
    | inr (v, e) ↦
        unfold count in rw (e, count) (All-find (λ k w. find k a ≡ none → w ≡ 0) b h n v e gone)
  ]

absent-count :
    (a b : Assoc ℕ)
    → ((n : Text) → find n a ≡ none → find n b ≡ none)
    → (n : Text) → find n a ≡ none
    → count b n ≡ 0
unfolding count
absent-count a b h n gone = rw (h n gone, count)

verdict-Means :
    (a b : VectorClock) (ag bg : Bool)
    → (ag ≡ true → Ahead a b)
    → (ag ≡ false → Le a b)
    → (bg ≡ true → Ahead b a)
    → (bg ≡ false → Le b a)
    → Means a b (verdict ag bg)
unfolding verdict
verdict-Means a b true true p q r s = (p refl, r refl)
verdict-Means a b true false p q r s = (s refl, p refl)
verdict-Means a b false true p q r s = (q refl, r refl)
verdict-Means a b false false p q r s = (q refl, s refl)

module _ (a b : VectorClock) (ua : IsMap a.counters) (ub : IsMap b.counters) where
  compare_finish-Means :
      (ag bg : Bool) (k : ℕ)
      → Justified a.counters b.counters ag bg
      → Cleared a.counters b.counters a.counters false false (ag, bg, k) 0
      → Means a b (compare_finish a.counters b.counters (ag, bg, k))
  unfolding compare_finish
  compare_finish-Means ag bg k j c =
      verdict-Means a b ag _ j.0
        (λ e. count_le_entries a.counters b.counters a.counters ((c (rw e)).0 e).1)
        (elim (Bool-cases (ltb k (length b.counters) && not (ag && bg))) [
          | inl run ↦ rw run (
              compare_rest-Above a.counters b.counters b.counters bg (IsMap-Found b.counters ub)
                j.1)
          | inr skip ↦ rw skip j.1
        ])
        (elim (Bool-cases (ltb k (length b.counters) && not (ag && bg))) [
          | inl run ↦ rw run λ e.
              let rest = compare_rest-Cleared a.counters b.counters b.counters bg e in
              count_ge_entries a.counters b.counters ((c (ground (arith, rest.0))).1 rest.0).1
                (rest-covers a.counters b.counters rest.1)
          | inr skip ↦ rw skip λ e.
              let open_ : (ag && bg) ≡ false = ground arith in
              let (_, entries, counted) = c open_ in
              count_ge_entries a.counters b.counters (entries e).1 (
                absent-count a.counters b.counters
                  (shared_covers a.counters b.counters ua ub (ground (arith, counted))))
        ])

  -- The comparison answers by the pointwise order of two clocks whose maps hold no node twice:
  -- equal if they agree on every axis, dominates if the first is nowhere behind and somewhere
  -- ahead, dominated if the second is, and concurrent if each is somewhere ahead.
  pub compare_vector_clocks-Means : Means a b (compare_vector_clocks a b)
  unfolding compare_vector_clocks
  compare_vector_clocks-Means =
      compare_finish-Means _ _ _
        (compare_shared-Justified a.counters b.counters a.counters false false 0
          (IsMap-Found a.counters ua) (λ e. cc e, λ e. cc e))
        (compare_shared-Cleared a.counters b.counters a.counters false false 0)

  pub compare_vector_clocks_of_Means :
      {r : ClockComparison} → Means a b r → compare_vector_clocks a b ≡ r
  compare_vector_clocks_of_Means {r} h = Means-unique a b _ r compare_vector_clocks-Means h
