-- ===== src/Clock/Merge.antt =====
-- `mergeClocks` and `buildNewClock`: the union of two clocks, and a new clock above both.
use driftstore.Prelude.{
  ℕ, ◌+◌, max, ◌≡◌, refl, [], ◌∷◌, Option, none, some, arith, ltb, length, Bool-cases, Option-cases,
  inl, inr,
}
use driftstore.Text.{Text}
use driftstore.Assoc.{Assoc, find, insert, IsMap}
use driftstore.Assoc.Laws.{find-insert, insert-IsMap}
use driftstore.Assoc.Shared.{shared, shared_covers}
use driftstore.Clock.{VectorClock, merge_shared, merge_rest, merge_clocks, count}
use driftstore.Clock.Order.{Le, axis}

-- the entry of the union under one node
abbrev pub join : Option ℕ → Option ℕ → Option ℕ
join none y = y
join (some x) none = some x
join (some x) (some y) = some (max x y)

abbrev or_old : Option ℕ → Option ℕ → Option ℕ
or_old none old = old
or_old (some v) old = some v

abbrev after_shared : Option ℕ → Option ℕ → Option ℕ → Option ℕ
after_shared none y old = old
after_shared (some v) y old = join (some v) y

find-merge_shared :
    (rest b vc : Assoc ℕ) (k : ℕ) (n : Text)
    → IsMap rest
    → find n (merge_shared rest b vc k).0 ≡ after_shared (find n rest) (find n b) (find n vc)
unfolding merge_shared find
find-merge_shared [] b vc k n u = refl
find-merge_shared ((j, v) ∷ rest) b vc k n u = elim (Option-cases (find j b)) [
  | inl gone ↦
      rw (gone, merge_shared)
        (ground (arith, find-merge_shared rest b (insert j v vc) k n u.1, find-insert j n v vc))
  | inr (w, there) ↦
      rw (there, merge_shared)
        (ground (
          arith,
          find-merge_shared rest b (insert j (max v w) vc) (k + 1) n u.1,
          find-insert j n (max v w) vc,
        ))
]

merge_shared-shared :
    (rest b vc : Assoc ℕ) (k : ℕ) → (merge_shared rest b vc k).1 ≡ k + shared rest b
unfolding merge_shared shared
merge_shared-shared [] b vc k = omega arith
merge_shared-shared ((j, v) ∷ rest) b vc k = elim (Option-cases (find j b)) [
  | inl gone ↦
      rw (gone, merge_shared) (ground (arith, gone, merge_shared-shared rest b (insert j v vc) k))
  | inr (w, there) ↦
      rw (there, merge_shared)
        (ground (arith, there, merge_shared-shared rest b (insert j (max v w) vc) (k + 1)))
]

merge_shared-IsMap : (rest b vc : Assoc ℕ) (k : ℕ) → IsMap vc → IsMap (merge_shared rest b vc k).0
unfolding merge_shared
merge_shared-IsMap [] b vc k u = u
merge_shared-IsMap ((j, v) ∷ rest) b vc k u = elim (Option-cases (find j b)) [
  | inl gone ↦ rw (gone, merge_shared) (merge_shared-IsMap rest b _ k (insert-IsMap j v vc u))
  | inr (w, there) ↦
      rw (there, merge_shared) (merge_shared-IsMap rest b _ (k + 1) (insert-IsMap j _ vc u))
]

abbrev after_rest : Option ℕ → Option ℕ → Option ℕ → Option ℕ
after_rest (some v) y old = old
after_rest none y old = or_old y old

find-merge_rest :
    (a rest vc : Assoc ℕ) (n : Text)
    → IsMap rest
    → find n (merge_rest a rest vc) ≡ after_rest (find n a) (find n rest) (find n vc)
unfolding merge_rest find
find-merge_rest a [] vc n u = ground arith
find-merge_rest a ((j, v) ∷ rest) vc n u = elim (Option-cases (find j a)) [
  | inl gone ↦
      rw (gone, merge_rest)
        (ground (arith, find-merge_rest a rest (insert j v vc) n u.1, find-insert j n v vc))
  | inr (w, there) ↦ rw (there, merge_rest) (ground (arith, there, find-merge_rest a rest vc n u.1))
]

merge_rest-IsMap : (a rest vc : Assoc ℕ) → IsMap vc → IsMap (merge_rest a rest vc)
unfolding merge_rest
merge_rest-IsMap a [] vc u = u
merge_rest-IsMap a ((j, v) ∷ rest) vc u = elim (Option-cases (find j a)) [
  | inl gone ↦ rw (gone, merge_rest) (merge_rest-IsMap a rest _ (insert-IsMap j v vc u))
  | inr (w, there) ↦ rw (there, merge_rest) (merge_rest-IsMap a rest vc u)
]

module _ (a b : VectorClock) where
  pub merge_clocks-IsMap : IsMap (merge_clocks a b).counters
  unfolding merge_clocks
  merge_clocks-IsMap =
      let s = merge_shared-IsMap a.counters b.counters [] 0 tt in
      elim (Bool-cases (ltb (merge_shared a.counters b.counters [] 0).1 (length b.counters))) [
        | inl more ↦ rw more (merge_rest-IsMap a.counters b.counters _ s)
        | inr done ↦ rw done s
      ]

  module _ (ua : IsMap a.counters) (ub : IsMap b.counters) where
    pub find-merge_clocks :
        (n : Text)
        → find n (merge_clocks a b).counters ≡ join (find n a.counters) (find n b.counters)
    unfolding merge_clocks find
    find-merge_clocks n =
        let s = find-merge_shared a.counters b.counters [] 0 n ua in
        elim (Bool-cases (ltb (merge_shared a.counters b.counters [] 0).1 (length b.counters))) [
          | inl more ↦ rw (more, find-merge_rest a.counters b.counters _ n ub, s) (ground arith)
          | inr done ↦
              let covered =
                shared_covers a.counters b.counters ua ub
                  (ground (arith, merge_shared-shared a.counters b.counters [] 0)) n in
              rw (done, s) (ground (arith, covered))
        ]

    pub axis-merge_clocks : (n : Text) → axis (merge_clocks a b) n ≡ max (axis a n) (axis b n)
    unfolding count
    axis-merge_clocks n = ground (arith, find-merge_clocks n)

    -- The merge of two clocks that hold no node twice is their least upper bound: it has seen
    -- what both have, and every clock that has seen what both have has seen what the merge has;
    -- its map holds no node twice.
    pub merge_clocks_least :
        IsMap (merge_clocks a b).counters
        × Le a (merge_clocks a b)
        × Le b (merge_clocks a b)
        × ((c : VectorClock) → Le a c → Le b c → Le (merge_clocks a b) c)
    merge_clocks_least = (
      merge_clocks-IsMap,
      λ n. omega (arith, axis-merge_clocks n),
      λ n. omega (arith, axis-merge_clocks n),
      λ c p q n. omega (arith, axis-merge_clocks n, p n, q n),
    )
