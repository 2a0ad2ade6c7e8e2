-- ===== src/Get/Overlap.antt =====
-- Two sets of nodes among N that have more than N members together share one.
use driftstore.Prelude.{
  ◌+◌, ◌≤◌, ◌<◌, ◌≡◌, ◌≢◌, refl, List, [], ◌∷◌, ◌++◌, ite, if_pos, if_neg, arith, All, All-append,
  In, Pairwise, length, length-append, ◌⊎◌, inl, inr, sym, ◌∙◌,
}
use driftstore.Text.{Text, text_dec}

-- a list without the first occurrence of a text
unfoldable without : Text → List Text → List Text
without x [] = []
without x (y ∷ ys) = ite (text_dec y x) ys (y ∷ without x ys)

length-without : (x : Text) (ys : List Text) → In x ys → length (without x ys) + 1 ≡ length ys
unfolding without
length-without x [] m = elim m [ ]
length-without x (y ∷ ys) (inl same) = rw (if_pos _ (sym same)) (omega arith)
length-without x (y ∷ ys) (inr m) = elim (text_dec y x) [
  | yes same ↦ rw (if_pos _ same) (omega arith)
  | no differ ↦ rw (if_neg _ differ) (omega (arith, length-without x ys m))
]

In-without : (x z : Text) (ys : List Text) → In z ys → x ≢ z → In z (without x ys)
unfolding without
In-without x z [] m ne = elim m [ ]
In-without x z (y ∷ ys) (inl at) ne =
    rw (if_neg _ (λ same. absurd (ne (sym same ∙ sym at)))) (inl at)
In-without x z (y ∷ ys) (inr m) ne = elim (text_dec y x) [
  | yes same ↦ rw (if_pos _ same) m
  | no differ ↦ rw (if_neg _ differ) (inr (In-without x z ys m ne))
]

-- distinct members of a list are no more than it has
length-distinct_le :
    (xs ns : List Text) → Pairwise ◌≢◌ xs → All (λ x. In x ns) xs → length xs ≤ length ns
length-distinct_le [] ns d a = omega arith
length-distinct_le (x ∷ xs) ns d a =
    let among : All (λ z. In z (without x ns)) xs = rest xs d.0 a.1 in
    omega (arith, length-distinct_le xs (without x ns) d.1 among, length-without x ns a.0)
  where
    rest :
        (zs : List Text)
        → All (λ z. x ≢ z) zs
        → All (λ z. In z ns) zs
        → All (λ z. In z (without x ns)) zs
    rest [] p q = tt
    rest (z ∷ zs) p q = (In-without x z ns q.0 p.0, rest zs p.1 q.1)

-- a text is in a list, or differs from all its members
In-cases : (x : Text) (ys : List Text) → In x ys ⊎ All (λ y. x ≢ y) ys
In-cases x [] = inr tt
In-cases x (y ∷ ys) = elim (text_dec x y) [
  | yes same ↦ inl (inl same)
  | no differ ↦ elim (In-cases x ys) [ inl m ↦ inl (inr m) | inr a ↦ inr (differ, a) ]
]

In-common :
    (xs ys : List Text) → ((x : Text) × In x xs × In x ys) ⊎ All (λ x. All (λ y. x ≢ y) ys) xs
In-common [] ys = inr tt
In-common (x ∷ xs) ys = elim (In-cases x ys) [
  | inl m ↦ inl (x, inl refl, m)
  | inr a ↦ elim (In-common xs ys) [ inl (z, p, q) ↦ inl (z, inr p, q) | inr b ↦ inr (a, b) ]
]

Pairwise-append_apart :
    (xs ys : List Text)
    → Pairwise ◌≢◌ xs
    → Pairwise ◌≢◌ ys
    → All (λ x. All (λ y. x ≢ y) ys) xs
    → Pairwise ◌≢◌ (xs ++ ys)
Pairwise-append_apart [] ys p q a = q
Pairwise-append_apart (x ∷ xs) ys p q a =
    (All-append (λ y. x ≢ y) xs ys p.0 a.0, Pairwise-append_apart xs ys p.1 q a.1)

pub In-overlap :
    (xs ys ns : List Text)
    → Pairwise ◌≢◌ xs
    → Pairwise ◌≢◌ ys
    → All (λ x. In x ns) xs
    → All (λ y. In y ns) ys
    → length ns < length xs + length ys
    → (x : Text) × In x xs × In x ys
In-overlap xs ys ns p q a b more = elim (In-common xs ys) [
  | inl shared ↦ shared
  | inr apart ↦
      let fits =
        length-distinct_le (xs ++ ys) ns (Pairwise-append_apart xs ys p q apart)
          (All-append (λ x. In x ns) xs ys a b) in
      absurd (omega (arith, fits, length-append xs ys))
]
