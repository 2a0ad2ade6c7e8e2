-- ===== src/Status/Sort.antt =====
-- The sort of the dumps: what it holds, its order, and that the order leaves one such list.
use driftstore.Prelude.{
  ◌≡◌, refl, true, false, List, [], ◌∷◌, All, All-In, All-map, All-of_In, In, Pairwise, Bool-cases,
  inl, inr, sym, ap₂, subst,
}
use driftstore.Text.{Text, text_lt, text_lt_irrefl, text_lt_trans, text_lt_total}
use driftstore.Status.{insert_text, sort_texts}

abbrev pub Below : Text → Text → Type 0
Below t u = text_lt t u ≡ true

-- what is in the list after an insertion
In-insert_text : (x t : Text) (us : List Text) → In x (t ∷ us) → In x (insert_text t us)
unfolding insert_text
In-insert_text x t [] m = m
In-insert_text x t (u ∷ us) m = elim (Bool-cases (text_lt t u)) [
  | inl first ↦ rw first m
  | inr later ↦ rw later (elim m [
    | inl same ↦ inr (In-insert_text x t us (inl same))
    | inr rest ↦ elim rest [
      | inl same ↦ inl same
      | inr deep ↦ inr (In-insert_text x t us (inr deep))
    ]
  ])
]

insert_text-In : (x t : Text) (us : List Text) → In x (insert_text t us) → In x (t ∷ us)
unfolding insert_text
insert_text-In x t [] m = m
insert_text-In x t (u ∷ us) m = elim (Bool-cases (text_lt t u)) [
  | inl first ↦ rw first at m
  | inr later ↦ elim (rw later at m) [
    | inl same ↦ inr (inl same)
    | inr rest ↦ elim (insert_text-In x t us rest) [
      | inl same ↦ inl same
      | inr deep ↦ inr (inr deep)
    ]
  ]
]

pub In-sort_texts : (x : Text) (ts : List Text) → In x ts → In x (sort_texts ts)
unfolding sort_texts
In-sort_texts x [] m = m
In-sort_texts x (t ∷ ts) (inl same) = In-insert_text x t (sort_texts ts) (inl same)
In-sort_texts x (t ∷ ts) (inr m) = In-insert_text x t (sort_texts ts) (inr (In-sort_texts x ts m))

pub sort_texts-In : (x : Text) (ts : List Text) → In x (sort_texts ts) → In x ts
unfolding sort_texts
sort_texts-In x [] m = m
sort_texts-In x (t ∷ ts) m = elim (insert_text-In x t (sort_texts ts) m) [
  | inl same ↦ inl same
  | inr rest ↦ inr (sort_texts-In x ts rest)
]

-- a text that is not in a list in order goes to its place
insert_text-Pairwise :
    (t : Text) (us : List Text)
    → (In t us → ⊥)
    → Pairwise Below us
    → Pairwise Below (insert_text t us)
unfolding insert_text
insert_text-Pairwise t [] new h = (tt, tt)
insert_text-Pairwise t (u ∷ us) new h = elim (Bool-cases (text_lt t u)) [
  | inl first ↦
      rw first ((first, All-map (Below u) (Below t) (λ y b. text_lt_trans t u y first b) us h.0), h)
  | inr later ↦ rw later (
    All-of_In (Below u) (insert_text t us)
        (λ x m. below t u us new later h.0 x (insert_text-In x t us m)),
    insert_text-Pairwise t us (λ m. new (inr m)) h.1,
  )
]
  where
    below :
        (t u : Text) (us : List Text)
        → (In t (u ∷ us) → ⊥)
        → text_lt t u ≡ false
        → All (Below u) us
        → (x : Text) → In x (t ∷ us)
        → Below u x
    below t u us new later h x (inl same) = elim (Bool-cases (text_lt u t)) [
      | inl b ↦ subst (Below u) (sym same) b
      | inr a ↦ absurd (new (inl (text_lt_total t u later a)))
    ]
    below t u us new later h x (inr m) = All-In (Below u) us x h m

-- no text twice
abbrev pub AllNew : List Text → Type 0
AllNew [] = Unit
AllNew (t ∷ ts) = (In t ts → ⊥) × AllNew ts

pub sort_texts-Pairwise : (ts : List Text) → AllNew ts → Pairwise Below (sort_texts ts)
unfolding sort_texts
sort_texts-Pairwise [] h = tt
sort_texts-Pairwise (t ∷ ts) h =
    insert_text-Pairwise t (sort_texts ts) (λ m. h.0 (sort_texts-In t ts m))
      (sort_texts-Pairwise ts h.1)

-- the rest of a list in order does not hold its front
rest_only :
    (t : Text) (ts us : List Text)
    → All (Below t) ts
    → ((x : Text) → In x (t ∷ ts) → In x (t ∷ us))
    → (x : Text) → In x ts
    → In x us
rest_only t ts us h into x m = elim (into x (inr m)) [
  | inr there ↦ there
  | inl same ↦
      let less : text_lt t t ≡ true = subst (Below t) same (All-In (Below t) ts x h m) in
      absurd (cc (less, text_lt_irrefl t))
]

heads_meet :
    (t u : Text) (ts us : List Text)
    → All (Below t) ts
    → All (Below u) us
    → In t (u ∷ us)
    → In u (t ∷ ts)
    → t ≡ u
heads_meet t u ts us a b (inl same) n = same
heads_meet t u ts us a b (inr m) (inl same) = sym same
heads_meet t u ts us a b (inr m) (inr n) =
    let less = text_lt_trans t u t (All-In (Below t) ts u a n) (All-In (Below u) us t b m) in
    absurd (cc (less, text_lt_irrefl t))

-- Two lists in order that hold the same texts are the same.
pub Pairwise-unique :
    (ts us : List Text)
    → Pairwise Below ts
    → Pairwise Below us
    → ((x : Text) → In x ts → In x us)
    → ((x : Text) → In x us → In x ts)
    → ts ≡ us
Pairwise-unique [] [] a b f g = refl
Pairwise-unique [] (u ∷ us) a b f g = elim (g u (inl refl)) [ ]
Pairwise-unique (t ∷ ts) [] a b f g = elim (f t (inl refl)) [ ]
Pairwise-unique (t ∷ ts) (u ∷ us) a b f g =
    let same = heads_meet t u ts us a.0 b.0 (f t (inl refl)) (g u (inl refl)) in
    ap₂ ◌∷◌ same (
      Pairwise-unique ts us a.1 b.1
        (rest_only t ts us a.0 (λ x m. subst (λ y. In x (y ∷ us)) (sym same) (f x m)))
        (rest_only u us ts b.0 (λ x m. subst (λ y. In x (y ∷ ts)) same (g x m))))
