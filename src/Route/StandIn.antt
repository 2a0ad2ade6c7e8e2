-- ===== src/Route/StandIn.antt =====
-- src/node_kv.cpp, lines 338-342: which node may stand in for another, and the first of a list.
use driftstore.Prelude.{
  ◌≢◌, ◌⊎◌, ite, if_pos, if_neg, ◌≡◌, Bool, true, false, List, [], ◌∷◌, Option, none, some, arith,
  keep_if, In, Bool-cases, inl, inr, sym, ◌∙◌,
}
use driftstore.Text.{Text, text_dec}
use driftstore.Ring.{contains}
use driftstore.Node.{Node}
use driftstore.Route.{is_reachable, differs, may_substitute}

abbrev pub first_of : List Text → Option Text
first_of [] = none
first_of (x ∷ xs) = some x

contains-In : (x : Text) (ys : List Text) → contains x ys ≡ true → In x ys
unfolding contains
contains-In x [] e = absurd (ground arith)
contains-In x (y ∷ ys) e = elim (text_dec y x) [
  | yes same ↦ inl (sym same)
  | no differ ↦ inr (contains-In x ys (rw (if_neg _ differ) at e))
]

In-contains : (x : Text) (ys : List Text) → In x ys → contains x ys ≡ true
unfolding contains
In-contains x [] m = elim m [ ]
In-contains x (y ∷ ys) (inl same) = if_pos (text_dec y x) (sym same) _ _
In-contains x (y ∷ ys) (inr m) = elim (text_dec y x) [
  | yes same ↦ if_pos (text_dec y x) same _ _
  | no differ ↦ if_neg (text_dec y x) differ _ _ ∙ In-contains x ys m
]

not_contained : (x : Text) (ys : List Text) → contains x ys ≡ false → In x ys → ⊥
not_contained x ys e m = let e' = In-contains x ys m in absurd (let x : ⊥ = cc in x)

module _ (true_owner : Text) (excluded : List Text) (s : Node) where
  -- A node that may stand in for the owner: it is another one, not excluded and not marked.
  pub record StandsIn (n : Text) : Type 0 where
    pub another : n ≢ true_owner
    pub admitted : In n excluded → ⊥
    pub unmarked : In n s.unreachable_peers → ⊥

  -- and why a node may not
  abbrev pub Unfit : Text → Type 0
  Unfit n = (n ≡ true_owner) ⊎ (In n excluded ⊎ In n s.unreachable_peers)

  pub may_substitute-StandsIn :
      (n : Text) → may_substitute true_owner excluded s n ≡ true → StandsIn n
  unfolding may_substitute is_reachable differs
  may_substitute-StandsIn n e = record {
    another = λ same.
        let no_one : ite (text_dec n true_owner) false true ≡ false =
          if_pos (text_dec n true_owner) same _ _ in
        absurd (ground (arith, e, no_one));
    admitted = not_contained n excluded (ground (arith, e));
    unmarked = not_contained n s.unreachable_peers (ground (arith, e));
  }

  pub may_substitute-Unfit : (n : Text) → may_substitute true_owner excluded s n ≡ false → Unfit n
  unfolding may_substitute is_reachable differs
  may_substitute-Unfit n e = elim (text_dec n true_owner) [
    | yes same ↦ inl same
    | no differ ↦ elim (Bool-cases (contains n excluded)) [
      | inl out ↦ inr (inl (contains-In n excluded out))
      | inr allowed ↦ elim (Bool-cases (contains n s.unreachable_peers)) [
        | inl marked ↦ inr (inr (contains-In n s.unreachable_peers marked))
        | inr free ↦
            let one : ite (text_dec n true_owner) false true ≡ true =
              if_neg (text_dec n true_owner) differ _ _ in
            absurd (ground (arith, e, one, allowed, free))
      ]
    ]
  ]

-- The first of a list that meets `P`, behind some that meet `Q`; or all meet `Q`.
pub data FirstOf (P Q : Text → Type 0) : List Text → Option Text → Type 0 where
  nobody : FirstOf P Q [] none
  here : (x : Text) (xs : List Text) → P x → FirstOf P Q (x ∷ xs) (some x)
  later :
      (x : Text) (xs : List Text) (o : Option Text)
      → Q x
      → FirstOf P Q xs o
      → FirstOf P Q (x ∷ xs) o

pub first_of-keep_if-FirstOf :
    {P Q : Text → Type 0} (p : Text → Bool)
    → ((x : Text) → p x ≡ true → P x)
    → ((x : Text) → p x ≡ false → Q x)
    → (xs : List Text) → FirstOf P Q xs (first_of (keep_if p xs))
first_of-keep_if-FirstOf p good bad [] = nobody
first_of-keep_if-FirstOf p good bad (x ∷ xs) = elim (Bool-cases (p x)) [
  | inl y ↦ rw y (here x xs (good x y))
  | inr n ↦ rw n (later x xs _ (bad x n) (first_of-keep_if-FirstOf p good bad xs))
]
