-- ===== src/Assoc/Shared.antt =====
-- When two maps have at least as many keys in common as the second has keys, the second has no
-- other key: what the two-pass walks over a pair of clocks rely on when they skip the second pass.
use driftstore.Prelude.{
  ◌≡◌, refl, ℕ, ◌+◌, ◌≤◌, [], ◌∷◌, Option, none, some, arith, length, Option-cases, inl, inr,
}
use driftstore.Text.{Text}
use driftstore.Assoc.{Assoc, find, erase, IsMap}
use driftstore.Assoc.Laws.{find-erase, erase-IsMap, length-erase}

module _ {ℓ} {V : Type ℓ} where
  abbrev one_if_some : Option V → ℕ
  one_if_some none = 0
  one_if_some (some v) = 1

  -- how many entries of the first map have their key in the second
  unfoldable pub shared : Assoc V → Assoc V → ℕ
  shared [] b = 0
  shared ((k, v) ∷ a) b = one_if_some (find k b) + shared a b

  shared-erase :
      (a b : Assoc V) (k : Text) → IsMap b → find k a ≡ none → shared a (erase k b) ≡ shared a b
  unfolding shared find
  shared-erase [] b k u h = refl
  shared-erase ((j, v) ∷ a) b k u h = ground (arith, shared-erase a b k u, find-erase k j b u)

  pub shared_covers :
      (a b : Assoc V)
      → IsMap a
      → IsMap b
      → length b ≤ shared a b
      → (n : Text) → find n a ≡ none
      → find n b ≡ none
  unfolding shared find
  shared_covers [] [] ua ub h n e = refl
  shared_covers [] (x ∷ b) ua ub h n e = absurd (omega arith)
  shared_covers ((k, v) ∷ a) b ua ub h n e = elim (Option-cases (find k b)) [
    | inl none_b ↦ shared_covers a b ua.1 ub (ground (arith, none_b)) n (ground arith)
    | inr (w, some_b) ↦ ground (
      arith,
      find-erase k n b ub,
      shared_covers a (erase k b) ua.1 (erase-IsMap k b ub)
          (ground (arith, some_b, length-erase k b w some_b, shared-erase a b k ub ua.0)) n
          (ground arith),
    )
  ]
