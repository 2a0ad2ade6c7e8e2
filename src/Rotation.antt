-- ===== src/Rotation.antt =====
-- Attempts that start anywhere in a list and wrap around once meet every position.
use driftstore.Prelude.{
  ℕ, zero, suc, ◌+◌, ◌-◌, ◌%◌, ◌<◌, ◌≡◌, ◌≢◌, none, List, [], ◌∷◌, some, get_elem?, length, In,
  arith, inl, inr, ap, sym, ◌∙◌, dec_le,
}
use native.Mathlib.Nat.{mod-eq_of_lt, add-mod_right}

pub rotation_covers :
    (first n j : ℕ) → first < n → j < n → (i : ℕ) × (i < n) × ((first + i) % n ≡ j)
rotation_covers first n j f h = elim (dec_le first j) [
  | yes le ↦
      let at : first + (j - first) ≡ j = omega arith in
      (j - first, omega arith, ap (λ x. x % n) at ∙ mod-eq_of_lt h)
  | no gt ↦
      let at : first + (j + n - first) ≡ j + n = omega arith in
      (j + n - first, omega arith, ap (λ x. x % n) at ∙ add-mod_right j n ∙ mod-eq_of_lt h)
]

-- the position of a member
pub position_of :
    {A : Type 0} (x : A) (xs : List A)
    → In x xs
    → (j : ℕ) × (j < length xs) × (get_elem? xs j ≡ some x)
position_of x [] m = elim m [ ]
position_of x (y ∷ xs) (inl same) = (0, omega arith, ap some (sym same))
position_of x (y ∷ xs) (inr m) = let (j, less, at) = position_of x xs m in (suc j, omega arith, at)

pub get_elem?_some : {A : Type 0} (xs : List A) (i : ℕ) → i < length xs → get_elem? xs i ≢ none
get_elem?_some [] i h e = omega arith
get_elem?_some (x ∷ xs) zero h e = ground (arith, e)
get_elem?_some (x ∷ xs) (suc i) h e = get_elem?_some xs i (omega arith) e
