-- ===== src/Assoc/Laws.antt =====
-- Lookups after writes, and the preservation of distinct keys.
use driftstore.Prelude.{
  ◌≡◌, refl, ◌+◌, [], ◌∷◌, none, some, ite, if_pos, if_neg, sym, arith, length, All,
}
use mathlib.Core.Path.{subst₂}
use driftstore.Text.{Text, text_dec}
use driftstore.Assoc.{Assoc, find, insert, erase, IsMap}

module _ {ℓ} {V : Type ℓ} where
  pub find-insert :
      (k j : Text) (v : V) (m : Assoc V)
      → find j (insert k v m) ≡ ite (text_dec k j) (some v) (find j m)
  unfolding find insert
  find-insert k j v [] = refl
  find-insert k j v ((i, w) ∷ m) = ground (arith, find-insert k j v m)

  pub insert-IsMap : (k : Text) (v : V) (m : Assoc V) → IsMap m → IsMap (insert k v m)
  unfolding find insert
  insert-IsMap k v [] h = (refl, tt)
  insert-IsMap k v ((i, w) ∷ m) h = ground (arith, insert-IsMap k v m h.1, find-insert k i v m)

  pub find-erase :
      (k j : Text) (m : Assoc V) → IsMap m → find j (erase k m) ≡ ite (text_dec k j) none (find j m)
  unfolding find erase
  find-erase k j [] h = ground arith
  find-erase k j ((i, w) ∷ m) h = ground (arith, find-erase k j m h.1)

  pub erase-IsMap : (k : Text) (m : Assoc V) → IsMap m → IsMap (erase k m)
  unfolding find erase
  erase-IsMap k [] h = tt
  erase-IsMap k ((i, w) ∷ m) h = ground (arith, erase-IsMap k m h.1, find-erase k i m h.1)

  pub length-erase :
      (k : Text) (m : Assoc V) (v : V) → find k m ≡ some v → length (erase k m) + 1 ≡ length m
  unfolding find erase
  length-erase k [] v h = ground arith
  length-erase k ((i, w) ∷ m) v h = ground (arith, length-erase k m v)

  -- each entry of a walk is what a lookup of its key gives
  abbrev pub Found : Assoc V → Assoc V → Type ℓ
  Found whole m = All (λ e. find e.0 whole ≡ some e.1) m

  Found-weaken :
      (k : Text) (v : V) (whole m : Assoc V)
      → find k whole ≡ none
      → Found whole m
      → Found ((k, v) ∷ whole) m
  unfolding find
  Found-weaken k v whole [] h f = tt
  Found-weaken k v whole ((j, w) ∷ m) h f = (ground arith, Found-weaken k v whole m h f.1)

  pub IsMap-Found : (m : Assoc V) → IsMap m → Found m m
  unfolding find
  IsMap-Found [] u = tt
  IsMap-Found ((k, v) ∷ m) u = (ground arith, Found-weaken k v m m u.0 (IsMap-Found m u.1))

  -- what holds of every entry holds of every lookup
  pub All-find {κ} :
      (P : Text → V → Type κ) (m : Assoc V)
      → All (λ e. P e.0 e.1) m
      → (n : Text) (v : V) → find n m ≡ some v
      → P n v
  unfolding find
  All-find P [] h n v e = cc
  All-find P ((k, w) ∷ m) h n v e = elim (text_dec k n) [
    | yes p ↦ let q : w ≡ v = ground arith in subst₂ P p q h.0
    | no p ↦ All-find P m h.1 n v (rw (if_neg _ p) at e)
  ]

  pub insert-All {κ} :
      (P : Text → V → Type κ) (k : Text) (v : V) (m : Assoc V)
      → P k v
      → ((j : Text) → k ≡ j → P k v → P j v)
      → All (λ e. P e.0 e.1) m
      → All (λ e. P e.0 e.1) (insert k v m)
  unfolding insert
  insert-All P k v [] p move h = (p, tt)
  insert-All P k v ((j, w) ∷ m) p move h = elim (text_dec j k) [
    | yes same ↦ rw (if_pos _ same) (move j (sym same) p, h.1)
    | no differ ↦ rw (if_neg _ differ) (h.0, insert-All P k v m p move h.1)
  ]
