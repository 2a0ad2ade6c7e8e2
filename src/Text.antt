-- ===== src/Text.antt =====
-- `std::string`: its bytes, its equality, and `<` by `char_traits<char>::compare`, which compares
-- bytes as unsigned numbers.
use driftstore.Prelude.{
  ℕ, ◌≡◌, ◌≢◌, refl, ap₂, Bool, true, false, List, [], ◌∷◌, Option, none, some, arith, ltb, ◌==◌,
  if◌then◌else◌, ℕ_discrete,
}
use Prim.Native.Char.{code}
use Prim.Native.String.{String}

abbrev pub Text : Type 0
Text = List ℕ

-- a literal: its code points, which are its bytes
abbrev pub codes : String → Text
codes String.[] = []
codes (String.◌∷◌ c s) = code c ∷ codes s

-- what `%s` prints: the bytes up to the first zero
unfoldable pub c_str : Text → Text
c_str [] = []
c_str (c ∷ cs) = if c == 0 then [] else c ∷ c_str cs

-- `substr(prefix.size())` where `rfind(prefix, 0) == 0`
unfoldable pub strip_prefix : Text → Text → Option Text
strip_prefix [] t = some t
strip_prefix (p ∷ ps) [] = none
strip_prefix (p ∷ ps) (c ∷ cs) = let rest = strip_prefix ps cs in if p == c then rest else none

pub cons-ne_head : (x y : ℕ) (a b : Text) → x ≢ y → x ∷ a ≢ y ∷ b
cons-ne_head x y a b h e = ground arith

pub cons-ne_tail : (x y : ℕ) (a b : Text) → a ≢ b → x ∷ a ≢ y ∷ b
cons-ne_tail x y a b h e = ground arith

-- `a == b`
unfoldable pub text_dec : Discrete Text
unfolding ℕ_discrete
text_dec [] [] = yes refl
text_dec [] (y ∷ b) = no (λ e. cc e)
text_dec (x ∷ a) [] = no (λ e. cc e)
text_dec (x ∷ a) (y ∷ b) = elim (ℕ_discrete x y) [
  | no p ↦ no (cons-ne_head x y a b p)
  | yes p ↦ elim (text_dec a b) [ no q ↦ no (cons-ne_tail x y a b q) | yes q ↦ yes (ap₂ ◌∷◌ p q) ]
]

-- `a < b`
unfoldable pub text_lt : Text → Text → Bool
text_lt a [] = false
text_lt [] (d ∷ b) = true
text_lt (c ∷ a) (d ∷ b) = if ltb c d then true else if ltb d c then false else text_lt a b

pub text_lt_irrefl : (a : Text) → text_lt a a ≡ false
unfolding text_lt
text_lt_irrefl [] = refl
text_lt_irrefl (c ∷ a) = ground (arith, text_lt_irrefl a)

pub text_lt_trans : (a b c : Text) → text_lt a b ≡ true → text_lt b c ≡ true → text_lt a c ≡ true
unfolding text_lt
text_lt_trans a [] c p q = ground arith
text_lt_trans a (y ∷ b) [] p q = ground arith
text_lt_trans [] (y ∷ b) (z ∷ c) p q = refl
text_lt_trans (x ∷ a) (y ∷ b) (z ∷ c) p q = ground (arith, text_lt_trans a b c)

pub text_lt_total : (a b : Text) → text_lt a b ≡ false → text_lt b a ≡ false → a ≡ b
unfolding text_lt
text_lt_total [] [] p q = refl
text_lt_total [] (y ∷ b) p q = ground arith
text_lt_total (x ∷ a) [] p q = ground arith
text_lt_total (x ∷ a) (y ∷ b) p q = ground (arith, text_lt_total a b)

pub text_lt_cotrans :
    (a b c : Text) → text_lt a b ≡ false → text_lt b c ≡ false → text_lt a c ≡ false
unfolding text_lt
text_lt_cotrans a b [] p q = refl
text_lt_cotrans a [] (z ∷ c) p q = ground arith
text_lt_cotrans [] (y ∷ b) (z ∷ c) p q = ground arith
text_lt_cotrans (x ∷ a) (y ∷ b) (z ∷ c) p q = ground (arith, text_lt_cotrans a b c)
