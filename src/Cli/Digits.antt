-- ===== src/Cli/Digits.antt =====
-- The digits of a number, read back.
use driftstore.Prelude.{
  ℕ, zero, suc, ◌+◌, ◌-◌, ◌*◌, ◌/◌, ◌%◌, ◌<◌, ◌≡◌, ◌≢◌, ◌⊎◌, refl, true, false, [], ◌∷◌, ◌++◌, none,
  some, arith, ltb, All, Bool-cases, inl, inr, ap, ◌∙◌,
}
use driftstore.Text.{Text}
use driftstore.Membership.{digits, to_string}
use driftstore.Cli.{before, behind, all_digits, decimal, is_empty}

decimal-digits :
    (fuel x : ℕ) (out : Text) → x < fuel → decimal (digits fuel x out) 0 ≡ decimal out x
unfolding digits decimal
decimal-digits zero x out h = absurd (omega arith)
decimal-digits (suc fuel) x out h = elim (Bool-cases (ltb x 10)) [
  | inl last ↦
      let same : 0 * 10 + (b'0' + x % 10 - b'0') ≡ x = ground (arith, last) in
      rw last (ap (decimal out) same)
  | inr more ↦
      let less : x / 10 < fuel = ground (arith, more) in
      let same : x / 10 * 10 + (b'0' + x % 10 - b'0') ≡ x = omega arith in
      rw more (decimal-digits fuel (x / 10) ((b'0' + x % 10) ∷ out) less ∙ ap (decimal out) same)
]

all_digits-digits :
    (fuel x : ℕ) (out : Text) → all_digits out ≡ true → all_digits (digits fuel x out) ≡ true
unfolding digits all_digits
all_digits-digits zero x out h = h
all_digits-digits (suc fuel) x out h =
    let next : all_digits ((b'0' + x % 10) ∷ out) ≡ true = ground (arith, h) in
    elim (Bool-cases (ltb x 10)) [
      | inl last ↦ rw last next
      | inr more ↦ rw more (all_digits-digits fuel (x / 10) ((b'0' + x % 10) ∷ out) next)
    ]

digits-filled : (fuel x c : ℕ) (out : Text) → is_empty (digits fuel x (c ∷ out)) ≡ false
unfolding digits
digits-filled zero x c out = refl
digits-filled (suc fuel) x c out = elim (Bool-cases (ltb x 10)) [
  | inl last ↦ rw last refl
  | inr more ↦ rw more (digits-filled fuel (x / 10) (b'0' + x % 10) (c ∷ out))
]

decimal-nil : (x : ℕ) → decimal [] x ≡ x
unfolding decimal
decimal-nil x = refl

all_digits-nil : all_digits [] ≡ true
unfolding all_digits
all_digits-nil = refl

digits-suc : (fuel x : ℕ) (out : Text) → is_empty (digits (suc fuel) x out) ≡ false
unfolding digits
digits-suc fuel x out = elim (Bool-cases (ltb x 10)) [
  | inl last ↦ rw last refl
  | inr more ↦ rw more (digits-filled fuel (x / 10) (b'0' + x % 10) out)
]

-- What is printed for a number is digits, one at least, and reads back as the number.
pub to_string-decimal :
    (x : ℕ)
    → (decimal (to_string x) 0 ≡ x)
      × (all_digits (to_string x) ≡ true)
      × (is_empty (to_string x) ≡ false)
to_string-decimal x = (
  decimal-digits (suc x) x [] (omega arith) ∙ decimal-nil x,
  all_digits-digits (suc x) x [] all_digits-nil,
  digits-suc x x [],
)

-- a text without a character
abbrev pub Free : ℕ → Text → Type 0
Free c = All (λ x. x ≢ c)

pub all_digits-Free : (c : ℕ) (t : Text) → all_digits t ≡ true → (c < b'0') ⊎ (b'9' < c) → Free c t
unfolding all_digits
all_digits-Free c [] h out = tt
all_digits-Free c (x ∷ t) h out =
    (λ e. ground (arith, h, out, e), all_digits-Free c t (ground (arith, h)) out)

pub before-append : (c : ℕ) (a b : Text) → Free c a → before c (a ++ c ∷ b) ≡ a
unfolding before
before-append c [] b f = ground arith
before-append c (x ∷ a) b f = ground (arith, f.0, before-append c a b f.1)

pub behind-append : (c : ℕ) (a b : Text) → Free c a → behind c (a ++ c ∷ b) ≡ some b
unfolding behind
behind-append c [] b f = ground arith
behind-append c (x ∷ a) b f = ground (arith, f.0, behind-append c a b f.1)

pub before-Free : (c : ℕ) (a : Text) → Free c a → before c a ≡ a
unfolding before
before-Free c [] f = refl
before-Free c (x ∷ a) f = ground (arith, f.0, before-Free c a f.1)

pub behind-Free : (c : ℕ) (a : Text) → Free c a → behind c a ≡ none
unfolding behind
behind-Free c [] f = refl
behind-Free c (x ∷ a) f = ground (arith, f.0, behind-Free c a f.1)
