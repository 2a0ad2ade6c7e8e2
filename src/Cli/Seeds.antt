-- ===== src/Cli/Seeds.antt =====
-- A list of seeds that is joined by commas splits into them again.
use driftstore.Prelude.{◌≡◌, refl, false, List, [], ◌∷◌, ◌++◌, arith, All, ap, sym, ◌∙◌, ◌==◌}
use mathlib.Core.List.{append_assoc, append-nil}
use driftstore.Text.{Text}
use driftstore.Cli.{is_empty, split_from, split_seeds}
use driftstore.Cli.Digits.{Free}

-- `--seed=a,b,c`
unfoldable pub join_rest : List Text → Text
join_rest [] = []
join_rest (s ∷ ss) = b',' ∷ s ++ join_rest ss

unfoldable pub join : List Text → Text
unfolding join_rest
join [] = []
join (s ∷ ss) = s ++ join_rest ss

split_from-append :
    (token s rest : Text)
    → Free b',' s
    → split_from token (s ++ rest) ≡ split_from (token ++ s) rest
unfolding split_from
split_from-append token [] rest f = ap (λ t. split_from t rest) (sym (append-nil token))
split_from-append token (c ∷ s) rest f =
    let other : (c == b',') ≡ false = ground (arith, f.0) in
    rw other (
      split_from-append (token ++ c ∷ []) s rest f.1
      ∙ ap (λ t. split_from t rest) (append_assoc token (c ∷ []) s))

split_from-join_rest :
    (s : Text) (ss : List Text)
    → is_empty s ≡ false
    → All (λ t. (is_empty t ≡ false) × Free b',' t) ss
    → split_from s (join_rest ss) ≡ s ∷ ss
unfolding join_rest split_from
split_from-join_rest s [] filled h = rw filled refl
split_from-join_rest s (t ∷ ss) filled h =
    rw filled (
      ap (◌∷◌ s)
        (split_from-append [] t (join_rest ss) h.0.1 ∙ split_from-join_rest t ss h.0.0 h.1))

-- Seeds that are not empty and have no comma, joined by commas, split into the same seeds.
pub split_seeds-join :
    (seeds : List Text)
    → All (λ t. (is_empty t ≡ false) × Free b',' t) seeds
    → split_seeds (join seeds) ≡ seeds
unfolding split_seeds join
split_seeds-join [] h = unfold split_from in refl
split_seeds-join (s ∷ ss) h =
    split_from-append [] s (join_rest ss) h.0.1 ∙ split_from-join_rest s ss h.0.0 h.1
