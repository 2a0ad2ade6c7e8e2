-- ===== src/Tests/Texts.antt =====
-- Clocks and seeds as texts.
use driftstore.Prelude.{[], ◌∷◌, ◌≡◌, refl, All, arith}
use driftstore.Text.{Text, text_lt}
use driftstore.Assoc.{find, insert}
use driftstore.Clock.{VectorClock, no_clock}
use driftstore.Membership.{digits}
use driftstore.Cli.{parsed, malformed, parse_clock_arg, clock_to_string, split_seeds}
use driftstore.Cli.Clocks.{Printable, parse_clock_arg-clock_to_string}
use driftstore.Cli.Seeds.{join, split_seeds-join}
use driftstore.Tests.Samples.{node_a, node_b, clock_ab, clock_ab-IsMap}

printed_ab : clock_to_string clock_ab ≡ b'a' ∷ b':' ∷ b'2' ∷ b',' ∷ b'b' ∷ b':' ∷ b'1' ∷ []
unfolding clock_to_string digits text_lt
printed_ab = refl

-- no colon, an empty name, an empty count
refused_bare : parse_clock_arg (b'a' ∷ []) no_clock ≡ malformed
unfolding parse_clock_arg
refused_bare = refl

refused_name : parse_clock_arg (b':' ∷ b'1' ∷ []) no_clock ≡ malformed
unfolding parse_clock_arg
refused_name = refl

refused_count : parse_clock_arg (b'a' ∷ b':' ∷ []) no_clock ≡ malformed
unfolding parse_clock_arg
refused_count = refl

-- a comma at the end passes
trailing_comma :
    parse_clock_arg (b'a' ∷ b':' ∷ b'1' ∷ b',' ∷ []) no_clock
    ≡ parsed (record no_clock { counters = (node_a, 1) ∷ [] })
unfolding parse_clock_arg insert
trailing_comma = refl

clock_ab-Printable : All Printable clock_ab.counters
clock_ab-Printable = (
  (refl, ((λ e. ground (arith, e)), tt), ((λ e. ground (arith, e)), tt), omega arith),
  ((refl, ((λ e. ground (arith, e)), tt), ((λ e. ground (arith, e)), tt), omega arith), tt),
)

parse_clock_arg-clock_to_string_example :
    (read_back : VectorClock) × (parse_clock_arg (clock_to_string clock_ab) no_clock
      ≡ parsed read_back)
    × ((n : Text) → find n read_back.counters ≡ find n clock_ab.counters)
parse_clock_arg-clock_to_string_example =
    parse_clock_arg-clock_to_string clock_ab clock_ab-IsMap clock_ab-Printable

split_seeds-join_example : split_seeds (join (node_a ∷ node_b ∷ [])) ≡ node_a ∷ node_b ∷ []
split_seeds-join_example =
    split_seeds-join (node_a ∷ node_b ∷ [])
      ((refl, ((λ e. ground (arith, e)), tt)), ((refl, ((λ e. ground (arith, e)), tt)), tt))
