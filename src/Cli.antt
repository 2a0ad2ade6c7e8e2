-- ===== src/Cli.antt =====
-- src/client.cpp, lines 29-80, src/node_main.cpp, lines 19-29, and src/node_kv.cpp, lines 19-30:
-- clocks and seeds as texts.
pub mod Digits
pub mod Clocks
pub mod Seeds
use driftstore.Prelude.{
  ℕ, zero, suc, ◌+◌, ◌-◌, ◌*◌, Bool, true, false, not, ◌&&◌, ◌||◌, List, [], ◌∷◌, ◌++◌, Option,
  none, some, ite, if◌then◌else◌, ltb, leb, ◌==◌, length,
}
use driftstore.Text.{Text, text_dec, text_lt}
use driftstore.Assoc.{Assoc, insert}
use driftstore.Clock.{VectorClock, u64_mod}
use driftstore.Membership.{to_string}

-- `substr(0, find(c))`, and the whole text where `find` gives npos
unfoldable pub before : ℕ → Text → Text
before c [] = []
before c (x ∷ xs) = if x == c then [] else x ∷ before c xs

-- `substr(find(c) + 1)`, and `none` for npos
unfoldable pub behind : ℕ → Text → Option Text
behind c [] = none
behind c (x ∷ xs) = if x == c then some xs else behind c xs

abbrev pub is_empty : Text → Bool
is_empty [] = true
is_empty (x ∷ xs) = false

unfoldable pub all_digits : Text → Bool
all_digits [] = true
all_digits (c ∷ cs) = leb b'0' c && leb c b'9' && all_digits cs

-- the number that digits stand for, behind the value so far
unfoldable pub decimal : Text → ℕ → ℕ
decimal [] value = value
decimal (c ∷ cs) value = decimal cs (value * 10 + (c - b'0'))

-- `out_of_range` is the exception of `stoull`.
pub data ParsedClock : Type 0 where
  parsed : VectorClock → ParsedClock
  malformed : ParsedClock
  out_of_range : ParsedClock

-- A pair of a node's name and its count, written to the clock.
unfoldable pub read_pair : Text → VectorClock → ParsedClock
unfolding before behind all_digits decimal
read_pair pair_str clock =
    let node_id = before b':' pair_str in
    elim (behind b':' pair_str) [
      | none ↦ malformed
      | some count_str ↦
          if is_empty node_id || is_empty count_str
          then malformed
          else if not (all_digits count_str)
          then malformed
          else if ltb (decimal count_str 0) u64_mod
          then parsed
              (record clock { counters = insert node_id (decimal count_str 0) clock.counters })
          else out_of_range
    ]

-- The loop of `parseClockArg`: a round takes a character at least, so that the length of the text
-- is fuel enough.
unfoldable pub parse_pairs : ℕ → Text → VectorClock → ParsedClock
unfolding before behind read_pair
parse_pairs zero remaining clock = parsed clock
parse_pairs (suc fuel) remaining clock =
    if is_empty remaining then parsed clock else elim (read_pair (before b',' remaining) clock) [
      | malformed ↦ malformed
      | out_of_range ↦ out_of_range
      | parsed clock' ↦ elim (behind b',' remaining) [
        | none ↦ parsed clock'
        | some rest ↦ parse_pairs fuel rest clock'
      ]
    ]

unfoldable pub parse_clock_arg : Text → VectorClock → ParsedClock
unfolding parse_pairs
parse_clock_arg raw clock = parse_pairs (length raw) raw clock

-- `std::sort` of the entries, by node and then by count
unfoldable pub entry_lt : Text × ℕ → Text × ℕ → Bool
entry_lt (k, v) (j, w) = if text_lt k j then true else not (text_lt j k) && ltb v w

unfoldable pub insert_sorted : Text × ℕ → Assoc ℕ → Assoc ℕ
unfolding entry_lt
insert_sorted e [] = e ∷ []
insert_sorted e (f ∷ m) =
    let rest = insert_sorted e m in if entry_lt e f then e ∷ f ∷ m else f ∷ rest

unfoldable pub sort_entries : Assoc ℕ → Assoc ℕ
unfolding insert_sorted
sort_entries [] = []
sort_entries (e ∷ m) = insert_sorted e (sort_entries m)

abbrev pub entry_text : Text × ℕ → Text
entry_text (k, v) = k ++ b':' ∷ to_string v

-- the entries that are not the first
unfoldable pub render_rest : Assoc ℕ → Text
render_rest [] = []
render_rest (e ∷ m) = b',' ∷ entry_text e ++ render_rest m

unfoldable pub render : Assoc ℕ → Text
unfolding render_rest
render [] = []
render (e ∷ m) = entry_text e ++ render_rest m

unfoldable pub clock_to_string : VectorClock → Text
unfolding render sort_entries
clock_to_string clock = render (sort_entries clock.counters)

-- `renderClock` of src/node_kv.cpp
unfoldable pub render_clock : VectorClock → Text
unfolding clock_to_string
render_clock clock = b'{' ∷ clock_to_string clock ++ b'}' ∷ []

-- The texts that `getline` gives, but the empty ones; `token` is what the current one has so far.
unfoldable pub split_from : Text → Text → List Text
split_from token [] = if is_empty token then [] else token ∷ []
split_from token (c ∷ cs) =
    let fresh = split_from [] cs in
    let longer = split_from (token ++ c ∷ []) cs in
    if c == b',' then (if is_empty token then fresh else token ∷ fresh) else longer

unfoldable pub split_seeds : Text → List Text
unfolding split_from
split_seeds raw = split_from [] raw
