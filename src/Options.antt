-- ===== src/Options.antt =====
-- src/client.cpp, src/driftclient.cpp and src/node_main.cpp: what their mains share: the numbers
-- that options carry, what is written and how the process ends.
pub mod Flags
use driftstore.Prelude.{
  ℕ, zero, suc, ◌+◌, ◌-◌, ◌*◌, ◌^◌, ℤ, pos, negsuc, Bool, true, false, not, ◌&&◌, ◌||◌, [], ◌∷◌,
  Option, none, some, ltb, leb, ◌==◌, if◌then◌else◌,
}
use driftstore.Text.{Text, codes}
use driftstore.Logging.{EventType}
use driftstore.Membership.{to_string}

-- What a program writes: to standard output, to standard error, or an event by `logEvent`.
pub data Line : Type 0 where
  out err : Text → Line
  event : EventType → Text → Text → Line

-- `main` returns, or an exception that nothing catches ends the process.
pub data Ending : Type 0 where
  exits : ℤ → Ending
  terminates : Ending

-- `std::isspace` and `std::isdigit`
abbrev pub is_space : ℕ → Bool
is_space c = c == 32 || (leb 9 c && leb c 13)

abbrev pub is_digit : ℕ → Bool
is_digit c = leb b'0' c && leb c b'9'

unfoldable pub skip_space : Text → Text
skip_space [] = []
skip_space (c ∷ cs) = let rest = skip_space cs in if is_space c then rest else c ∷ cs

-- the digits at the front, behind the value so far
unfoldable pub leading : Text → ℕ → ℕ
leading [] value = value
leading (c ∷ cs) value =
    let next = leading cs (value * 10 + (c - b'0')) in if is_digit c then next else value

abbrev pub starts_number : Text → Bool
starts_number [] = false
starts_number (c ∷ cs) = is_digit c

abbrev pub negate : ℕ → ℤ
negate zero = pos zero
negate (suc k) = negsuc k

-- digits behind a sign, in a type of `limit` values from 0 on and as many below
abbrev pub magnitude : ℕ → Bool → Text → Option ℤ
magnitude limit negative t =
    if not (starts_number t)
    then none
    else if negative && leb (leading t 0) limit
    then some (negate (leading t 0))
    else if not negative && ltb (leading t 0) limit
    then some (pos (leading t 0))
    else none

abbrev pub signed : ℕ → Text → Option ℤ
signed limit [] = none
signed limit (c ∷ cs) =
    if c == b'-'
    then magnitude limit true cs
    else magnitude limit false (if c == b'+' then cs else c ∷ cs)

-- `std::stoi` and `std::stoll`: the number at the front behind white space. `none` is an exception:
-- no digit, or out of range. Nothing in the program catches it.
unfoldable pub stoi : Text → Option ℤ
unfolding skip_space leading
stoi t = signed (2 ^ 31) (skip_space t)

unfoldable pub stoll : Text → Option ℤ
unfolding skip_space leading
stoll t = signed (2 ^ 63) (skip_space t)

-- `std::to_string` of a signed number
abbrev pub integer_text : ℤ → Text
integer_text (pos k) = to_string k
integer_text (negsuc k) = b'-' ∷ to_string (suc k)

abbrev pub bool_text : Bool → Text
bool_text true = codes "true"
bool_text false = codes "false"
