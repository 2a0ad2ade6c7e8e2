-- ===== src/Ring.antt =====
-- src/ring.hpp, lines 13-34 and 74-114: the hash ring and the preference list of a key.
pub mod Tokens
pub mod Clockwise
pub mod Preference
pub mod Owners
pub mod Natural
use driftstore.Prelude.{
  ℕ, zero, suc, ◌+◌, ◌*◌, ◌/◌, ◌%◌, ◌^◌, Bool, true, false, ◌&&◌, not, List, [], ◌∷◌, ◌++◌, Option,
  none, some, ite, ltb, ◌==◌, length, get_elem?, if◌then◌else◌, bit_xor,
}
use driftstore.Text.{Text, text_dec}

pub record PreferenceListEntry : Type 0 where
  pub node_id : Text
  pub hint_for_node_id : Option Text

-- `uint64_t` multiplication wraps; the shifts and the xors stay below 2 ^ 64.
unfoldable pub mix64 : ℕ → ℕ
mix64 x =
    let a = bit_xor x (x / 2 ^ 30) in
    let b = a * 0xbf58476d1ce4e5b9 % 2 ^ 64 in
    let c = bit_xor b (b / 2 ^ 27) in
    let d = c * 0x94d049bb133111eb % 2 ^ 64 in bit_xor d (d / 2 ^ 31)

unfoldable pub fnv1a64_from : ℕ → Text → ℕ
fnv1a64_from hash [] = hash
fnv1a64_from hash (c ∷ rest) = fnv1a64_from (bit_xor hash c * 0x100000001b3 % 2 ^ 64) rest

unfoldable pub fnv1a64 : Text → ℕ
unfolding fnv1a64_from
fnv1a64 text = fnv1a64_from 0xcbf29ce484222325 text

-- `std::map<uint64_t, std::string>`: the entries by ascending token.
abbrev pub RingMap : Type 0
RingMap = List (ℕ × Text)

-- `ring[token] = node_id`
unfoldable pub put_token : ℕ → Text → RingMap → RingMap
put_token token node_id [] = (token, node_id) ∷ []
put_token token node_id ((t, n) ∷ ring) =
    if ltb token t
    then (token, node_id) ∷ (t, n) ∷ ring
    else if token == t
    then (t, node_id) ∷ ring
    else (t, n) ∷ put_token token node_id ring

-- `ring.erase(token)`
unfoldable pub erase_token : ℕ → RingMap → RingMap
erase_token token [] = []
erase_token token ((t, n) ∷ ring) = if token == t then ring else (t, n) ∷ erase_token token ring

-- `ring.upper_bound(key_hash)` as a position: of the first token beyond the hash, or the end.
unfoldable pub upper_bound : ℕ → RingMap → ℕ
upper_bound key_hash [] = 0
upper_bound key_hash ((t, n) ∷ ring) = if ltb key_hash t then 0 else suc (upper_bound key_hash ring)

-- `std::unordered_set<std::string>`
unfoldable pub contains : Text → List Text → Bool
contains x [] = false
contains x (y ∷ ys) = ite (text_dec y x) true (contains x ys)

-- The variables of the loop of `preferenceList`; the front of the queue is the list's head.
pub record Walk : Type 0 where
  pub preference_list : List PreferenceListEntry
  pub seen : List Text
  pub pending_hints : List Text
  pub natural_count : ℕ

abbrev pub natural : Text → PreferenceListEntry
natural n = record { node_id = n; hint_for_node_id = none }

abbrev pub holder : Text → Text → PreferenceListEntry
holder n target = record { node_id = n; hint_for_node_id = some target }

abbrev pub start : Walk
start = record { preference_list = []; seen = []; pending_hints = []; natural_count = 0 }

-- the position after `it`, back at the beginning after the last
unfoldable pub next_position : RingMap → ℕ → ℕ
next_position ring it = if (it + 1) == length ring then 0 else it + 1

module _ (n_max : ℕ) (is_reachable : Text → Bool) where
  -- the branch for a node that is past the natural owners
  unfoldable pub take_hint : Text → List Text → Walk → Walk
  take_hint candidate [] w = w
  take_hint candidate (hint_target ∷ rest) w = record w {
    preference_list = w.preference_list ++ holder candidate hint_target ∷ [];
    pending_hints = rest;
  }

  -- a node that the walk meets for the first time
  unfoldable pub visit_new : Text → Walk → Walk
  unfolding take_hint
  visit_new candidate w =
      if ltb w.natural_count n_max
      then (if is_reachable candidate
          then record w {
            natural_count = w.natural_count + 1;
            preference_list = w.preference_list ++ natural candidate ∷ [];
          }
          else record w {
            natural_count = w.natural_count + 1;
            pending_hints = w.pending_hints ++ candidate ∷ [];
          })
      else if is_reachable candidate
      then take_hint candidate w.pending_hints w
      else w

  unfoldable pub visit : Text → Walk → Walk
  unfolding visit_new contains
  visit candidate w =
      if contains candidate w.seen
      then w
      else visit_new candidate (record w { seen = candidate ∷ w.seen })

  -- The loop, with as many rounds left as `visited` may still grow.
  unfoldable pub preference_loop : ℕ → RingMap → ℕ → Walk → Walk
  unfolding visit next_position
  preference_loop zero ring it w = w
  preference_loop (suc left) ring it w = elim (get_elem? ring it) [
    | none ↦ w
    | some (token, candidate) ↦
        let w' = visit candidate w in
        let rest = preference_loop left ring (next_position ring it) w' in
        if length w'.preference_list == n_max then w' else rest
  ]

  unfoldable pub preference_list : RingMap → ℕ → List PreferenceListEntry
  unfolding preference_loop upper_bound
  preference_list ring key_hash =
      let it = upper_bound key_hash ring in
      let first : ℕ = if it == length ring then 0 else it in
      (preference_loop (length ring) ring first start).preference_list
