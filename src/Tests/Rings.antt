-- ===== src/Tests/Rings.antt =====
-- The preference list on a small ring, and hashes of short keys.
use driftstore.Prelude.{
  ◌≤◌, ◌≡◌, ◌≢◌, refl, Bool, true, false, [], ◌∷◌, All, Pairwise, arith, length, take, ite,
}
use driftstore.Text.{Text, text_dec}
use driftstore.Ring.{RingMap, mix64, fnv1a64, natural, holder, preference_list}
use driftstore.Ring.Clockwise.{clockwise, IsRing}
use driftstore.Ring.Preference.{fresh, assign, reachable, preference_list-assign}
use driftstore.Ring.Owners.{node_ids, node_ids-preference_list, preference_list_distinct}
use driftstore.Tests.Samples.{node_a, node_b, node_c}

-- the offset basis, and the published FNV-1a hash of "a"
fnv1a64_empty : fnv1a64 [] ≡ 0xcbf29ce484222325
unfolding fnv1a64
fnv1a64_empty = refl

fnv1a64_a : fnv1a64 (b'a' ∷ []) ≡ 0xaf63dc4c8601ec8c
unfolding fnv1a64
fnv1a64_a = refl

mix64_zero : mix64 0 ≡ 0
unfolding mix64
mix64_zero = refl

abbrev ring : RingMap
ring = (10, node_a) ∷ (20, node_b) ∷ (30, node_a) ∷ (40, node_c) ∷ []

ring_IsRing : IsRing ring
ring_IsRing = omega arith

-- `c` does not answer
abbrev up : Text → Bool
up n = ite (text_dec n node_c) false true

-- `a` and `c` own the key; `b` holds the hint for `c`
ring_list : preference_list 2 up ring 25 ≡ natural node_a ∷ holder node_b node_c ∷ []
unfolding preference_list text_dec
ring_list = refl

preference_list-assign_example :
    preference_list 2 up ring 25 ≡ assign 2 up (fresh [] (clockwise 25 ring))
preference_list-assign_example = preference_list-assign 2 up ring 25 ring_IsRing

node_ids-preference_list_example :
    node_ids (preference_list 2 up ring 25) ≡ take 2 (reachable 2 up (fresh [] (clockwise 25 ring)))
node_ids-preference_list_example = node_ids-preference_list 2 up ring 25 ring_IsRing

preference_list_distinct_example :
    (length (preference_list 2 up ring 25) ≤ 2)
    × All (λ n. up n ≡ true) (node_ids (preference_list 2 up ring 25))
    × Pairwise ◌≢◌ (node_ids (preference_list 2 up ring 25))
preference_list_distinct_example = preference_list_distinct 2 up ring 25 ring_IsRing
