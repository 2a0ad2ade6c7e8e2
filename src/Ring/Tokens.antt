-- ===== src/Ring/Tokens.antt =====
-- The ring as a map from tokens to nodes.
use driftstore.Prelude.{
  ℕ, suc, ◌≤◌, ◌<◌, ◌≡◌, refl, [], ◌∷◌, Option, none, some, arith, ◌==◌, if◌then◌else◌,
}
use driftstore.Text.{Text}
use driftstore.Ring.{RingMap, put_token, erase_token}
use driftstore.Ring.Clockwise.{Ascends, IsRing}

-- the owner of a token
unfoldable pub owner : ℕ → RingMap → Option Text
owner token [] = none
owner token ((t, n) ∷ ring) = if token == t then some n else owner token ring

put_token-Ascends :
    (token : ℕ) (n : Text) (b : ℕ) (ring : RingMap)
    → b ≤ token
    → Ascends b ring
    → Ascends b (put_token token n ring)
unfolding put_token
put_token-Ascends token n b [] h a = (h, tt)
put_token-Ascends token n b ((t, m) ∷ ring) h a =
    ground (arith, put_token-Ascends token n (suc t) ring)

-- Writing a token keeps the map in ascending order.
pub put_token-IsRing :
    (token : ℕ) (n : Text) (ring : RingMap) → IsRing ring → IsRing (put_token token n ring)
put_token-IsRing token n ring a = put_token-Ascends token n 0 ring (omega arith) a

Ascends-weaken : (b c : ℕ) (ring : RingMap) → b ≤ c → Ascends c ring → Ascends b ring
Ascends-weaken b c [] h a = tt
Ascends-weaken b c ((t, m) ∷ ring) h a = (omega arith, a.1)

erase_token-Ascends :
    (token b : ℕ) (ring : RingMap) → Ascends b ring → Ascends b (erase_token token ring)
unfolding erase_token
erase_token-Ascends token b [] a = tt
erase_token-Ascends token b ((t, m) ∷ ring) a =
    ground (arith, erase_token-Ascends token (suc t) ring a.1, Ascends-weaken b (suc t) ring)

-- Erasing a token keeps the map in ascending order.
pub erase_token-IsRing :
    (token : ℕ) (ring : RingMap) → IsRing ring → IsRing (erase_token token ring)
erase_token-IsRing token ring a = erase_token-Ascends token 0 ring a

pub owner-put_token :
    (token q : ℕ) (n : Text) (ring : RingMap)
    → owner q (put_token token n ring) ≡ (if q == token then some n else owner q ring)
unfolding owner put_token
owner-put_token token q n [] = refl
owner-put_token token q n ((t, m) ∷ ring) = ground (arith, owner-put_token token q n ring)

owner_below : (q b : ℕ) (ring : RingMap) → Ascends b ring → q < b → owner q ring ≡ none
unfolding owner
owner_below q b [] a h = refl
owner_below q b ((t, m) ∷ ring) a h = ground (arith, owner_below q (suc t) ring a.1)

owner-erase_token_above :
    (token q b : ℕ) (ring : RingMap)
    → Ascends b ring
    → owner q (erase_token token ring) ≡ (if q == token then none else owner q ring)
unfolding owner erase_token
owner-erase_token_above token q b [] a = ground arith
owner-erase_token_above token q b ((t, m) ∷ ring) a =
    ground (arith, owner-erase_token_above token q (suc t) ring a.1, owner_below q (suc t) ring a.1)

pub owner-erase_token :
    (token q : ℕ) (ring : RingMap)
    → IsRing ring
    → owner q (erase_token token ring) ≡ (if q == token then none else owner q ring)
owner-erase_token token q ring a = owner-erase_token_above token q 0 ring a
