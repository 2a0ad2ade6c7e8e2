-- ===== src/Membership/TokenSets.antt =====
-- Writing and erasing several tokens of the ring.
use driftstore.Prelude.{
  ℕ, ◌≡◌, refl, Bool, true, false, List, [], ◌∷◌, none, some, arith, if◌then◌else◌, ◌==◌,
}
use driftstore.Text.{Text}
use driftstore.Ring.{RingMap, put_token, erase_token}
use driftstore.Ring.Clockwise.{IsRing}
use driftstore.Ring.Tokens.{
  owner, owner-put_token, owner-erase_token, put_token-IsRing, erase_token-IsRing,
}
use driftstore.Membership.{put_tokens, erase_tokens}

-- whether a token is in a list
unfoldable pub has_token : ℕ → List ℕ → Bool
has_token q [] = false
has_token q (t ∷ ts) = if q == t then true else has_token q ts

pub owner-put_tokens :
    (ts : List ℕ) (q : ℕ) (n : Text) (ring : RingMap)
    → owner q (put_tokens ts n ring) ≡ (if has_token q ts then some n else owner q ring)
unfolding put_tokens has_token
owner-put_tokens [] q n ring = refl
owner-put_tokens (t ∷ ts) q n ring =
    ground (arith, owner-put_tokens ts q n (put_token t n ring), owner-put_token t q n ring)

pub put_tokens-IsRing :
    (ts : List ℕ) (n : Text) (ring : RingMap) → IsRing ring → IsRing (put_tokens ts n ring)
unfolding put_tokens
put_tokens-IsRing [] n ring a = a
put_tokens-IsRing (t ∷ ts) n ring a = put_tokens-IsRing ts n _ (put_token-IsRing t n ring a)

pub erase_tokens-IsRing :
    (ts : List ℕ) (ring : RingMap) → IsRing ring → IsRing (erase_tokens ts ring)
unfolding erase_tokens
erase_tokens-IsRing [] ring a = a
erase_tokens-IsRing (t ∷ ts) ring a = erase_tokens-IsRing ts _ (erase_token-IsRing t ring a)

pub owner-erase_tokens :
    (ts : List ℕ) (q : ℕ) (ring : RingMap)
    → IsRing ring
    → owner q (erase_tokens ts ring) ≡ (if has_token q ts then none else owner q ring)
unfolding erase_tokens has_token
owner-erase_tokens [] q ring a = refl
owner-erase_tokens (t ∷ ts) q ring a = ground (
  arith,
  owner-erase_tokens ts q (erase_token t ring) (erase_token-IsRing t ring a),
  owner-erase_token t q ring a,
)
