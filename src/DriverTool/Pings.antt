-- ===== src/DriverTool/Pings.antt =====
-- src/driftclient.hpp, lines 69-79: the pings by which a client finds a seed that answers.
use driftstore.Prelude.{◌≡◌, Bool, false, List, [], ◌∷◌, Bool-cases, inl, inr, true}
use driftstore.Text.{Text}
use driftstore.DriftClient.{Seeds, any_alive}

-- Seeds are pinged one after the other until one answers.
pub data Pinged {World : Type 0} (seeds : Seeds World)
    : List Text → World → World → Bool → Type 0 where
  nobody : (w : World) → Pinged seeds [] w w false
  answers :
      (addr : Text) (rest : List Text) (w : World)
      → (seeds.seed_ping addr w).1 ≡ true
      → Pinged seeds (addr ∷ rest) w (seeds.seed_ping addr w).0 true
  silent :
      (addr : Text) (rest : List Text) (w w' : World) (alive : Bool)
      → (seeds.seed_ping addr w).1 ≡ false
      → Pinged seeds rest (seeds.seed_ping addr w).0 w' alive
      → Pinged seeds (addr ∷ rest) w w' alive

pub any_alive-Pinged :
    {World : Type 0} (seeds : Seeds World) (addrs : List Text) (w : World)
    → let (w', alive) = any_alive seeds addrs w in Pinged seeds addrs w w' alive
unfolding any_alive
any_alive-Pinged seeds [] w = nobody w
any_alive-Pinged seeds (addr ∷ rest) w = elim (Bool-cases (seeds.seed_ping addr w).1) [
  | inl yes_alive ↦ rw (yes_alive, any_alive) (answers addr rest w yes_alive)
  | inr dead ↦
      rw (dead, any_alive)
        (silent addr rest w _ _ dead (any_alive-Pinged seeds rest (seeds.seed_ping addr w).0))
]
