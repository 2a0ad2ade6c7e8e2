-- ===== src/Start/Quorum.antt =====
-- The quorum that the start-up check lets through.
use driftstore.Prelude.{
  ℕ, zero, suc, ◌+◌, ◌^◌, ◌≤◌, ◌<◌, ◌≡◌, ℤ, pos_part, ltb_ℤ, ◌↔◌, Bool, true, false, [], Bool-cases,
  inl, inr, if◌then◌else◌, ◌==◌, ◌∷◌, some, arith,
}
use driftstore.Text.{Text}
use driftstore.Options.{negate, skip_space, leading, magnitude, signed, stoi}
use driftstore.Start.{StartOptions, bad_quorum, read_quorum}

-- What every read must meet every write, with a sum that an `int` can hold.
pub record Quorum (n w r : ℤ) : Type 0 where
  pub writes : 1 ≤ pos_part w
  pub reads : 1 ≤ pos_part r
  pub w_within : pos_part w ≤ pos_part n
  pub r_within : pos_part r ≤ pos_part n
  pub meets : pos_part n < pos_part w + pos_part r
  pub held : pos_part w + pos_part r < 2 ^ 31

negate-pos_part : (k : ℕ) → pos_part (negate k) < 2 ^ 31
negate-pos_part zero = omega arith
negate-pos_part (suc k) = omega arith

magnitude-pos_part :
    (negative : Bool) (t : Text) (z : ℤ)
    → magnitude (2 ^ 31) negative t ≡ some z
    → pos_part z < 2 ^ 31
magnitude-pos_part true t z h = ground (arith, h, negate-pos_part (leading t 0))
magnitude-pos_part false t z h = ground (arith, h)

signed-pos_part : (t : Text) (z : ℤ) → signed (2 ^ 31) t ≡ some z → pos_part z < 2 ^ 31
signed-pos_part [] z h = absurd (let x : ⊥ = cc in x)
signed-pos_part (c ∷ cs) z h = elim (Bool-cases (c == b'-')) [
  | inl minus ↦ magnitude-pos_part true cs z (rw minus at h)
  | inr bare ↦ magnitude-pos_part false (if c == b'+' then cs else c ∷ cs) z (rw bare at h)
]

-- what `stoi` returns is an `int`
pub stoi-pos_part : (t : Text) (z : ℤ) → stoi t ≡ some z → pos_part z < 2 ^ 31
unfolding stoi
stoi-pos_part t z h = signed-pos_part (skip_space t) z h

read_quorum-pos_part :
    (o : StartOptions) (n w r : ℤ) → read_quorum o ≡ some (n, w, r) → pos_part n < 2 ^ 31
unfolding read_quorum
read_quorum-pos_part o n w r h = ground (arith, stoi-pos_part o.n_str n)

-- The check lets numbers through that the options spell exactly where N, W and R are 1 at least, W
-- and R are N at most, W and R are more than N together, and their sum is an `int`.
pub bad_quorum-Quorum :
    (o : StartOptions) (n w r : ℤ)
    → read_quorum o ≡ some (n, w, r)
    → (bad_quorum n w r ≡ false) ↔ Quorum n w r
unfolding bad_quorum ltb_ℤ
bad_quorum-Quorum o n w r given =
    let small = read_quorum-pos_part o n w r given in (passes small, λ q. ground arith)
  where
    passes : pos_part n < 2 ^ 31 → bad_quorum n w r ≡ false → Quorum n w r
    passes small h = ground arith
