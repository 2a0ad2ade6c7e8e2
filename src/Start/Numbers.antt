-- ===== src/Start/Numbers.antt =====
-- src/node_main.cpp, lines 93-108: the numbers of a start, as its options spell them.
use driftstore.Prelude.{
  ◌≤◌, ◌≡◌, ◌⊎◌, refl, ℤ, pos, negsuc, pos_part, none, some, arith, Option-cases, inl, inr, sym, ap,
  ◌∙◌,
}
use driftstore.Options.{stoi, stoll}
use driftstore.Store.Writes.{some_inj, none_ne_some}
use driftstore.Start.{StartOptions, read_quorum}

-- some option that a start needs a number of has none
abbrev pub Unreadable : StartOptions → Type 0
Unreadable o =
    ((stoi o.n_str ≡ none) ⊎ ((stoi o.w_str ≡ none) ⊎ (stoi o.r_str ≡ none)))
    ⊎ ((stoi o.vnodes_str ≡ none)
        ⊎ ((stoll o.gossip_interval_ms ≡ none) ⊎ (stoll o.reachability_interval_ms ≡ none)))

-- the three numbers as the options spell them
abbrev pub Spelled : StartOptions → ℤ → ℤ → ℤ → Type 0
Spelled o n w r = (stoi o.n_str ≡ some n) × (stoi o.w_str ≡ some w) × (stoi o.r_str ≡ some r)

pub read_quorum-none :
    (o : StartOptions)
    → read_quorum o ≡ none
    → (stoi o.n_str ≡ none) ⊎ ((stoi o.w_str ≡ none) ⊎ (stoi o.r_str ≡ none))
unfolding read_quorum
read_quorum-none o e = elim (Option-cases (stoi o.n_str)) [
  | inl a ↦ inl a
  | inr (n, p) ↦ elim (Option-cases (stoi o.w_str)) [
    | inl b ↦ inr (inl b)
    | inr (w, q) ↦ elim (Option-cases (stoi o.r_str)) [
      | inl c ↦ inr (inr c)
      | inr (r, t) ↦
          let all : read_quorum o ≡ some (n, w, r) = rw (read_quorum, p, q, t) refl in
          absurd (none_ne_some (sym e ∙ all))
    ]
  ]
]

pub read_quorum-Spelled :
    (o : StartOptions) (n w r : ℤ) → read_quorum o ≡ some (n, w, r) → Spelled o n w r
unfolding read_quorum
read_quorum-Spelled o n w r e = elim (Option-cases (stoi o.n_str)) [
  | inl a ↦
      let thrown : read_quorum o ≡ none = rw (read_quorum, a) refl in
      absurd (none_ne_some (sym thrown ∙ e))
  | inr (n', p) ↦ elim (Option-cases (stoi o.w_str)) [
    | inl b ↦
        let thrown : read_quorum o ≡ none = rw (read_quorum, p, b) refl in
        absurd (none_ne_some (sym thrown ∙ e))
    | inr (w', q) ↦ elim (Option-cases (stoi o.r_str)) [
      | inl c ↦
          let thrown : read_quorum o ≡ none = rw (read_quorum, p, q, c) refl in
          absurd (none_ne_some (sym thrown ∙ e))
      | inr (r', t) ↦
          let all : read_quorum o ≡ some (n', w', r') = rw (read_quorum, p, q, t) refl in
          let same = some_inj (sym all ∙ e) in
          (p ∙ ap (λ x. some x.0) same, q ∙ ap (λ x. some x.1) same, t ∙ ap (λ x. some x.2) same)
    ]
  ]
]

pub whole_pos : (z : ℤ) → 1 ≤ pos_part z → z ≡ pos (pos_part z)
whole_pos (pos k) h = refl
whole_pos (negsuc k) h = absurd (omega (arith, h))
