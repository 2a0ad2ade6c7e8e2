-- ===== src/Resolve/Lww.antt =====
-- `resolveLWW` picks a version that no other beats.
use driftstore.Prelude.{
  ◌≡◌, refl, true, false, List, [], ◌∷◌, some, arith, ltb_ℤ_irrefl, ltb_ℤ_trans, ltb_ℤ_cotrans,
  ltb_ℤ_total, eqb_ℤ, eqb_ℤ_refl, eqb_ℤ_sound, All, In, Bool-cases, inl, inr, subst,
}
use driftstore.Text.{text_lt_irrefl, text_lt_trans, text_lt_cotrans, text_lt_total}
use driftstore.Resolve.{VersionedValue, beats, lww_loop, resolve_lww}

pub beats_irrefl : (a : VersionedValue) → beats a a ≡ false
unfolding beats
beats_irrefl a = ground (arith, ltb_ℤ_irrefl a.clock.last_updated, text_lt_irrefl a.clock.writer_id)

not_beats_trans :
    (a b c : VersionedValue) → beats a b ≡ false → beats b c ≡ false → beats a c ≡ false
unfolding beats
not_beats_trans a b c p q = elim (Bool-cases (eqb_ℤ a.clock.last_updated c.clock.last_updated)) [
  | inl same ↦
      let e = eqb_ℤ_sound _ _ same in
      ground (
        arith,
        e,
        eqb_ℤ_refl a.clock.last_updated,
        ltb_ℤ_irrefl a.clock.last_updated,
        ltb_ℤ_total a.clock.last_updated b.clock.last_updated,
        ltb_ℤ_total b.clock.last_updated a.clock.last_updated,
        text_lt_cotrans c.clock.writer_id b.clock.writer_id a.clock.writer_id,
      )
  | inr differ ↦
      ground (arith, ltb_ℤ_cotrans c.clock.last_updated b.clock.last_updated a.clock.last_updated)
]

-- a version that beats another is not beaten back
not_beats_back : (a b : VersionedValue) → beats a b ≡ true → beats b a ≡ false
unfolding beats
not_beats_back a b h = ground (
  arith,
  ltb_ℤ_irrefl a.clock.last_updated,
  ltb_ℤ_trans a.clock.last_updated b.clock.last_updated a.clock.last_updated,
  eqb_ℤ_sound a.clock.last_updated b.clock.last_updated,
  eqb_ℤ_sound b.clock.last_updated a.clock.last_updated,
  text_lt_irrefl a.clock.writer_id,
  text_lt_trans a.clock.writer_id b.clock.writer_id a.clock.writer_id,
)

abbrev Unbeaten : List VersionedValue → VersionedValue → Type 0
Unbeaten xs w = All (λ x. beats x w ≡ false) xs

abbrev Best : List VersionedValue → VersionedValue → Type 0
Best xs w = In w xs × Unbeaten xs w

Best-later :
    (w c x : VersionedValue) (rest : List VersionedValue)
    → beats c w ≡ true
    → Best (c ∷ rest) x
    → Best (w ∷ c ∷ rest) x
Best-later w c x rest later b =
    (inr b.0, (not_beats_trans w c x (not_beats_back c w later) b.1.0, b.1))

Best-earlier :
    (w c x : VersionedValue) (rest : List VersionedValue)
    → beats c w ≡ false
    → Best (w ∷ rest) x
    → Best (w ∷ c ∷ rest) x
Best-earlier w c x rest not_later (m, (here, others)) = (
  elim m [ inl e ↦ inl e | inr there ↦ inr (inr there) ],
  (here, (not_beats_trans c w x not_later here, others)),
)

lww_loop-Best :
    (w : VersionedValue) (rest : List VersionedValue) → Best (w ∷ rest) (lww_loop w rest)
unfolding lww_loop
lww_loop-Best w [] = (inl refl, (beats_irrefl w, tt))
lww_loop-Best w (c ∷ rest) = elim (Bool-cases (beats c w)) [
  | inl later ↦
      let e : lww_loop c rest ≡ lww_loop w (c ∷ rest) = rw later in
      subst (Best (w ∷ c ∷ rest)) e (Best-later w c _ rest later (lww_loop-Best c rest))
  | inr not_later ↦
      let e : lww_loop w rest ≡ lww_loop w (c ∷ rest) = rw not_later in
      subst (Best (w ∷ c ∷ rest)) e (Best-earlier w c _ rest not_later (lww_loop-Best w rest))
]

-- On a list with an entry the last-writer-wins rule answers with an entry of the list that no
-- entry beats: none has a later timestamp, or the same one and a greater writer.
pub resolve_lww-Unbeaten :
    (v : VersionedValue) (vs : List VersionedValue)
    → (w : VersionedValue) × (resolve_lww (v ∷ vs) ≡ some w)
      × In w (v ∷ vs)
      × All (λ x. beats x w ≡ false) (v ∷ vs)
unfolding resolve_lww
resolve_lww-Unbeaten v vs = let r = lww_loop-Best v vs in (lww_loop v vs, refl, r.0, r.1)

-- Two unbeaten versions were stamped at the same time by the same writer.
pub Unbeaten_same_stamp :
    (a b : VersionedValue)
    → beats a b ≡ false
    → beats b a ≡ false
    → (a.clock.last_updated ≡ b.clock.last_updated) × (a.clock.writer_id ≡ b.clock.writer_id)
unfolding beats
Unbeaten_same_stamp a b p q =
    let same : a.clock.last_updated ≡ b.clock.last_updated =
      ltb_ℤ_total _ _ (ground arith) (ground arith) in
    let stamped : eqb_ℤ a.clock.last_updated b.clock.last_updated ≡ true =
      rw same (eqb_ℤ_refl b.clock.last_updated) in
    let stamped' : eqb_ℤ b.clock.last_updated a.clock.last_updated ≡ true =
      rw same (eqb_ℤ_refl b.clock.last_updated) in
    (same, text_lt_total _ _ (ground arith) (ground arith))
