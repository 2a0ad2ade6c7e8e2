-- ===== src/Options/Flags.antt =====
-- Arguments as the settings that they spell, apart from how a main takes them apart: a flag with its
-- value, or an argument that begins with no flag.
use driftstore.Prelude.{
  List, [], ◌∷◌, ◌++◌, map, none, some, ◌≡◌, ◌⊎◌, refl, All, inl, inr, Option-cases, ap₂, arith,
}
use driftstore.Text.{Text, strip_prefix}

strip_prefix-spells : (p t v : Text) → strip_prefix p t ≡ some v → p ++ v ≡ t
unfolding strip_prefix
strip_prefix-spells [] t v e = ground (arith, e)
strip_prefix-spells (p ∷ ps) [] v e = absurd (ground (arith, e))
strip_prefix-spells (p ∷ ps) (c ∷ cs) v e =
    ground (arith, e, λ (h : strip_prefix ps cs ≡ some v). strip_prefix-spells ps cs v h)

module _ {F : Type 0} (name : F → Text) (flags : List F) where
  pub data Setting : Type 0 where
    given : F → Text → Setting
    unknown : (t : Text) → All (λ f. strip_prefix (name f) t ≡ none) flags → Setting

  -- the argument that spells a setting
  abbrev pub spell : Setting → Text
  spell (given f v) = name f ++ v
  spell (unknown t h) = t

  flag_of :
      (fs : List F) (t : Text)
      → ((f : F) × (v : Text) × (name f ++ v ≡ t)) ⊎ All (λ f. strip_prefix (name f) t ≡ none) fs
  flag_of [] t = inr tt
  flag_of (f ∷ fs) t = elim (Option-cases (strip_prefix (name f) t)) [
    | inr (v, e) ↦ inl (f, v, strip_prefix-spells (name f) t v e)
    | inl none_here ↦ elim (flag_of fs t) [
      | inl there ↦ inl there
      | inr nowhere ↦ inr (none_here, nowhere)
    ]
  ]

  setting_of : (t : Text) → (x : Setting) × (spell x ≡ t)
  setting_of t = elim (flag_of flags t) [
    | inl (f, v, e) ↦ (given f v, e)
    | inr nowhere ↦ (unknown t nowhere, refl)
  ]

  -- Every list of arguments spells some settings.
  pub settings_of : (ts : List Text) → (xs : List Setting) × (map spell xs ≡ ts)
  settings_of [] = ([], refl)
  settings_of (t ∷ ts) =
      let (x, e) = setting_of t in let (xs, es) = settings_of ts in (x ∷ xs, ap₂ ◌∷◌ e es)
