-- ===== src/DriverTool/Settings.antt =====
-- src/driftclient.cpp, lines 38-70: the options of the driver, by the settings that its arguments
-- spell.
use driftstore.Prelude.{
  ℕ, ℤ, Bool, true, false, ◌||◌, List, [], ◌∷◌, ◌++◌, map, Option, none, some, ◌≡◌, refl, sym, ap,
  ◌∙◌, All, ◌==◌, Bool-cases, inl, inr, if◌then◌else◌,
}
use driftstore.Text.{Text, codes, strip_prefix}
use driftstore.Options.{stoi}
use driftstore.Options.Flags.{Setting, given, unknown, spell}
use driftstore.DriverTool.{DriverOptions, split_lines, eat_argument, eat_arguments}

-- a character in front of the first piece
abbrev pub push : ℕ → List Text → List Text
push c [] = (c ∷ []) ∷ []
push c (p ∷ ps) = (c ∷ p) ∷ ps

-- The pieces of a text between commas, but for an empty last one.
abbrev pub pieces : Text → List Text
pieces [] = []
pieces (c ∷ cs) = let rest = pieces cs in if c == b',' then [] ∷ rest else push c rest

-- what is read of the first piece already
abbrev resume : Text → List Text → List Text
resume [] ps = ps
resume (t ∷ ts) [] = (t ∷ ts) ∷ []
resume (t ∷ ts) (p ∷ ps) = (t ∷ ts ++ p) ∷ ps

append_nil : (xs : Text) → xs ++ [] ≡ xs
append_nil [] = refl
append_nil (x ∷ xs) = ap (◌∷◌ x) (append_nil xs)

append_one : (xs ys : Text) (x : ℕ) → (xs ++ x ∷ []) ++ ys ≡ xs ++ x ∷ ys
append_one [] ys x = refl
append_one (z ∷ xs) ys x = ap (◌∷◌ z) (append_one xs ys x)

resume-push :
    (token : Text) (c : ℕ) (ps : List Text) → resume (token ++ c ∷ []) ps ≡ resume token (push c ps)
resume-push [] c [] = refl
resume-push [] c (p ∷ ps) = refl
resume-push (t ∷ ts) c [] = refl
resume-push (t ∷ ts) c (p ∷ ps) = ap (λ x. (t ∷ x) ∷ ps) (append_one ts p c)

resume-comma : (token : Text) (ps : List Text) → token ∷ ps ≡ resume token ([] ∷ ps)
resume-comma [] ps = refl
resume-comma (t ∷ ts) ps = ap (λ x. (t ∷ x) ∷ ps) (sym (append_nil ts))

split_lines-pieces : (token t : Text) → split_lines token t ≡ resume token (pieces t)
unfolding split_lines
split_lines-pieces [] [] = refl
split_lines-pieces (x ∷ xs) [] = refl
split_lines-pieces token (c ∷ cs) = elim (Bool-cases (c == b',')) [
  | inl comma ↦
      rw (comma, split_lines)
        (ap (◌∷◌ token) (split_lines-pieces [] cs) ∙ resume-comma token (pieces cs))
  | inr letter ↦
      rw (letter, split_lines)
        (split_lines-pieces (token ++ c ∷ []) cs ∙ resume-push token c (pieces cs))
]

pub data DriverFlag : Type 0 where
  seeds_flag key_flag value_flag calls_flag : DriverFlag

abbrev pub driver_flag : DriverFlag → Text
driver_flag seeds_flag = codes "--seeds="
driver_flag key_flag = codes "--key="
driver_flag value_flag = codes "--value="
driver_flag calls_flag = codes "--calls="

abbrev pub driver_flags : List DriverFlag
driver_flags = seeds_flag ∷ key_flag ∷ value_flag ∷ calls_flag ∷ []

abbrev pub DriverSetting : Type 0
DriverSetting = Setting driver_flag driver_flags

-- `--seeds` adds seeds, each other flag sets its own option; `--calls` only to a number
abbrev pub assign : DriverFlag → Text → DriverOptions → DriverOptions
assign seeds_flag v o = record o { seeds = o.seeds ++ pieces v }
assign key_flag v o = record o { key = v }
assign value_flag v o = record o { value = v }
assign calls_flag v o = record o { calls = elim (stoi v) [ none ↦ o.calls | some k ↦ k ] }

abbrev pub settled : List DriverSetting → DriverOptions → DriverOptions
settled [] o = o
settled (given f v ∷ xs) o = settled xs (assign f v o)
settled (unknown t h ∷ xs) o = settled xs o

-- a value that `--calls` cannot have
abbrev pub no_number : DriverFlag → Text → Bool
no_number calls_flag v = elim (stoi v) [ none ↦ true | some k ↦ false ]
no_number f v = false

-- some `--calls` has no number
abbrev pub unreadable : List DriverSetting → Bool
unreadable [] = false
unreadable (given f v ∷ xs) = no_number f v || unreadable xs
unreadable (unknown t h ∷ xs) = unreadable xs

eat_argument-assign :
    (f : DriverFlag) (v : Text) (o : DriverOptions)
    → eat_argument (spell driver_flag driver_flags (given f v)) o
      ≡ (if no_number f v then none else some (assign f v o))
unfolding eat_argument
eat_argument-assign seeds_flag v o =
    ap (λ ss. some (record o { seeds = o.seeds ++ ss })) (split_lines-pieces [] v)
eat_argument-assign key_flag v o = refl
eat_argument-assign value_flag v o = refl
eat_argument-assign calls_flag v o = by_number (stoi v)
  where
    by_number :
        (number : Option ℤ)
        → ◌≡◌ {A = Option DriverOptions}
            (elim number [ none ↦ none | some k ↦ some (record o { calls = k }) ])
            (if elim number [ none ↦ true | some k ↦ false ]
              then none
              else some (record o { calls = elim number [ none ↦ o.calls | some k ↦ k ] }))
    by_number none = refl
    by_number (some k) = refl

eat_argument-unknown :
    (t : Text) (o : DriverOptions)
    → All (λ f. strip_prefix (driver_flag f) t ≡ none) driver_flags
    → eat_argument t o ≡ some o
unfolding eat_argument
eat_argument-unknown t o (a, (b, (c, (d, end)))) = rw (a, b, c, d) refl

eat_arguments_thrown :
    (t : Text) (ts : List Text) (o : DriverOptions)
    → eat_argument t o ≡ none
    → eat_arguments (t ∷ ts) o ≡ none
unfolding eat_arguments
eat_arguments_thrown t ts o e = rw (eat_arguments, e) refl

eat_arguments_read :
    (t : Text) (ts : List Text) (o o' : DriverOptions)
    → eat_argument t o ≡ some o'
    → eat_arguments (t ∷ ts) o ≡ eat_arguments ts o'
unfolding eat_arguments
eat_arguments_read t ts o o' e = rw (eat_arguments, e) refl

pub eat_arguments-settled :
    (xs : List DriverSetting) (o : DriverOptions)
    → eat_arguments (map (spell driver_flag driver_flags) xs) o
      ≡ (if unreadable xs then none else some (settled xs o))
unfolding eat_arguments
eat_arguments-settled [] o = refl
eat_arguments-settled (unknown t h ∷ xs) o =
    eat_arguments_read t (map (spell driver_flag driver_flags) xs) o o (eat_argument-unknown t o h)
    ∙ eat_arguments-settled xs o
eat_arguments-settled (given f v ∷ xs) o =
    by_value (eat_arguments-settled xs (assign f v o)) (no_number f v) refl
  where
    ts : List Text
    ts = map (spell driver_flag driver_flags) xs

    by_value :
        eat_arguments ts (assign f v o)
          ≡ (if unreadable xs then none else some (settled xs (assign f v o)))
        → (b : Bool) → no_number f v ≡ b
        → eat_arguments (spell driver_flag driver_flags (given f v) ∷ ts) o
          ≡ (if no_number f v || unreadable xs then none else some (settled xs (assign f v o)))
    by_value rest true broken =
        eat_arguments_thrown (spell driver_flag driver_flags (given f v)) ts o
          (eat_argument-assign f v o ∙ rw broken refl)
        ∙ rw broken refl
    by_value rest false whole =
        eat_arguments_read (spell driver_flag driver_flags (given f v)) ts o (assign f v o)
          (eat_argument-assign f v o ∙ rw whole refl)
        ∙ rw whole rest
