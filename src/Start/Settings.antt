-- ===== src/Start/Settings.antt =====
-- src/node_main.cpp, lines 55-91: the options of a start, by the settings that its arguments spell.
use driftstore.Prelude.{List, [], ◌∷◌, map, none, ◌≡◌, refl, ap, ◌∙◌, All}
use driftstore.Text.{Text, codes, strip_prefix}
use driftstore.Options.Flags.{Setting, given, unknown, spell}
use driftstore.Start.{StartOptions, start_argument, start_arguments}

pub data StartFlag : Type 0 where
  listen_flag seed_flag gossip_flag probe_flag vnodes_flag n_flag w_flag r_flag : StartFlag

abbrev pub start_flag : StartFlag → Text
start_flag listen_flag = codes "--listen="
start_flag seed_flag = codes "--seed="
start_flag gossip_flag = codes "--gossip-interval="
start_flag probe_flag = codes "--probe-interval="
start_flag vnodes_flag = codes "--vnodes="
start_flag n_flag = codes "--N="
start_flag w_flag = codes "--W="
start_flag r_flag = codes "--R="

abbrev pub start_flags : List StartFlag
start_flags =
    listen_flag ∷ seed_flag ∷ gossip_flag ∷ probe_flag ∷ vnodes_flag ∷ n_flag ∷ w_flag ∷ r_flag ∷ []

abbrev pub StartSetting : Type 0
StartSetting = Setting start_flag start_flags

abbrev pub assign : StartFlag → Text → StartOptions → StartOptions
assign listen_flag v o = record o { listen = v }
assign seed_flag v o = record o { seed_arg = v }
assign gossip_flag v o = record o { gossip_interval_ms = v }
assign probe_flag v o = record o { reachability_interval_ms = v }
assign vnodes_flag v o = record o { vnodes_str = v }
assign n_flag v o = record o { n_str = v }
assign w_flag v o = record o { w_str = v }
assign r_flag v o = record o { r_str = v }

-- each flag sets its own option, the last one counts, and what is unknown sets none
abbrev pub settled : List StartSetting → StartOptions → StartOptions
settled [] o = o
settled (given f v ∷ xs) o = settled xs (assign f v o)
settled (unknown t h ∷ xs) o = settled xs o

start_argument-assign :
    (f : StartFlag) (v : Text) (o : StartOptions)
    → start_argument (spell start_flag start_flags (given f v)) o ≡ assign f v o
unfolding start_argument
start_argument-assign listen_flag v o = refl
start_argument-assign seed_flag v o = refl
start_argument-assign gossip_flag v o = refl
start_argument-assign probe_flag v o = refl
start_argument-assign vnodes_flag v o = refl
start_argument-assign n_flag v o = refl
start_argument-assign w_flag v o = refl
start_argument-assign r_flag v o = refl

start_argument-unknown :
    (t : Text) (o : StartOptions)
    → All (λ f. strip_prefix (start_flag f) t ≡ none) start_flags
    → start_argument t o ≡ o
unfolding start_argument
start_argument-unknown t o (a, (b, (c, (d, (e, (f, (g, (h, end)))))))) =
    rw (a, b, c, d, e, f, g, h) refl

pub start_arguments-settled :
    (xs : List StartSetting) (o : StartOptions)
    → start_arguments (map (spell start_flag start_flags) xs) o ≡ settled xs o
unfolding start_arguments
start_arguments-settled [] o = refl
start_arguments-settled (given f v ∷ xs) o =
    ap (start_arguments (map (spell start_flag start_flags) xs)) (start_argument-assign f v o)
    ∙ start_arguments-settled xs (assign f v o)
start_arguments-settled (unknown t h ∷ xs) o =
    ap (start_arguments (map (spell start_flag start_flags) xs)) (start_argument-unknown t o h)
    ∙ start_arguments-settled xs o
