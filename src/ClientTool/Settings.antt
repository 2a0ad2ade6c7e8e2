-- ===== src/ClientTool/Settings.antt =====
-- src/client.cpp, lines 82-128: the options of the client, by the settings that its arguments spell.
use driftstore.Prelude.{true, List, [], ◌∷◌, map, none, ite, ◌≡◌, refl, ap, ◌∙◌, All}
use driftstore.Text.{Text, codes, text_dec, strip_prefix}
use driftstore.Options.Flags.{Setting, given, unknown, spell}
use driftstore.ClientTool.Arguments.{Options, read_argument, read_arguments}

pub data ClientFlag : Type 0 where
  target_flag self_flag remove_flag write_flag clock_flag read_flag put_flag get_flag : ClientFlag

abbrev pub client_flag : ClientFlag → Text
client_flag target_flag = codes "--target="
client_flag self_flag = codes "--self="
client_flag remove_flag = codes "--remove="
client_flag write_flag = codes "--replicate-write="
client_flag clock_flag = codes "--clock="
client_flag read_flag = codes "--replicate-read="
client_flag put_flag = codes "--put="
client_flag get_flag = codes "--get="

abbrev pub client_flags : List ClientFlag
client_flags =
    target_flag ∷ self_flag ∷ remove_flag ∷ write_flag ∷ clock_flag ∷ read_flag ∷ put_flag
    ∷ get_flag ∷ []

abbrev pub ClientSetting : Type 0
ClientSetting = Setting client_flag client_flags

abbrev pub assign : ClientFlag → Text → Options → Options
assign target_flag v o = record o { target = v }
assign self_flag v o = record o { self = v }
assign remove_flag v o = record o { remove_target = v }
assign write_flag v o = record o { rwrite_kv = v }
assign clock_flag v o = record o { rwrite_clock_str = v }
assign read_flag v o = record o { rread_key = v }
assign put_flag v o = record o { put_kv = v }
assign get_flag v o = record o { get_key = v }

-- Each flag sets its own option, the last one counts; `--status` asks for the status, and what is
-- unknown sets none.
abbrev pub settled : List ClientSetting → Options → Options
settled [] o = o
settled (given f v ∷ xs) o = settled xs (assign f v o)
settled (unknown t h ∷ xs) o =
    settled xs (ite (text_dec t (codes "--status")) (record o { status_mode = true }) o)

read_argument-assign :
    (f : ClientFlag) (v : Text) (o : Options)
    → read_argument (spell client_flag client_flags (given f v)) o ≡ assign f v o
unfolding read_argument
read_argument-assign target_flag v o = refl
read_argument-assign self_flag v o = refl
read_argument-assign remove_flag v o = refl
read_argument-assign write_flag v o = refl
read_argument-assign clock_flag v o = refl
read_argument-assign read_flag v o = refl
read_argument-assign put_flag v o = refl
read_argument-assign get_flag v o = refl

read_argument-unknown :
    (t : Text) (o : Options)
    → All (λ f. strip_prefix (client_flag f) t ≡ none) client_flags
    → read_argument t o ≡ ite (text_dec t (codes "--status")) (record o { status_mode = true }) o
unfolding read_argument
read_argument-unknown t o (a, (b, (c, (d, (e, (f, (g, (h, end)))))))) =
    rw (a, b, c, d, e, f, g, h) refl

pub read_arguments-settled :
    (xs : List ClientSetting) (o : Options)
    → read_arguments (map (spell client_flag client_flags) xs) o ≡ settled xs o
unfolding read_arguments
read_arguments-settled [] o = refl
read_arguments-settled (given f v ∷ xs) o =
    ap (read_arguments (map (spell client_flag client_flags) xs)) (read_argument-assign f v o)
    ∙ read_arguments-settled xs (assign f v o)
read_arguments-settled (unknown t h ∷ xs) o =
    ap (read_arguments (map (spell client_flag client_flags) xs)) (read_argument-unknown t o h)
    ∙ read_arguments-settled xs _
