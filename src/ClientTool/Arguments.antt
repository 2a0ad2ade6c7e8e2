-- ===== src/ClientTool/Arguments.antt =====
-- src/client.cpp, lines 82-141: the options of the client and its usage text.
use driftstore.Prelude.{Bool, true, false, List, [], ◌∷◌, ◌++◌, none, some, ite}
use driftstore.Text.{Text, codes, text_dec, strip_prefix}
use driftstore.Options.{Line, err}

pub record Options : Type 0 where
  pub target : Text
  pub self : Text
  pub remove_target : Text
  pub rwrite_kv : Text
  pub rwrite_clock_str : Text
  pub rread_key : Text
  pub put_kv : Text
  pub get_key : Text
  pub status_mode : Bool

abbrev pub no_options : Options
no_options = record {
  target = [];
  self = [];
  remove_target = [];
  rwrite_kv = [];
  rwrite_clock_str = [];
  rread_key = [];
  put_kv = [];
  get_key = [];
  status_mode = false;
}

-- One round of the loop over the arguments; an argument that is not known is passed over.
unfoldable pub read_argument : Text → Options → Options
unfolding strip_prefix text_dec
read_argument arg o = elim (strip_prefix (codes "--target=") arg) [
  | some v ↦ record o { target = v }
  | none ↦ elim (strip_prefix (codes "--self=") arg) [
    | some v ↦ record o { self = v }
    | none ↦ elim (strip_prefix (codes "--remove=") arg) [
      | some v ↦ record o { remove_target = v }
      | none ↦ elim (strip_prefix (codes "--replicate-write=") arg) [
        | some v ↦ record o { rwrite_kv = v }
        | none ↦ elim (strip_prefix (codes "--clock=") arg) [
          | some v ↦ record o { rwrite_clock_str = v }
          | none ↦ elim (strip_prefix (codes "--replicate-read=") arg) [
            | some v ↦ record o { rread_key = v }
            | none ↦ elim (strip_prefix (codes "--put=") arg) [
              | some v ↦ record o { put_kv = v }
              | none ↦ elim (strip_prefix (codes "--get=") arg) [
                | some v ↦ record o { get_key = v }
                | none ↦ ite (text_dec arg (codes "--status")) (record o { status_mode = true }) o
              ]
            ]
          ]
        ]
      ]
    ]
  ]
]

unfoldable pub read_arguments : List Text → Options → Options
unfolding read_argument
read_arguments [] o = o
read_arguments (arg ∷ args) o = read_arguments args (read_argument arg o)

usage_line : Text → Text → Text → Text
usage_line lead program rest = lead ++ program ++ codes " --target=<address> " ++ rest ++ codes "\n"

-- `program` is `argv[0]`.
unfoldable pub usage_lines : Text → List Line
unfolding usage_line
usage_lines program =
    err (
      usage_line (codes "usage: ") program (codes "--self=<node_id>")
      ++ usage_line (codes "       ") program (codes "--status")
      ++ usage_line (codes "       ") program (codes "--remove=<node_id>")
      ++ usage_line (codes "       ") program (
          codes
            "--replicate-write=<key>=<value> [--clock=<node_id>:<counter>[,<node_id>:<counter>...]]")
      ++ usage_line (codes "       ") program (codes "--replicate-read=<key>")
      ++ usage_line (codes "       ") program (codes "--put=<key>=<value>")
      ++ usage_line (codes "       ") program (codes "--get=<key>"))
    ∷ []
