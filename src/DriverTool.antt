-- ===== src/DriverTool.antt =====
-- src/driftclient.cpp: the driver that puts one key several times and then gets it.
pub mod Settings
pub mod Pings
pub mod Ends
use driftstore.Prelude.{
  ℕ, zero, suc, ◌+◌, ℤ, pos, pos_part, Bool, true, false, ◌||◌, List, [], ◌∷◌, ◌++◌, Option, none,
  some, if◌then◌else◌, ◌==◌,
}
use driftstore.Text.{Text, codes, c_str, strip_prefix}
use driftstore.Node.{PutResponse, GetResponse}
use driftstore.Membership.{to_string}
use driftstore.Cli.{is_empty, clock_to_string}
use driftstore.Options.{Line, out, err, Ending, exits, terminates, stoi, bool_text}
use driftstore.DriftClient.{Client, Seeds, connect, client_put, client_get}

pub record DriverOptions : Type 0 where
  pub seeds : List Text
  pub key : Text
  pub value : Text
  pub calls : ℤ

abbrev pub driver_defaults : DriverOptions
driver_defaults = record { seeds = []; key = []; value = []; calls = pos 3 }

-- The texts that `getline` gives, the empty ones too; `token` is what the current one has so far.
unfoldable pub split_lines : Text → Text → List Text
split_lines token [] = if is_empty token then [] else token ∷ []
split_lines token (c ∷ cs) =
    let fresh = split_lines [] cs in
    let longer = split_lines (token ++ c ∷ []) cs in if c == b',' then token ∷ fresh else longer

-- One round of the loop over the arguments; `none` is an exception of `stoi`.
unfoldable pub eat_argument : Text → DriverOptions → Option DriverOptions
unfolding strip_prefix split_lines stoi
eat_argument arg o = elim (strip_prefix (codes "--seeds=") arg) [
  | some v ↦ some (record o { seeds = o.seeds ++ split_lines [] v })
  | none ↦ elim (strip_prefix (codes "--key=") arg) [
    | some v ↦ some (record o { key = v })
    | none ↦ elim (strip_prefix (codes "--value=") arg) [
      | some v ↦ some (record o { value = v })
      | none ↦ elim (strip_prefix (codes "--calls=") arg) [
        | some v ↦ elim (stoi v) [ none ↦ none | some k ↦ some (record o { calls = k }) ]
        | none ↦ some o
      ]
    ]
  ]
]

unfoldable pub eat_arguments : List Text → DriverOptions → Option DriverOptions
unfolding eat_argument
eat_arguments [] o = some o
eat_arguments (arg ∷ args) o = elim (eat_argument arg o) [
  | none ↦ none
  | some o' ↦ eat_arguments args o'
]

abbrev pub no_seeds : List Text → Bool
no_seeds [] = true
no_seeds (s ∷ ss) = false

unfoldable pub put_line : ℕ → PutResponse → Line
put_line i result = out (
    codes "call="
    ++ to_string i
    ++ codes " success="
    ++ bool_text result.success
    ++ codes " acks="
    ++ to_string result.acks
    ++ codes " context="
    ++ c_str (clock_to_string result.context)
    ++ codes "\n")

unfoldable pub get_line : GetResponse → Line
get_line result = out (
    codes "get found="
    ++ bool_text result.found
    ++ codes " value="
    ++ c_str result.value
    ++ codes " responses="
    ++ to_string result.responses
    ++ codes " context="
    ++ c_str (clock_to_string result.context)
    ++ codes "\n")

abbrev pub driver_usage : Text → Line
driver_usage program =
    err (codes "usage: " ++ program ++ codes " --seeds=A,B,C --key=k --value=v [--calls=N]\n")

-- The state of the nodes, what was written, and the end.
abbrev pub Ended : Type 0 → Type 0
Ended World = World × List Line × Ending

-- `none` is a division by zero in the client's rotation.
module _ {World : Type 0} (seeds : Seeds World) where
  -- the calls that are left, from call `i` on
  unfoldable pub put_calls :
      Text → Text → ℕ → ℕ → World → Client → Option (World × Client × List Line)
  unfolding put_line
  put_calls key value zero i world c = some (world, c, [])
  put_calls key value (suc left) i world c = elim (client_put seeds key value world c) [
    | none ↦ none
    | some (world', c', result) ↦ elim (put_calls key value left (i + 1) world' c') [
      | none ↦ none
      | some (world'', c'', lines) ↦ some (world'', c'', put_line i result ∷ lines)
    ]
  ]

  -- what the driver does with a client
  unfoldable pub drive : DriverOptions → World → Client → Option (Ended World)
  unfolding put_calls get_line
  drive o world c = elim (put_calls o.key o.value (pos_part o.calls) 0 world c) [
    | none ↦ none
    | some (world', c', lines) ↦ elim (client_get seeds o.key world' c') [
      | none ↦ none
      | some (world'', c'', result) ↦ some (
        world'',
        out (codes "connect result=succeeded\n") ∷ lines ++ get_line result ∷ [],
        exits (pos 0),
      )
    ]
  ]

  unfoldable pub driver_run : Text → DriverOptions → World → Option (Ended World)
  unfolding connect drive
  driver_run program o world =
      if no_seeds o.seeds || is_empty o.key
      then some (world, driver_usage program ∷ [], exits (pos 1))
      else let (world', client) = connect seeds o.seeds world in
        elim client [
          | none ↦ some (world', out (codes "connect result=failed\n") ∷ [], exits (pos 1))
          | some c ↦ drive o world' c
        ]

  unfoldable pub driver_main : Text → List Text → World → Option (Ended World)
  unfolding eat_arguments driver_run
  driver_main program arguments world = elim (eat_arguments arguments driver_defaults) [
    | none ↦ some (world, [], terminates)
    | some o ↦ driver_run program o world
  ]
