-- ===== src/ClientTool.antt =====
-- src/client.cpp, lines 21-27 and 82-307: the command line client, from its arguments to the call
-- that it makes, the lines that it writes and its exit status.
pub mod Arguments
pub mod Stubs
pub mod Calls
pub mod Replicas
pub mod Plans
pub mod Settings
pub mod Ends
use driftstore.Prelude.{
  ℕ, ℤ, pos, negsuc, Bool, true, false, not, ◌&&◌, ◌||◌, List, [], ◌∷◌, ◌++◌, Option, none, some,
  if◌then◌else◌,
}
use driftstore.Text.{Text, codes}
use driftstore.ClientTool.Arguments.{Options, usage_lines, no_options, read_arguments}
use driftstore.ClientTool.Stubs.{Stub, Ended}
use driftstore.ClientTool.Replicas.{write_replica, read_replica}
use driftstore.ClientTool.Calls.{query_status, remove_member, put_value, get_value, ping_target}
use driftstore.Cli.{is_empty}
use driftstore.Options.{Line, exits}

-- Neither a mode nor a name of the client's own, or no target.
unfoldable pub is_unusable : Options → Bool
is_unusable o =
    is_empty o.target
    || (not o.status_mode
        && is_empty o.remove_target
        && is_empty o.rwrite_kv
        && is_empty o.rread_key
        && is_empty o.put_kv
        && is_empty o.get_key
        && is_empty o.self)

module _ {World : Type 0} (stub : Stub World) where
  -- the branches of `main` in their order
  unfoldable pub run_mode : Options → World → Ended World
  run_mode o world =
      if o.status_mode
      then query_status stub o world
      else if not (is_empty o.remove_target)
      then remove_member stub o world
      else if not (is_empty o.rwrite_kv)
      then write_replica stub o world
      else if not (is_empty o.rread_key)
      then read_replica stub o world
      else if not (is_empty o.put_kv)
      then put_value stub o world
      else if not (is_empty o.get_key)
      then get_value stub o world
      else ping_target stub o world

  unfoldable pub client_main : Text → List Text → World → Ended World
  unfolding is_unusable run_mode
  client_main program arguments world =
      let o = read_arguments arguments no_options in
      if is_unusable o then (world, usage_lines program, exits (pos 1)) else run_mode o world
