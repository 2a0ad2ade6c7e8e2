-- ===== src/ClientTool/Replicas.antt =====
-- src/client.cpp, lines 183-239: the modes that write and read one replica.
use driftstore.Prelude.{pos, [], ◌∷◌, ◌++◌, none, some, if◌then◌else◌}
use driftstore.Text.{codes, c_str}
use driftstore.Clock.{no_clock}
use driftstore.Node.{ReplicateWriteRequest}
use driftstore.Cli.{
  before, behind, parsed, malformed, out_of_range, parse_clock_arg, clock_to_string,
}
use driftstore.Options.{out, err, exits, terminates, bool_text}
use driftstore.ClientTool.Arguments.{Options}
use driftstore.ClientTool.Stubs.{
  responds, fails, Stub, Ended, success, outcome_to_string, failure_line,
}

module _ {World : Type 0} (stub : Stub World) where
  -- the call of `--replicate-write`, once the arguments are read
  unfoldable pub send_replica : Options → ReplicateWriteRequest → World → Ended World
  unfolding failure_line outcome_to_string
  send_replica o request world =
      let (world', reply) = stub.stub_write o.target request world in
      elim reply [
        | responds response ↦ (
          world',
          out (
                codes "replicate-write key="
                ++ request.key
                ++ codes " value="
                ++ request.value
                ++ codes " success="
                ++ bool_text response.success
                ++ codes " outcome="
                ++ outcome_to_string response.outcome
                ++ codes "\n")
              ∷ [],
          success response.success,
        )
        | fails message ↦ (
          world',
          failure_line (codes "replicate-write RPC") o.target (codes " key=" ++ request.key) message
              ∷ [],
          exits (pos 1),
        )
      ]

  unfoldable pub write_replica : Options → World → Ended World
  unfolding before behind send_replica
  write_replica o world = elim (behind b'=' o.rwrite_kv) [
    | none ↦ (
      world,
      err (
            codes "usage: --replicate-write=<key>=<value> (no '=' found in \""
            ++ o.rwrite_kv
            ++ codes "\")\n")
          ∷ [],
      exits (pos 1),
    )
    | some value ↦ elim (parse_clock_arg o.rwrite_clock_str no_clock) [
      | malformed ↦ (
        world,
        err (
              codes "usage: --clock=<node_id>:<counter>[,<node_id>:<counter>...] (malformed: \""
              ++ o.rwrite_clock_str
              ++ codes "\")\n")
            ∷ [],
        exits (pos 1),
      )
      | out_of_range ↦ (world, [], terminates)
      | parsed clock ↦
          send_replica o
            (record {
              key = before b'=' o.rwrite_kv;
              value = value;
              vector_clock = clock;
              hint_for_node_id = none;
            })
            world
    ]
  ]

  unfoldable pub read_replica : Options → World → Ended World
  unfolding failure_line
  read_replica o world =
      let (world', reply) = stub.stub_read o.target o.rread_key world in
      elim reply [
        | responds response ↦ (
          world',
          out (
                codes "replicate-read key="
                ++ o.rread_key
                ++ codes " found="
                ++ bool_text response.found
                ++ codes " value="
                ++ (if response.found then c_str response.value else [])
                ++ codes " clock="
                ++ (if response.found then c_str (clock_to_string response.vector_clock) else [])
                ++ codes "\n")
              ∷ [],
          exits (pos 0),
        )
        | fails message ↦ (
          world',
          failure_line (codes "replicate-read RPC") o.target (codes " key=" ++ o.rread_key) message
              ∷ [],
          exits (pos 1),
        )
      ]
