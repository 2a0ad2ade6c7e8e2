-- ===== src/ClientTool/Calls.antt =====
-- src/client.cpp, lines 143-181 and 241-307: the modes of the client but those of one replica, each
-- with the call that it makes.
use driftstore.Prelude.{pos, negsuc, false, [], ◌∷◌, ◌++◌, none, some, if◌then◌else◌}
use driftstore.Text.{codes, c_str}
use driftstore.Clock.{no_clock}
use driftstore.Node.{PutRequest}
use driftstore.Membership.{to_string}
use driftstore.Logging.{remove_init, remove_failed, ping_sent, ping_succeeded, ping_failed}
use driftstore.Cli.{before, behind}
use driftstore.Options.{out, err, event, exits, bool_text}
use driftstore.ClientTool.Arguments.{Options}
use driftstore.ClientTool.Stubs.{responds, fails, Stub, Ended, success, failure_line}

module _ {World : Type 0} (stub : Stub World) where
  unfoldable pub query_status : Options → World → Ended World
  unfolding failure_line
  query_status o world =
      let (world', reply) = stub.stub_status o.target world in
      elim reply [
        | responds response ↦ (
          world',
          out (
                codes "node="
                ++ c_str response.node_id
                ++ codes " "
                ++ c_str response.table_dump
                ++ codes "\n"
                ++ c_str response.ring_dump
                ++ codes "\n")
              ∷ [],
          exits (pos 0),
        )
        | fails message ↦
            (world', failure_line (codes "status query") o.target [] message ∷ [], exits (pos 1))
      ]

  unfoldable pub remove_member : Options → World → Ended World
  unfolding failure_line
  remove_member o world =
      let (world', reply) = stub.stub_remove o.target o.remove_target world in
      elim reply [
        | responds accepted ↦ (
          world',
          event remove_init o.remove_target []
              ∷ out (
                  codes "remove target="
                  ++ o.remove_target
                  ++ codes " accepted="
                  ++ bool_text accepted
                  ++ codes "\n")
              ∷ [],
          success accepted,
        )
        | fails message ↦ (
          world',
          event remove_init o.remove_target []
              ∷ event remove_failed o.remove_target []
              ∷ failure_line (codes "remove RPC") o.target
                  (codes " removed_node_id=" ++ o.remove_target) message
              ∷ [],
          exits (pos 1),
        )
      ]

  -- the call of `--put`, once the argument is read
  unfoldable pub send_put : Options → PutRequest → World → Ended World
  unfolding failure_line
  send_put o request world =
      let (world', reply) = stub.stub_put o.target request world in
      elim reply [
        | responds response ↦ (
          world',
          out (
                codes "put key="
                ++ request.key
                ++ codes " value="
                ++ request.value
                ++ codes " success="
                ++ bool_text response.success
                ++ codes " acks="
                ++ to_string response.acks
                ++ codes "\n")
              ∷ [],
          success response.success,
        )
        | fails message ↦ (
          world',
          failure_line (codes "put RPC") o.target (codes " key=" ++ request.key) message ∷ [],
          exits (pos 1),
        )
      ]

  unfoldable pub put_value : Options → World → Ended World
  unfolding before behind send_put
  put_value o world = elim (behind b'=' o.put_kv) [
    | none ↦ (
      world,
      err (codes "usage: --put=<key>=<value> (no '=' found in \"" ++ o.put_kv ++ codes "\")\n")
          ∷ [],
      exits (pos 1),
    )
    | some value ↦
        send_put o
          (record {
            key = before b'=' o.put_kv;
            value = value;
            context = no_clock;
            forwarded = false;
          })
          world
  ]

  unfoldable pub get_value : Options → World → Ended World
  unfolding failure_line
  get_value o world =
      let (world', reply) = stub.stub_get o.target o.get_key world in
      elim reply [
        | responds response ↦ (
          world',
          out (
                codes "get key="
                ++ o.get_key
                ++ codes " found="
                ++ bool_text response.found
                ++ codes " value="
                ++ (if response.found then c_str response.value else [])
                ++ codes " responses="
                ++ to_string response.responses
                ++ codes "\n")
              ∷ [],
          exits (pos 0),
        )
        | fails message ↦ (
          world',
          failure_line (codes "get RPC") o.target (codes " key=" ++ o.get_key) message ∷ [],
          exits (pos 1),
        )
      ]

  unfoldable pub ping_target : Options → World → Ended World
  ping_target o world =
      let (world', reply) = stub.stub_ping o.target o.self world in
      let sent = event ping_sent o.self (codes "target=" ++ o.target) in
      elim reply [
        | responds responder ↦ (
          world',
          sent ∷ event ping_succeeded o.self (codes "responder=" ++ responder) ∷ [],
          exits (pos 0),
        )
        | fails message ↦ (
          world',
          sent
              ∷ event ping_failed o.self (codes "target=" ++ o.target ++ codes " error=" ++ message)
              ∷ [],
          exits (negsuc 0),
        )
      ]
