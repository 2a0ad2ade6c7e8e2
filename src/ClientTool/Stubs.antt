-- ===== src/ClientTool/Stubs.antt =====
-- src/client.cpp and src/driftstore.proto: the calls of the client's stub, and how a mode ends.
use driftstore.Prelude.{pos, Bool, true, false, List, ◌++◌}
use driftstore.Text.{Text, codes, c_str}
use driftstore.Node.{
  WriteOutcome, stored, already_current, PutRequest, PutResponse, GetResponse,
  ReplicateWriteRequest, ReplicateWriteResponse, ReplicateReadResponse,
}
use driftstore.Status.{StatusResponse}
use driftstore.Options.{Line, err, Ending, exits}

-- A call returns a response, or a status that is not OK with its message.
pub data Reply (A : Type 0) : Type 0 where
  responds : A → Reply A
  fails : Text → Reply A

-- The calls of a stub that is connected to a target.
pub record Stub (World : Type 0) : Type 0 where
  pub stub_status : Text → World → World × Reply StatusResponse
  pub stub_remove : Text → Text → World → World × Reply Bool
  pub stub_write : Text → ReplicateWriteRequest → World → World × Reply ReplicateWriteResponse
  pub stub_read : Text → Text → World → World × Reply ReplicateReadResponse
  pub stub_put : Text → PutRequest → World → World × Reply PutResponse
  pub stub_get : Text → Text → World → World × Reply GetResponse
  pub stub_ping : Text → Text → World → World × Reply Text

-- What is left when `main` has ended: the state of the peers, what was written, and the status.
abbrev pub Ended : Type 0 → Type 0
Ended World = World × List Line × Ending

abbrev pub success : Bool → Ending
success true = exits (pos 0)
success false = exits (pos 1)

-- A value outside of the two, which the source prints as UNKNOWN, is not modelled.
unfoldable pub outcome_to_string : WriteOutcome → Text
outcome_to_string stored = codes "STORED"
outcome_to_string already_current = codes "ALREADY_CURRENT"

-- `target=... <field>=... error=...` behind the name of a call that failed
unfoldable pub failure_line : Text → Text → Text → Text → Line
failure_line call target field message = err (
    call
    ++ codes " failed: target="
    ++ target
    ++ field
    ++ codes " error="
    ++ c_str message
    ++ codes "\n")
