-- ===== src/ClientTool/Plans.antt =====
-- What the options of the client ask for, apart from how the client goes about it: a call at most,
-- and how the process ends by what the call gives.
use driftstore.Prelude.{
  ℕ, suc, ℤ, pos, negsuc, Bool, true, false, List, [], ◌∷◌, Option, none, some, if◌then◌else◌, ◌==◌,
}
use driftstore.Text.{Text}
use driftstore.Clock.{no_clock}
use driftstore.Node.{PutRequest, ReplicateWriteRequest}
use driftstore.Cli.{is_empty, ParsedClock, parsed, malformed, out_of_range, parse_clock_arg}
use driftstore.Options.{Line, out, err, event, Ending, exits, terminates}
use driftstore.ClientTool.Arguments.{Options}
use driftstore.ClientTool.Stubs.{responds, fails, Stub, Ended}

pub data Call : Type 0 where
  ask_status : Call
  ask_remove : Text → Call
  ask_write : ReplicateWriteRequest → Call
  ask_read : Text → Call
  ask_put : PutRequest → Call
  ask_get : Text → Call
  ask_ping : Text → Call

pub data Plan : Type 0 where
  asks : Call → Plan
  refuses throws : Plan

-- `<key>=<value>`, at the first `=`
abbrev pub key_value : Text → Option (Text × Text)
key_value [] = none
key_value (c ∷ cs) =
    let rest = key_value cs in
    if c == b'='
    then some ([], cs)
    else elim rest [ none ↦ none | some (key, value) ↦ some (c ∷ key, value) ]

unfoldable pub plan_write : Option (Text × Text) → ParsedClock → Plan
plan_write none clock = refuses
plan_write (some (key, value)) malformed = refuses
plan_write (some (key, value)) out_of_range = throws
plan_write (some (key, value)) (parsed clock) =
    asks (
      ask_write
        (record { key = key; value = value; vector_clock = clock; hint_for_node_id = none }))

unfoldable pub plan_put : Option (Text × Text) → Plan
plan_put none = refuses
plan_put (some (key, value)) =
    asks (ask_put (record { key = key; value = value; context = no_clock; forwarded = false }))

-- The first mode that is given, of the status, a removal, a write, a read, a put and a get; a ping
-- by the client's own name where there is none.
unfoldable pub plan_mode : Options → Plan
unfolding plan_write plan_put
plan_mode o = if o.status_mode then asks ask_status else elim o.remove_target [
  | c ∷ cs ↦ asks (ask_remove (c ∷ cs))
  | [] ↦ elim o.rwrite_kv [
    | c ∷ cs ↦ plan_write (key_value (c ∷ cs)) (parse_clock_arg o.rwrite_clock_str no_clock)
    | [] ↦ elim o.rread_key [
      | c ∷ cs ↦ asks (ask_read (c ∷ cs))
      | [] ↦ elim o.put_kv [
        | c ∷ cs ↦ plan_put (key_value (c ∷ cs))
        | [] ↦ elim o.get_key [
          | c ∷ cs ↦ asks (ask_get (c ∷ cs))
          | [] ↦ elim o.self [ c ∷ cs ↦ asks (ask_ping (c ∷ cs)) | [] ↦ refuses ]
        ]
      ]
    ]
  ]
]

unfoldable pub plan_of : Options → Plan
unfolding plan_mode
plan_of o = if is_empty o.target then refuses else plan_mode o

-- A node agrees to a call, declines it, or the call fails.
pub data Reaction : Type 0 where
  agrees declines silent : Reaction

abbrev pub consent : Bool → Reaction
consent true = agrees
consent false = declines

unfoldable pub exit_status : Call → Reaction → ℤ
exit_status call agrees = pos 0
exit_status call declines = pos 1
exit_status (ask_ping self) silent = negsuc 0
exit_status call silent = pos 1

-- how many lines go to standard output
unfoldable pub printed : Call → Reaction → ℕ
printed (ask_ping self) reaction = 0
printed call silent = 0
printed call reaction = 1

module _ {World : Type 0} (stub : Stub World) where
  unfoldable pub perform : Text → Call → World → World × Reaction
  perform target ask_status world =
      let (w, r) = stub.stub_status target world in
      (w, elim r [ responds x ↦ agrees | fails m ↦ silent ])
  perform target (ask_remove id) world =
      let (w, r) = stub.stub_remove target id world in
      (w, elim r [ responds x ↦ consent x | fails m ↦ silent ])
  perform target (ask_write request) world =
      let (w, r) = stub.stub_write target request world in
      (w, elim r [ responds x ↦ consent x.success | fails m ↦ silent ])
  perform target (ask_read key) world =
      let (w, r) = stub.stub_read target key world in
      (w, elim r [ responds x ↦ agrees | fails m ↦ silent ])
  perform target (ask_put request) world =
      let (w, r) = stub.stub_put target request world in
      (w, elim r [ responds x ↦ consent x.success | fails m ↦ silent ])
  perform target (ask_get key) world =
      let (w, r) = stub.stub_get target key world in
      (w, elim r [ responds x ↦ agrees | fails m ↦ silent ])
  perform target (ask_ping self) world =
      let (w, r) = stub.stub_ping target self world in
      (w, elim r [ responds x ↦ agrees | fails m ↦ silent ])

  -- the state of the peers, the number of lines on standard output, and the end
  unfoldable pub carry_out : Text → Plan → World → World × ℕ × Ending
  unfolding perform exit_status printed
  carry_out target refuses world = (world, 0, exits (pos 1))
  carry_out target throws world = (world, 0, terminates)
  carry_out target (asks call) world =
      let (world', reaction) = perform target call world in
      (world', printed call reaction, exits (exit_status call reaction))

-- the lines that go to standard output
unfoldable pub count_out : List Line → ℕ
count_out [] = 0
count_out (out t ∷ lines) = suc (count_out lines)
count_out (err t ∷ lines) = count_out lines
count_out (event e n x ∷ lines) = count_out lines

unfoldable pub summary : {World : Type 0} → Ended World → World × ℕ × Ending
unfolding count_out
summary (world, lines, ending) = (world, count_out lines, ending)
