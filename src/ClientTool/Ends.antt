-- ===== src/ClientTool/Ends.antt =====
-- How the client ends, in every mode.
use driftstore.Prelude.{
  ◌≡◌, refl, true, false, List, arith, Bool-cases, inl, inr, ap, sym, ◌∙◌, pos, Option, none, some,
  [], ◌∷◌, ◌==◌, Option-cases, subst, map,
}
use driftstore.Text.{Text}
use driftstore.Clock.{no_clock}
use driftstore.Node.{PutRequest, ReplicateWriteRequest}
use driftstore.Cli.{before, behind, parse_clock_arg}
use driftstore.Options.Flags.{spell, settings_of}
use driftstore.ClientTool.Settings.{
  ClientSetting, client_flag, client_flags, settled, read_arguments-settled,
}
use driftstore.Options.{exits}
use driftstore.ClientTool.{is_unusable, run_mode, client_main}
use driftstore.ClientTool.Arguments.{Options, usage_lines, no_options, read_arguments}
use driftstore.ClientTool.Stubs.{Stub}
use driftstore.ClientTool.Replicas.{send_replica, write_replica, read_replica}
use driftstore.ClientTool.Calls.{
  query_status, remove_member, send_put, put_value, get_value, ping_target,
}
use driftstore.ClientTool.Plans.{
  ask_status, ask_remove, ask_write, ask_read, ask_put, ask_get, ask_ping, asks, refuses,
  plan_write, plan_put, plan_mode, plan_of, carry_out, summary, key_value, count_out,
}

-- a pair as the source takes it apart
split_pair : Text → Option (Text × Text)
split_pair kv = elim (behind b'=' kv) [ none ↦ none | some value ↦ some (before b'=' kv, value) ]

split_pair-some :
    (kv value : Text) → behind b'=' kv ≡ some value → split_pair kv ≡ some (before b'=' kv, value)
unfolding split_pair
split_pair-some kv value e = rw (split_pair, e) refl

split_pair-none : (kv : Text) → behind b'=' kv ≡ none → split_pair kv ≡ none
unfolding split_pair
split_pair-none kv e = rw (split_pair, e) refl

key_value-split_pair : (kv : Text) → key_value kv ≡ split_pair kv
unfolding split_pair before behind
key_value-split_pair [] = refl
key_value-split_pair (c ∷ cs) = elim (Bool-cases (c == b'=')) [
  | inl equals ↦
      let key : before b'=' (c ∷ cs) ≡ [] = rw equals refl in
      let value : behind b'=' (c ∷ cs) ≡ some cs = rw equals refl in
      let here : key_value (c ∷ cs) ≡ some ([], cs) = rw equals refl in
      here ∙ ap (λ k. some (k, cs)) (sym key) ∙ sym (split_pair-some (c ∷ cs) cs value)
  | inr other ↦
      let key : before b'=' (c ∷ cs) ≡ c ∷ before b'=' cs = rw other refl in
      let same : behind b'=' (c ∷ cs) ≡ behind b'=' cs = rw other refl in
      let rest = key_value-split_pair cs in
      elim (Option-cases (behind b'=' cs)) [
        | inl nowhere ↦
            let none_there : key_value cs ≡ none = rest ∙ split_pair-none cs nowhere in
            let here : key_value (c ∷ cs) ≡ none = rw (other, none_there) refl in
            here ∙ sym (split_pair-none (c ∷ cs) (same ∙ nowhere))
        | inr (value, there) ↦
            let split : key_value cs ≡ some (before b'=' cs, value) =
              rest ∙ split_pair-some cs value there in
            let here : key_value (c ∷ cs) ≡ some (c ∷ before b'=' cs, value) =
              rw (other, split) refl in
            here
            ∙ ap (λ k. some (k, value)) (sym key)
            ∙ sym (split_pair-some (c ∷ cs) value (same ∙ there))
      ]
]

module _ {World : Type 0} (stub : Stub World) (o : Options) (world : World) where
  query_status-carry_out :
      summary (query_status stub o world) ≡ carry_out stub o.target (asks ask_status) world
  unfolding query_status summary carry_out count_out
  query_status-carry_out = ground arith

  remove_member-carry_out :
      summary (remove_member stub o world)
      ≡ carry_out stub o.target (asks (ask_remove o.remove_target)) world
  unfolding remove_member summary carry_out count_out
  remove_member-carry_out = ground arith

  send_replica-carry_out :
      (request : ReplicateWriteRequest)
      → summary (send_replica stub o request world)
        ≡ carry_out stub o.target (asks (ask_write request)) world
  unfolding send_replica summary carry_out count_out
  send_replica-carry_out request = ground arith

  write_replica_split :
      summary (write_replica stub o world)
      ≡ carry_out stub o.target
          (plan_write (split_pair o.rwrite_kv) (parse_clock_arg o.rwrite_clock_str no_clock))
          world
  unfolding write_replica split_pair plan_write summary carry_out count_out
  write_replica_split =
      ground (arith, λ (request : ReplicateWriteRequest). send_replica-carry_out request)

  write_replica-carry_out :
      summary (write_replica stub o world)
      ≡ carry_out stub o.target
          (plan_write (key_value o.rwrite_kv) (parse_clock_arg o.rwrite_clock_str no_clock))
          world
  write_replica-carry_out =
      write_replica_split
      ∙ ap
          (λ p.
            carry_out stub o.target (plan_write p (parse_clock_arg o.rwrite_clock_str no_clock))
              world)
          (sym (key_value-split_pair o.rwrite_kv))

  read_replica-carry_out :
      summary (read_replica stub o world)
      ≡ carry_out stub o.target (asks (ask_read o.rread_key)) world
  unfolding read_replica summary carry_out count_out
  read_replica-carry_out = ground arith

  send_put-carry_out :
      (request : PutRequest)
      → summary (send_put stub o request world)
        ≡ carry_out stub o.target (asks (ask_put request)) world
  unfolding send_put summary carry_out count_out
  send_put-carry_out request = ground arith

  get_value-carry_out :
      summary (get_value stub o world) ≡ carry_out stub o.target (asks (ask_get o.get_key)) world
  unfolding get_value summary carry_out count_out
  get_value-carry_out = ground arith

  ping_target-carry_out :
      summary (ping_target stub o world) ≡ carry_out stub o.target (asks (ask_ping o.self)) world
  unfolding ping_target summary carry_out count_out
  ping_target-carry_out = ground arith

  put_value_split :
      summary (put_value stub o world)
      ≡ carry_out stub o.target (plan_put (split_pair o.put_kv)) world
  unfolding put_value split_pair plan_put summary carry_out count_out
  put_value_split = ground (arith, λ (request : PutRequest). send_put-carry_out request)

  put_value-carry_out :
      summary (put_value stub o world)
      ≡ carry_out stub o.target (plan_put (key_value o.put_kv)) world
  put_value-carry_out =
      put_value_split
      ∙ ap (λ p. carry_out stub o.target (plan_put p) world) (sym (key_value-split_pair o.put_kv))

  -- in each mode, once the options can be used
  run_mode-carry_out :
      is_unusable o ≡ false
      → summary (run_mode stub o world) ≡ carry_out stub o.target (plan_mode o) world
  unfolding run_mode plan_mode is_unusable
  run_mode-carry_out h = ground (
    arith, query_status-carry_out, remove_member-carry_out, write_replica-carry_out,
    read_replica-carry_out, put_value-carry_out, get_value-carry_out, ping_target-carry_out,
  )

  unusable-refuses : is_unusable o ≡ true → plan_of o ≡ refuses
  unfolding is_unusable plan_of plan_mode
  unusable-refuses h = ground arith

  usable-plan_mode : is_unusable o ≡ false → plan_of o ≡ plan_mode o
  unfolding is_unusable plan_of
  usable-plan_mode h = ground arith

  usage-refuses :
      (program : Text)
      → summary (world, usage_lines program, exits (pos 1)) ≡ carry_out stub o.target refuses world
  unfolding summary carry_out usage_lines count_out
  usage-refuses program = refl

client_main_options-carry_out :
    {World : Type 0} (stub : Stub World) (program : Text) (arguments : List Text) (world : World)
    → let o = read_arguments arguments no_options in
      summary (client_main stub program arguments world) ≡ carry_out stub o.target (plan_of o) world
unfolding client_main
client_main_options-carry_out stub program arguments world =
    let o = read_arguments arguments no_options in
    elim (Bool-cases (is_unusable o)) [
      | inl bad ↦
          rw (bad, client_main)
            (usage-refuses stub o world program
              ∙ ap (λ p. carry_out stub o.target p world) (sym (unusable-refuses stub o world bad)))
      | inr good ↦
          rw (good, client_main)
            (run_mode-carry_out stub o world good
              ∙ ap (λ p. carry_out stub o.target p world)
                  (sym (usable-plan_mode stub o world good)))
    ]

-- The arguments of the client are flags with values, `--status`, and arguments that begin with no
-- flag, which are passed over; each flag sets its own option, and of two of one flag the later
-- counts. The client does what the options so set ask for, apart from the texts that it prints: it
-- makes the one call of the first mode that is given, of the status, a removal, a write to a replica,
-- a read of one, a put, a get and a ping, with the names, the key and the value, split at the first
-- `=`, that the options hold and with the clock that `parseClockArg` makes of its option, and no
-- other; it ends with 0 where the node agrees, 1 where it declines or the call fails, and -1 where a
-- ping fails; it writes one line to standard output where a call other than a ping is answered, and
-- none otherwise. Where there is no target, no mode and no name, no `=` in a pair, or a clock that
-- `parseClockArg` finds malformed, it makes no call and ends with 1; a count of a clock that
-- `parseClockArg` finds beyond 64 bits ends it by an exception before any call.
pub client_main-carry_out :
    {World : Type 0} (stub : Stub World) (program : Text) (arguments : List Text) (world : World)
    → (xs : List ClientSetting) × (map (spell client_flag client_flags) xs ≡ arguments)
      × (summary (client_main stub program arguments world)
          ≡ carry_out stub (settled xs no_options).target (plan_of (settled xs no_options)) world)
client_main-carry_out stub program arguments world =
    let (xs, spelled) = settings_of client_flag client_flags arguments in
    (
      xs,
      spelled,
      subst
          (λ o.
            summary (client_main stub program arguments world)
            ≡ carry_out stub o.target (plan_of o) world)
          (ap (λ a. read_arguments a no_options) (sym spelled)
            ∙ read_arguments-settled xs no_options)
          (client_main_options-carry_out stub program arguments world),
    )
