-- ===== src/Tests/Tools.antt =====
-- The dumps and the command lines.
use driftstore.Prelude.{
  map, Bool, ℕ, suc, pos, negsuc, true, false, [], ◌∷◌, List, Option, none, some, ◌≡◌, refl, ite,
  arith,
}
use driftstore.Text.{Text, text_dec, text_lt, codes}
use driftstore.Assoc.{find, IsMap}
use driftstore.Clock.{no_clock}
use driftstore.Node.{MembershipTable, stored}
use driftstore.Membership.{digits}
use driftstore.Options.{out, exits}
use driftstore.Status.{dump_table, dump_ring}
use driftstore.Status.Dump.{dump_table_same}
use driftstore.DriftClient.{Seeds, any_alive, client_put, client_get}
use driftstore.ClientTool.{client_main}
use driftstore.ClientTool.Arguments.{no_options, read_arguments}
use driftstore.ClientTool.Stubs.{Stub, responds, fails}
use driftstore.ClientTool.Calls.{put_value, remove_member, ping_target}
use driftstore.ClientTool.Plans.{plan_of, carry_out, summary, count_out}
use driftstore.ClientTool.Ends.{client_main-carry_out}
use driftstore.DriverTool.{Ended, driver_defaults, driver_main}
use driftstore.Options.Flags.{spell}
use driftstore.ClientTool.Settings.{
  ClientSetting, client_flag, client_flags, settled as client_settled,
}
use driftstore.DriverTool.Settings.{
  DriverSetting, driver_flag, driver_flags, unreadable, settled as driver_settled,
}
use driftstore.DriverTool.Pings.{Pinged}
use driftstore.DriverTool.Ends.{driver_end, driver_main-Ends}
use driftstore.Tests.Samples.{node_a, node_b, entry_a, entry_b, sample, sample_table-IsMap}

-- the table of `a`, its entries the other way round
abbrev swapped : MembershipTable
swapped = (node_b, entry_b) ∷ (node_a, entry_a) ∷ []

swapped-IsMap : IsMap swapped
unfolding find text_dec
swapped-IsMap = (refl, (refl, tt))

swapped-same : (n : Text) → find n sample.table ≡ find n swapped
unfolding find text_dec
swapped-same n = ground arith

printed_table :
    dump_table swapped ≡ some (codes "table_size=2 entries=[a:UP:w=a:t=50,b:UP:w=b:t=60]")
unfolding dump_table digits text_lt find text_dec
printed_table = refl

printed_ring : dump_ring sample.ring ≡ codes "ring_size=3 tokens=[10:a,20:b,30:a]"
unfolding dump_ring digits
printed_ring = refl

dump_table_same_example :
    (out : Text) × (dump_table sample.table ≡ some out) × (dump_table swapped ≡ some out)
dump_table_same_example =
    dump_table_same sample.table swapped sample_table-IsMap swapped-IsMap swapped-same

-- a node that stores what it is sent and counts the calls
abbrev stub : Stub ℕ
stub = record {
  stub_status = λ target calls. (suc calls, fails (codes "down"));
  stub_remove = λ target id calls. (suc calls, responds false);
  stub_write =
      λ target request calls. (suc calls, responds (record { success = true; outcome = stored }));
  stub_read = λ target key calls.
      (suc calls, responds (record { found = false; value = []; vector_clock = no_clock }));
  stub_put = λ target request calls.
      (suc calls, responds (record { success = true; acks = 2; context = no_clock }));
  stub_get = λ target key calls. (
    suc calls,
    responds (record { found = false; value = []; responses = 2; context = no_clock }),
  );
  stub_ping = λ target self calls. (suc calls, fails (codes "down"));
}

abbrev put_arguments : List Text
put_arguments = codes "--target=h" ∷ codes "--put=k=v" ∷ []

client_put_run :
    client_main stub (codes "client") put_arguments 0
    ≡ (1, out (codes "put key=k value=v success=true acks=2\n") ∷ [], exits (pos 0))
unfolding client_main read_arguments digits put_value
client_put_run = refl

-- `--put` without `=`: no call
client_put_refused :
    summary (client_main stub (codes "client") (codes "--target=h" ∷ codes "--put=kv" ∷ []) 0)
    ≡ (0, 0, exits (pos 1))
unfolding client_main read_arguments summary put_value
client_put_refused = refl

-- the removal is asked for first, and declined
client_remove_run :
    summary (
      client_main stub (codes "client") (codes "--remove=b" ∷ codes "--target=h" ∷ put_arguments) 0)
    ≡ (1, 1, exits (pos 1))
unfolding client_main read_arguments summary remove_member
client_remove_run = refl

client_ping_run :
    summary (client_main stub (codes "client") (codes "--target=h" ∷ codes "--self=c" ∷ []) 0)
    ≡ (1, 0, exits (negsuc 0))
unfolding client_main read_arguments summary ping_target
client_ping_run = refl

client_main-carry_out_example :
    (xs : List ClientSetting) × (map (spell client_flag client_flags) xs ≡ put_arguments)
    × (summary (client_main stub (codes "client") put_arguments 0)
        ≡ carry_out stub
            (client_settled xs no_options).target
            (plan_of (client_settled xs no_options))
            0)
client_main-carry_out_example = client_main-carry_out stub (codes "client") put_arguments 0

-- two seeds, of which `b` alone answers
abbrev seeds : Seeds ℕ
seeds = record {
  seed_ping = λ addr calls. (suc calls, ite (text_dec addr node_b) true false);
  seed_put = λ addr req calls. (suc calls, none);
  seed_get = λ addr key calls. (suc calls, none);
}

abbrev driver_arguments : List Text
driver_arguments = codes "--seeds=a,b" ∷ codes "--key=k" ∷ codes "--calls=2" ∷ []

calls_of : Option (Ended ℕ) → ℕ
calls_of none = 0
calls_of (some r) = r.0

-- two pings, two puts and a get at two seeds each
driver_run_counts : calls_of (driver_main seeds (codes "driver") driver_arguments 0) ≡ 8
unfolding driver_main any_alive text_dec digits calls_of client_put client_get
driver_run_counts = refl

driver_main-Ends_example :
    (xs : List DriverSetting) × (map (spell driver_flag driver_flags) xs ≡ driver_arguments)
    × ((world' : ℕ) × (alive : Bool) × Pinged seeds
          (driver_settled xs driver_defaults).seeds
          0
          world'
          alive
        × ((r : Ended ℕ) × (driver_main seeds (codes "driver") driver_arguments 0 ≡ some r)
            × ((count_out r.1, r.2)
                ≡ driver_end (unreadable xs) (driver_settled xs driver_defaults) alive)))
driver_main-Ends_example = driver_main-Ends seeds (codes "driver") driver_arguments 0
