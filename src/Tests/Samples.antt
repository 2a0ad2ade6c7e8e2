-- ===== src/Tests/Samples.antt =====
-- Clocks and versions for the tests.
use driftstore.Prelude.{pos, [], ◌∷◌, refl}
use driftstore.Text.{Text, text_dec}
use driftstore.Assoc.{find, IsMap}
use driftstore.Clock.{VectorClock}
use driftstore.Resolve.{VersionedValue}
use driftstore.Node.{Node, MembershipEntry, up, removed}

abbrev pub node_a : Text
node_a = b'a' ∷ []

abbrev pub node_b : Text
node_b = b'b' ∷ []

abbrev pub node_c : Text
node_c = b'c' ∷ []

-- two writes by `a` and one by `b`
abbrev pub clock_ab : VectorClock
clock_ab = record {
  counters = (node_a, 2) ∷ (node_b, 1) ∷ [];
  last_updated = pos 100;
  writer_id = node_a;
}

-- three writes by `b`
abbrev pub clock_b : VectorClock
clock_b = record { counters = (node_b, 3) ∷ []; last_updated = pos 120; writer_id = node_b }

abbrev pub clock_a : VectorClock
clock_a = record { counters = (node_a, 1) ∷ []; last_updated = pos 90; writer_id = node_a }

pub clock_ab-IsMap : IsMap clock_ab.counters
unfolding find text_dec
clock_ab-IsMap = (refl, (refl, tt))

pub clock_b-IsMap : IsMap clock_b.counters
unfolding find
clock_b-IsMap = (refl, tt)

pub clock_a-IsMap : IsMap clock_a.counters
unfolding find
clock_a-IsMap = (refl, tt)

abbrev pub version_ab : VersionedValue
version_ab = record { value = b'x' ∷ []; clock = clock_ab }

abbrev pub version_b : VersionedValue
version_b = record { value = b'y' ∷ []; clock = clock_b }

abbrev pub version_a : VersionedValue
version_a = record { value = b'z' ∷ []; clock = clock_a }

abbrev pub key_k : Text
key_k = b'k' ∷ []

abbrev pub entry_a : MembershipEntry
entry_a = record {
  writer_id = node_a;
  address = node_a;
  status = up;
  tokens = 10 ∷ 30 ∷ [];
  last_updated = pos 50;
}

abbrev pub entry_b : MembershipEntry
entry_b = record {
  writer_id = node_b;
  address = node_b;
  status = up;
  tokens = 20 ∷ [];
  last_updated = pos 60;
}

-- `b` as `a` removed it
abbrev pub entry_b_removed : MembershipEntry
entry_b_removed = record {
  writer_id = node_a;
  address = node_b;
  status = removed;
  tokens = [];
  last_updated = pos 70;
}

-- A node `a` that knows of `b` and holds one version.
abbrev pub sample : Node
sample = record {
  node_id = node_a;
  vnodes = 2;
  table = (node_a, entry_a) ∷ (node_b, entry_b) ∷ [];
  ring = (10, node_a) ∷ (20, node_b) ∷ (30, node_a) ∷ [];
  unreachable_peers = [];
  kv_store = (key_k, version_ab) ∷ [];
  hints_for_target = [];
  n = 2;
  w = 1;
  r = 1;
}

-- A node `b` that knows that it was removed.
abbrev pub sample_b : Node
sample_b = record {
  node_id = node_b;
  vnodes = 1;
  table = (node_b, entry_b_removed) ∷ [];
  ring = [];
  unreachable_peers = [];
  kv_store = [];
  hints_for_target = [];
  n = 2;
  w = 1;
  r = 1;
}

pub sample_table-IsMap : IsMap sample.table
unfolding find text_dec
sample_table-IsMap = (refl, (refl, tt))
