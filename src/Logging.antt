-- ===== src/Logging.antt =====
-- src/logging.hpp: the events and the line that is written for one.
use driftstore.Prelude.{[], ◌∷◌, ◌++◌}
use driftstore.Text.{Text, codes, c_str}

pub data EventType : Type 0 where
  ping_sent ping_received ping_succeeded ping_failed node_init gossip_sent : EventType
  gossip_received gossip_succeeded gossip_failed gossip_no_peers gossip_merged : EventType
  bootstrap_init bootstrap_succeeded bootstrap_failed remove_init remove_failed : EventType
  remove_succeeded node_rebooted probe_sent probe_succeeded probe_failed get_init : EventType
  get_succeeded get_failed put_init put_succeeded put_failed put_forwarded : EventType
  put_forward_failed conflict_resolved equal_clock_detected hint_created : EventType
  hint_search_exhausted hint_stored hint_store_failed hint_delivered read_repair_init : EventType
  read_repair_succeeded read_repair_failed : EventType

-- `toString`
unfoldable pub event_label : EventType → Text
event_label ping_sent = codes "PING_SENT"
event_label ping_received = codes "PING_RECEIVED"
event_label ping_succeeded = codes "PING_SUCCEEDED"
event_label ping_failed = codes "PING_FAILED"
event_label node_init = codes "NODE_INIT"
event_label gossip_sent = codes "GOSSIP_SENT"
event_label gossip_received = codes "GOSSIP_RECEIVED"
event_label gossip_succeeded = codes "GOSSIP_SUCCEEDED"
event_label gossip_failed = codes "GOSSIP_FAILED"
event_label gossip_merged = codes "GOSSIP_MERGED"
event_label gossip_no_peers = codes "GOSSIP_NO_PEERS"
event_label bootstrap_init = codes "BOOTSTRAP_INIT"
event_label bootstrap_succeeded = codes "BOOTSTRAP_SUCCEEDED"
event_label bootstrap_failed = codes "BOOTSTRAP_FAILED"
event_label remove_init = codes "REMOVE_INIT"
event_label remove_failed = codes "REMOVE_FAILED"
event_label remove_succeeded = codes "REMOVE_SUCCEEDED"
event_label node_rebooted = codes "NODE_REBOOTED"
event_label probe_sent = codes "PROBE_SENT"
event_label probe_succeeded = codes "PROBE_SUCCEEDED"
event_label probe_failed = codes "PROBE_FAILED"
event_label get_init = codes "GET_INIT"
event_label get_succeeded = codes "GET_SUCCEEDED"
event_label get_failed = codes "GET_FAILED"
event_label put_init = codes "PUT_INIT"
event_label put_succeeded = codes "PUT_SUCCEEDED"
event_label put_failed = codes "PUT_FAILED"
event_label put_forwarded = codes "PUT_FORWARDED"
event_label put_forward_failed = codes "PUT_FORWARD_FAILED"
event_label conflict_resolved = codes "CONFLICT_RESOLVED"
event_label equal_clock_detected = codes "EQUAL_CLOCK_DETECTED"
event_label hint_created = codes "HINT_CREATED"
event_label hint_search_exhausted = codes "HINT_SEARCH_EXHAUSTED"
event_label hint_stored = codes "HINT_STORED"
event_label hint_store_failed = codes "HINT_STORE_FAILED"
event_label hint_delivered = codes "HINT_DELIVERED"
event_label read_repair_init = codes "READ_REPAIR_INIT"
event_label read_repair_succeeded = codes "READ_REPAIR_SUCCEEDED"
event_label read_repair_failed = codes "READ_REPAIR_FAILED"

abbrev pub gap_before : Text → Text
gap_before [] = []
gap_before (c ∷ cs) = codes " "

-- `logEvent`; `timestamp` is what `isoTimestampNow` gives.
unfoldable pub log_line : Text → EventType → Text → Text → Text
unfolding event_label
log_line timestamp event node_id extra_kv =
    codes "["
    ++ timestamp
    ++ codes "] node="
    ++ c_str node_id
    ++ codes " event="
    ++ event_label event
    ++ gap_before extra_kv
    ++ c_str extra_kv
    ++ codes "\n"
