-- ===== src/Status.antt =====
-- src/node_status.cpp and src/node_membership.cpp, lines 18-49: `Ping`, `GetStatus` and the dumps.
pub mod Sort
pub mod Dump
use driftstore.Prelude.{
  ℕ, zero, suc, Bool, true, false, List, [], ◌∷◌, ◌++◌, Option, none, some, if◌then◌else◌, length,
}
use driftstore.Text.{Text, text_lt, codes}
use driftstore.Assoc.{find}
use driftstore.Ring.{RingMap}
use driftstore.Node.{Node, NodeStatus, up, removed, MembershipEntry, MembershipTable}
use driftstore.Membership.{to_string}
use driftstore.Options.{integer_text}

abbrev pub keys_of : MembershipTable → List Text
keys_of [] = []
keys_of ((node_id, entry) ∷ table) = node_id ∷ keys_of table

-- `std::sort` of texts
unfoldable pub insert_text : Text → List Text → List Text
insert_text t [] = t ∷ []
insert_text t (u ∷ us) = let rest = insert_text t us in if text_lt t u then t ∷ u ∷ us else u ∷ rest

unfoldable pub sort_texts : List Text → List Text
unfolding insert_text
sort_texts [] = []
sort_texts (t ∷ ts) = insert_text t (sort_texts ts)

abbrev pub status_text : NodeStatus → Text
status_text up = codes "UP"
status_text removed = codes "REMOVED"

unfoldable pub entry_dump : Text → MembershipEntry → Text
entry_dump node_id entry =
    node_id
    ++ codes ":"
    ++ status_text entry.status
    ++ codes ":w="
    ++ entry.writer_id
    ++ codes ":t="
    ++ integer_text entry.last_updated

abbrev pub comma_before : List Text → Text
comma_before [] = []
comma_before (t ∷ ts) = codes ","

-- The entries of the keys that are left; `none` is the exception of `at` for a missing key.
unfoldable pub entries_dump : List Text → MembershipTable → Option Text
unfolding entry_dump
entries_dump [] table = some []
entries_dump (key ∷ keys) table = elim (find key table) [
  | none ↦ none
  | some entry ↦ elim (entries_dump keys table) [
    | none ↦ none
    | some rest ↦ some (entry_dump key entry ++ comma_before keys ++ rest)
  ]
]

-- what follows the sort
unfoldable pub dump_keys : List Text → MembershipTable → Option Text
unfolding entries_dump
dump_keys keys table = elim (entries_dump keys table) [
  | none ↦ none
  | some entries ↦
      some (
        codes "table_size="
        ++ to_string (length keys)
        ++ codes " entries=["
        ++ entries
        ++ codes "]")
]

unfoldable pub dump_table : MembershipTable → Option Text
unfolding sort_texts dump_keys
dump_table table = dump_keys (sort_texts (keys_of table)) table

abbrev pub ring_comma : RingMap → Text
ring_comma [] = []
ring_comma (e ∷ ring) = codes ","

unfoldable pub tokens_dump : RingMap → Text
tokens_dump [] = []
tokens_dump ((token, node_id) ∷ ring) =
    to_string token ++ codes ":" ++ node_id ++ ring_comma ring ++ tokens_dump ring

unfoldable pub dump_ring : RingMap → Text
unfolding tokens_dump
dump_ring ring =
    codes "ring_size="
    ++ to_string (length ring)
    ++ codes " tokens=["
    ++ tokens_dump ring
    ++ codes "]"

pub record StatusResponse : Type 0 where
  pub node_id : Text
  pub table_dump : Text
  pub ring_dump : Text

-- `responder_node_id`
unfoldable pub ping : Node → Text
ping s = s.node_id

unfoldable pub get_status : Node → Option StatusResponse
unfolding dump_table dump_ring
get_status s = elim (dump_table s.table) [
  | none ↦ none
  | some table_dump ↦
      some (record { node_id = s.node_id; table_dump = table_dump; ring_dump = dump_ring s.ring })
]
