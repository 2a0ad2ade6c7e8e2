-- ===== src/Sections/Parts.antt =====
-- The parts of a node that each critical section leaves alone, and the entry of the node itself.
use driftstore.Prelude.{
  ℤ, ◌≡◌, [], ◌∷◌, some, if_pos, if_neg, arith, Option-cases, Bool-cases, inl, inr, ◌∙◌,
}
use driftstore.Text.{Text, text_dec}
use driftstore.Assoc.{find, insert}
use driftstore.Assoc.Laws.{find-insert}
use driftstore.Ring.{RingMap}
use driftstore.Resolve.{VersionedValue}
use driftstore.Node.{Node, HeldHint, MembershipEntry, MembershipTable}
use driftstore.Store.{store_replicated_write, hold_hint, put_hint}
use driftstore.Put.{hold_own_hint}
use driftstore.Membership.{incoming_wins, merge_entry, merge_into, remove_node}
use driftstore.Membership.RingOf.{Status-cases}
use driftstore.Reachability.{drop_hint}

-- an entry of a node stays, or another takes its place
unfoldable pub Present : Text → MembershipTable → Type 0
Present n table = (e : MembershipEntry) × (find n table ≡ some e)

insert-Present :
    (k n : Text) (i : MembershipEntry) (table : MembershipTable)
    → Present n table
    → Present n (insert k i table)
unfolding Present
insert-Present k n i table (e, there) = elim (text_dec k n) [
  | yes same ↦ (i, find-insert k n i table ∙ if_pos (text_dec k n) same _ _)
  | no differ ↦ (e, find-insert k n i table ∙ if_neg (text_dec k n) differ _ _ ∙ there)
]

merge_entry-Present :
    (k n : Text) (i : MembershipEntry) (table : MembershipTable) (ring : RingMap)
    → Present n table
    → Present n (merge_entry k i (table, ring)).0
unfolding merge_entry
merge_entry-Present k n i table ring h = elim (Option-cases (find k table)) [
  | inl gone ↦ rw (gone, merge_entry) (insert-Present k n i table h)
  | inr (old, there) ↦ elim (Bool-cases (incoming_wins i old)) [
    | inl wins ↦ rw (there, merge_entry, wins) (insert-Present k n i table h)
    | inr loses ↦ rw (there, merge_entry, loses) h
  ]
]

pub merge_into-Present :
    (n : Text) (incoming table : MembershipTable) (ring : RingMap)
    → Present n table
    → Present n (merge_into incoming (table, ring)).0
unfolding merge_into
merge_into-Present n [] table ring h = h
merge_into-Present n ((k, i) ∷ rest) table ring h =
    let (table', ring') = merge_entry k i (table, ring) in
    merge_into-Present n rest table' ring' (merge_entry-Present k n i table ring h)

pub remove_node-Present :
    (n k : Text) (now : ℤ) (s : Node) → Present n s.table → Present n (remove_node k now s).0.table
unfolding remove_node
remove_node-Present n k now s h = elim (Option-cases (find k s.table)) [
  | inl gone ↦ rw (gone, remove_node) h
  | inr (old, there) ↦ elim (Status-cases old.status) [
    | inl live ↦ rw (there, remove_node, live) (insert-Present k n _ s.table h)
    | inr dead ↦ rw (there, remove_node, dead) h
  ]
]

pub remove_node-node_id :
    (k : Text) (now : ℤ) (s : Node) → (remove_node k now s).0.node_id ≡ s.node_id
unfolding remove_node
remove_node-node_id k now s = ground arith

pub remove_node-kv_store :
    (k : Text) (now : ℤ) (s : Node) → (remove_node k now s).0.kv_store ≡ s.kv_store
unfolding remove_node
remove_node-kv_store k now s = ground arith

pub remove_node-hints :
    (k : Text) (now : ℤ) (s : Node) → (remove_node k now s).0.hints_for_target ≡ s.hints_for_target
unfolding remove_node
remove_node-hints k now s = ground arith

pub store_replicated_write-hints :
    (key : Text) (incoming : VersionedValue) (s : Node)
    → (store_replicated_write key incoming s).0.hints_for_target ≡ s.hints_for_target
unfolding store_replicated_write
store_replicated_write-hints key incoming s = ground arith

-- the parts of a node that only membership changes
unfoldable pub Untouched : Node → Node → Type 0
Untouched s s' = (s'.node_id ≡ s.node_id) × (s'.table ≡ s.table) × (s'.ring ≡ s.ring)

-- and the stored clocks are left alone as well
unfoldable pub Quiet : Node → Node → Type 0
Quiet s s' = Untouched s s' × (s'.kv_store ≡ s.kv_store)

pub store_replicated_write-Untouched :
    (key : Text) (incoming : VersionedValue) (s : Node)
    → Untouched s (store_replicated_write key incoming s).0
unfolding store_replicated_write Untouched
store_replicated_write-Untouched key incoming s = (ground arith, ground arith, ground arith)

pub hold_hint-Quiet :
    (target : Text) (hint : HeldHint) (s : Node) → Quiet s (hold_hint target hint s)
unfolding hold_hint put_hint Quiet Untouched
hold_hint-Quiet target hint s = ((ground arith, ground arith, ground arith), ground arith)

pub hold_own_hint-Quiet :
    (target : Text) (hint : HeldHint) (s : Node) → Quiet s (hold_own_hint target hint s)
unfolding hold_own_hint put_hint Quiet Untouched
hold_own_hint-Quiet target hint s = ((ground arith, ground arith, ground arith), ground arith)

pub drop_hint-Quiet :
    (target key : Text) (hint : HeldHint) (s : Node) → Quiet s (drop_hint target key hint s)
unfolding drop_hint Quiet Untouched
drop_hint-Quiet target key hint s = ((ground arith, ground arith, ground arith), ground arith)
