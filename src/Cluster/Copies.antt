-- ===== src/Cluster/Copies.antt =====
-- What one node keeps of a write, and what further calls of the same write leave of it.
use driftstore.Prelude.{[], ◌≡◌, refl, false, none, some, arith, ap}
use driftstore.Text.{Text}
use driftstore.Assoc.{find, IsMap}
use driftstore.Clock.{VectorClock}
use driftstore.Clock.Order.{Le}
use driftstore.Resolve.{VersionedValue}
use driftstore.Node.{Node, HeldHint, is_self_removed}
use driftstore.Store.{mark_unreachable, local_get, store_replicated_write}
use driftstore.Store.Writes.{IsStore}
use driftstore.Store.Hints.{held_hint}

-- no clock of a stored version or of a held hint holds a node twice
pub record WellNode (s : Node) : Type 0 where
  pub store : IsStore s
  pub hints :
      (target key : Text) (h : HeldHint) → held_hint target key s ≡ some h → IsMap h.clock.counters

-- The node answers reads and holds a version that has seen the clock.
pub record HasCopy (key : Text) (clock : VectorClock) (s : Node) : Type 0 where
  pub serves : is_self_removed s ≡ some false
  pub version : VersionedValue
  pub holds : local_get key s ≡ some version
  pub seen : Le clock version.clock

-- The node holds a hint for another that has seen the clock.
pub record HasHint (owner key : Text) (clock : VectorClock) (s : Node) : Type 0 where
  pub hint : HeldHint
  pub held : held_hint owner key s ≡ some hint
  pub seen : Le clock hint.clock

pub same_self :
    (s s' : Node)
    → s'.node_id ≡ s.node_id
    → s'.table ≡ s.table
    → is_self_removed s' ≡ is_self_removed s
unfolding is_self_removed
same_self s s' p q = ground (arith, p, q)

pub same_copies :
    (key : Text) (s s' : Node) → s'.kv_store ≡ s.kv_store → local_get key s' ≡ local_get key s
unfolding local_get
same_copies key s s' e = ap (find key) e

pub same_hints :
    (s s' : Node)
    → s'.hints_for_target ≡ s.hints_for_target
    → (t k : Text) → held_hint t k s' ≡ held_hint t k s
unfolding held_hint
same_hints s s' e t k = ap (λ m. find k (elim (find t m) [ none ↦ [] | some hints ↦ hints ])) e

pub stored_hints :
    (key : Text) (incoming : VersionedValue) (s : Node) (t k : Text)
    → held_hint t k (store_replicated_write key incoming s).0 ≡ held_hint t k s
unfolding store_replicated_write
stored_hints key incoming s = same_hints s _ (ground arith)

-- a mark changes nothing of these
module _ (peer : Text) (s : Node) where
  pub marked_id : (mark_unreachable peer s).node_id ≡ s.node_id
  unfolding mark_unreachable
  marked_id = refl

  pub marked_table : (mark_unreachable peer s).table ≡ s.table
  unfolding mark_unreachable
  marked_table = refl

  pub marked_store : (mark_unreachable peer s).kv_store ≡ s.kv_store
  unfolding mark_unreachable
  marked_store = refl

  pub marked_hints : (t k : Text) → held_hint t k (mark_unreachable peer s) ≡ held_hint t k s
  unfolding mark_unreachable held_hint
  marked_hints t k = refl
