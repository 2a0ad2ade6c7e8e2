-- ===== src/Cluster/Handed.antt =====
-- src/node_reachability.cpp, lines 80-124, in a cluster: what a write that hands a hint over leaves
-- of the copies of other keys.
use driftstore.Prelude.{
  ◌≡◌, ◌≢◌, ◌⊎◌, ℤ, some, Bool-cases, Option-cases, inl, inr, sym, ap, subst, ◌∙◌,
}
use driftstore.Text.{Text}
use driftstore.Assoc.{IsMap}
use driftstore.Clock.{VectorClock}
use driftstore.Resolve.{VersionedValue}
use driftstore.Node.{Node, HeldHint, ReplicateWriteResponse, is_self_removed}
use driftstore.Store.{store_replicated_write, accept_write, replicate_write}
use driftstore.Store.Writes.{some_inj, none_ne_some, store_replicated_write-Held}
use driftstore.Store.Hints.{held_hint}
use driftstore.Sections.Parts.{Untouched, store_replicated_write-Untouched}
use driftstore.Reachability.{delivery_request}
use driftstore.Cluster.{Cluster}
use driftstore.Cluster.Copies.{WellNode, HasCopy, same_self}
use driftstore.Cluster.Calls.{CopyAt}

-- The hint is held, or the node that it is for has its write.
abbrev pub Kept : Text → Text → HeldHint → Cluster → Node → Type 0
Kept t k h c s = (held_hint t k s ≡ some h) ⊎ CopyAt k h.clock t c

-- a plain write leaves the node as it was, or stores its version
pub plain_end :
    (hint : HeldHint) (now : ℤ) (s : Node) (end : Node × ReplicateWriteResponse)
    → replicate_write (delivery_request hint) now s ≡ some end
    → (end.0 ≡ s)
      ⊎ (end.0
          ≡ (store_replicated_write hint.key
              (record { value = hint.value; clock = hint.clock })
              s).0)
unfolding replicate_write accept_write
plain_end hint now s end e = elim (Option-cases (is_self_removed s)) [
  | inl thrown ↦ absurd (none_ne_some (rw (thrown, replicate_write) at e))
  | inr (gone, known) ↦ elim (Bool-cases gone) [
    | inl out ↦ inl (ap (λ x. x.0) (some_inj (sym (rw (known, replicate_write, out) at e))))
    | inr live ↦ inr (ap (λ x. x.0) (some_inj (sym (rw (known, replicate_write, live) at e))))
  ]
]

-- a write of one key leaves the copies of the others
pub other_key-HasCopy :
    (k : Text) (clock : VectorClock) (hint : HeldHint) (now : ℤ) (s : Node)
    (end : Node × ReplicateWriteResponse)
    → WellNode s
    → IsMap hint.clock.counters
    → hint.key ≢ k
    → replicate_write (delivery_request hint) now s ≡ some end
    → HasCopy k clock s
    → HasCopy k clock end.0
unfolding Untouched
other_key-HasCopy k clock hint now s end well fine ne ran copy =
    elim (plain_end hint now s end ran) [
      | inl same ↦ subst (HasCopy k clock) (sym same) copy
      | inr written ↦
          let version : VersionedValue = record { value = hint.value; clock = hint.clock } in
          let s' = (store_replicated_write hint.key version s).0 in
          let held = store_replicated_write-Held hint.key version s fine well.store in
          let (id, table, ring) = store_replicated_write-Untouched hint.key version s in
          subst (HasCopy k clock) (sym written) (record {
            serves = same_self s s' id table ∙ copy.serves;
            version = copy.version;
            holds = held.others k ne ∙ copy.holds;
            seen = copy.seen;
          })
    ]
