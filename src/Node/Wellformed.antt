-- ===== src/Node/Wellformed.antt =====
-- The node's own entry is always in its table.
use driftstore.Prelude.{true, false, some, ◌≡◌, ◌⊎◌, refl, arith, inl, inr, ap, ◌∙◌}
use driftstore.Assoc.{find}
use driftstore.Node.{Node, MembershipEntry, NodeStatus, up, removed, is_removed, is_self_removed}

-- the table has the node's own entry
abbrev pub HasSelf : Node → Type 0
HasSelf s = (e : MembershipEntry) × (find s.node_id s.table ≡ some e)

pub is_self_removed-HasSelf :
    (s : Node) (h : HasSelf s) → is_self_removed s ≡ some (is_removed h.0.status)
unfolding is_self_removed
is_self_removed-HasSelf s (e, h) = ground (arith, h)

-- the node's own entry has a status
abbrev pub Standing : Node → NodeStatus → Type 0
Standing s status = (e : MembershipEntry) × (find s.node_id s.table ≡ some e) × (e.status ≡ status)

-- A node with its own entry was removed, or serves.
pub standing :
    (s : Node)
    → HasSelf s
    → (Standing s removed × (is_self_removed s ≡ some true))
      ⊎ (Standing s up × (is_self_removed s ≡ some false))
standing s (e, h) = by_status e.status refl
  where
    by_status :
        (x : NodeStatus)
        → e.status ≡ x
        → (Standing s removed × (is_self_removed s ≡ some true))
          ⊎ (Standing s up × (is_self_removed s ≡ some false))
    by_status removed at =
        inl ((e, h, at), is_self_removed-HasSelf s (e, h) ∙ ap (λ x. some (is_removed x)) at)
    by_status up at =
        inr ((e, h, at), is_self_removed-HasSelf s (e, h) ∙ ap (λ x. some (is_removed x)) at)
