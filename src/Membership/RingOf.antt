-- ===== src/Membership/RingOf.antt =====
-- The ring holds the tokens of the members that are up: what merges, removals and the
-- constructor keep.
use driftstore.Prelude.{
  ℕ, ℤ, ◌≡◌, ◌⊎◌, All, ◌↔◌, refl, Bool, true, false, List, [], ◌∷◌, Option, none, some, arith,
  Bool-cases, Option-cases, inl, inr, sym, subst,
}
use mathlib.Core.Path.{subst₂}
use driftstore.Text.{Text, text_dec}
use driftstore.Assoc.{find, insert}
use driftstore.Assoc.Laws.{find-insert}
use driftstore.Ring.{RingMap}
use driftstore.Ring.Clockwise.{IsRing}
use driftstore.Ring.Tokens.{owner}
use driftstore.Node.{Node, NodeStatus, up, removed, MembershipEntry, MembershipTable}
use driftstore.Membership.{
  put_tokens, erase_tokens, incoming_wins, update_ring, merge_entry, merge_into, remove_node,
  new_node, compute_tokens,
}
use driftstore.Membership.TokenSets.{
  has_token, owner-put_tokens, put_tokens-IsRing, erase_tokens-IsRing, owner-erase_tokens,
}

-- whether an entry is there and up
unfoldable pub is_up : Option MembershipEntry → Bool
is_up none = false
is_up (some e) = elim e.status [ up ↦ true | removed ↦ false ]

pub Status-cases : (x : NodeStatus) → (x ≡ up) ⊎ (x ≡ removed)
Status-cases up = inl refl
Status-cases removed = inr refl

-- The tokens that each node computes for itself, and that no two nodes share.
module _ (T : Text → List ℕ)
    (apart : (q : ℕ) (n m : Text)
      → has_token q (T n) ≡ true
      → has_token q (T m) ≡ true
      → n ≡ m) where
  -- an entry that is up carries the tokens of its node, a removed one none
  abbrev pub Proper : Text → MembershipEntry → Type 0
  Proper n e = e.tokens ≡ (elim e.status [ up ↦ T n | removed ↦ [] ])

  -- The ring is in order, and a token's owner is the member that is up and has the token.
  pub record Mirrors (table : MembershipTable) (ring : RingMap) : Type 0 where
    pub ascends : IsRing ring
    pub owns :
        (q : ℕ) (n : Text)
        → (owner q ring ≡ some n) ↔ ((is_up (find n table) ≡ true) × (has_token q (T n) ≡ true))
    pub proper : (n : Text) (e : MembershipEntry) → find n table ≡ some e → Proper n e

  -- the entries stay proper
  insert-Proper :
      (k : Text) (i : MembershipEntry) (table : MembershipTable)
      → Proper k i
      → ((n : Text) (e : MembershipEntry) → find n table ≡ some e → Proper n e)
      → (n : Text) (e : MembershipEntry) → find n (insert k i table) ≡ some e
      → Proper n e
  insert-Proper k i table p m n e h = elim (text_dec k n) [
    | yes same ↦ let it : i ≡ e = ground (arith, find-insert k n i table) in subst₂ Proper same it p
    | no differ ↦ m n e (ground (arith, find-insert k n i table))
  ]

  insert-Mirrors-up :
      (k : Text) (i : MembershipEntry) (table : MembershipTable) (ring : RingMap)
      → i.status ≡ up
      → i.tokens ≡ T k
      → Proper k i
      → Mirrors table ring
      → Mirrors (insert k i table) (put_tokens i.tokens k ring)
  unfolding is_up
  insert-Mirrors-up k i table ring live all p m = record {
    ascends = put_tokens-IsRing i.tokens k ring m.ascends;
    owns = λ q n.
        let facts = owner-put_tokens i.tokens q k ring in
        let looked = find-insert k n i table in
        let before = m.owns q n in
        (
          λ h. (
            ground (arith, facts, looked, before.0, all, live),
            ground (arith, facts, before.0, all),
          ),
          λ (u, t). ground (arith, facts, looked, before.1, all, apart q n k t),
        );
    proper = insert-Proper k i table p m.proper;
  }

  -- a member that goes down takes its tokens with it
  insert-Mirrors_down :
      (k : Text) (i : MembershipEntry) (old : List ℕ) (table : MembershipTable) (ring : RingMap)
      → i.status ≡ removed
      → old ≡ T k
      → Proper k i
      → Mirrors table ring
      → Mirrors (insert k i table) (erase_tokens old ring)
  unfolding is_up
  insert-Mirrors_down k i old table ring gone all p m = record {
    ascends = erase_tokens-IsRing old ring m.ascends;
    owns = λ q n.
        let facts = owner-erase_tokens old q ring m.ascends in
        let looked = find-insert k n i table in
        let before = m.owns q n in
        (
          λ h. (
            ground (arith, facts, looked, before.0, all, gone),
            ground (arith, facts, before.0, all),
          ),
          λ (u, t). ground (arith, facts, looked, before.1, all, gone, apart q n k t),
        );
    proper = insert-Proper k i table p m.proper;
  }

  -- an entry that is up, or not, as the one before it leaves the ring alone
  insert-Mirrors_same :
      (k : Text) (i : MembershipEntry) (table : MembershipTable) (ring : RingMap)
      → is_up (some i) ≡ is_up (find k table)
      → Proper k i
      → Mirrors table ring
      → Mirrors (insert k i table) ring
  insert-Mirrors_same k i table ring same p m = record {
    ascends = m.ascends;
    owns = λ q n.
        let looked = find-insert k n i table in
        let before = m.owns q n in
        (
          λ h. (ground (arith, looked, before.0 h, same), (before.0 h).1),
          λ (u, t). before.1 (ground (arith, looked, u, same), t),
        );
    proper = insert-Proper k i table p m.proper;
  }

  -- the ring after an entry won over the local one
  update_ring-Mirrors :
      (k : Text) (old i : MembershipEntry) (table : MembershipTable) (ring : RingMap)
      → find k table ≡ some old
      → Proper k i
      → Mirrors table ring
      → (a b : NodeStatus) → old.status ≡ a
      → i.status ≡ b
      → Mirrors (insert k i table) (update_ring a b k old i ring)
  unfolding update_ring is_up
  update_ring-Mirrors k old i table ring there p m up up ea eb =
      insert-Mirrors_same k i table ring (ground (arith, there, ea, eb)) p m
  update_ring-Mirrors k old i table ring there p m removed removed ea eb =
      insert-Mirrors_same k i table ring (ground (arith, there, ea, eb)) p m
  update_ring-Mirrors k old i table ring there p m removed up ea eb =
      insert-Mirrors-up k i table ring eb (ground (arith, p, eb)) p m
  update_ring-Mirrors k old i table ring there p m up removed ea eb =
      insert-Mirrors_down k i old.tokens table ring eb (ground (arith, m.proper k old there, ea)) p
        m

  -- a new entry's tokens go to the ring; a removed one has none
  discover-Mirrors :
      (k : Text) (i : MembershipEntry) (table : MembershipTable) (ring : RingMap)
      → find k table ≡ none
      → Proper k i
      → Mirrors table ring
      → (b : NodeStatus) → i.status ≡ b
      → Mirrors (insert k i table) (put_tokens i.tokens k ring)
  unfolding put_tokens is_up
  discover-Mirrors k i table ring gone p m up eb =
      insert-Mirrors-up k i table ring eb (ground (arith, p, eb)) p m
  discover-Mirrors k i table ring gone p m removed eb =
      let none_left : i.tokens ≡ [] = ground (arith, p, eb) in
      subst (λ ts. Mirrors (insert k i table) (put_tokens ts k ring)) (sym none_left)
        (insert-Mirrors_same k i table ring (ground (arith, gone, eb)) p m)

  merge_entry-Mirrors :
      (k : Text) (i : MembershipEntry) (table : MembershipTable) (ring : RingMap)
      → Proper k i
      → Mirrors table ring
      → let (table', ring') = merge_entry k i (table, ring) in Mirrors table' ring'
  unfolding merge_entry
  merge_entry-Mirrors k i table ring p m = elim (Option-cases (find k table)) [
    | inl gone ↦ rw (gone, merge_entry) (discover-Mirrors k i table ring gone p m i.status refl)
    | inr (old, there) ↦ elim (Bool-cases (incoming_wins i old)) [
      | inl wins ↦
          rw (there, merge_entry, wins)
            (update_ring-Mirrors k old i table ring there p m old.status i.status refl refl)
      | inr loses ↦ rw (there, merge_entry, loses) m
    ]
  ]

  -- Where every entry that is up carries its node's tokens, a removed one none, and no two nodes
  -- share a token, a merge keeps the ring in order and keeps a token's owner the member that is
  -- up and has it.
  pub merge_into-Mirrors :
      (incoming table : MembershipTable) (ring : RingMap)
      → All (λ e. Proper e.0 e.1) incoming
      → Mirrors table ring
      → let (table', ring') = merge_into incoming (table, ring) in Mirrors table' ring'
  unfolding merge_into
  merge_into-Mirrors [] table ring p m = m
  merge_into-Mirrors ((k, i) ∷ rest) table ring p m =
      let (table', ring') = merge_entry k i (table, ring) in
      merge_into-Mirrors rest table' ring' p.1 (merge_entry-Mirrors k i table ring p.0 m)

  -- Where every entry that is up carries its node's tokens, a removed one none, and no two nodes
  -- share a token, a removal keeps the ring in order and a token's owner the member that is up
  -- and has it, whether it accepts the node or not.
  pub remove_node-Mirrors :
      (removed_node_id : Text) (now : ℤ) (s : Node)
      → Mirrors s.table s.ring
      → let (s', accepted) = remove_node removed_node_id now s in Mirrors s'.table s'.ring
  unfolding remove_node
  remove_node-Mirrors k now s m = elim (Option-cases (find k s.table)) [
    | inl gone ↦ rw (gone, remove_node) m
    | inr (old, there) ↦ elim (Status-cases old.status) [
      | inl live ↦
          rw (there, remove_node, live)
            (insert-Mirrors_down k _ old.tokens s.table s.ring refl
              (ground (arith, m.proper k old there, live)) refl m)
      | inr dead ↦ rw (there, remove_node, dead) m
    ]
  ]

  empty-Mirrors : Mirrors [] []
  unfolding owner find is_up
  empty-Mirrors = record {
    ascends = tt;
    owns = λ q n. (λ h. ground arith, λ (u, t). ground arith);
    proper = λ n e h. ground arith;
  }

  -- Where a node's tokens are the ones it computes and no two nodes share one, a new node's ring
  -- is in order and holds its own tokens, as its table has it up with them.
  pub new_node-Mirrors :
      (node_id : Text) (vnodes n w r : ℕ) (now : ℤ)
      → compute_tokens node_id vnodes ≡ T node_id
      → let s = new_node node_id vnodes n w r now in Mirrors s.table s.ring
  unfolding new_node insert
  new_node-Mirrors node_id vnodes n w r now all =
      insert-Mirrors-up node_id _ [] [] refl all all empty-Mirrors
