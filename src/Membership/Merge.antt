-- ===== src/Membership/Merge.antt =====
-- What a merge leaves in the membership table, and that a gossip exchange makes two tables agree.
use driftstore.Prelude.{
  ◌≡◌, refl, true, false, [], ◌∷◌, Option, none, some, ite, arith, ltb_ℤ, eqb_ℤ, eqb_ℤ_sound,
  ltb_ℤ_irrefl, ltb_ℤ_total, eqb_ℤ_refl, subst, if◌then◌else◌, Bool-cases, Option-cases, inl, inr,
  sym, ap, ◌∙◌,
}
use driftstore.Text.{Text, text_dec, text_lt, text_lt_total}
use driftstore.Assoc.{find, IsMap}
use driftstore.Assoc.Laws.{find-insert, insert-IsMap}
use driftstore.Ring.{RingMap}
use driftstore.Node.{Node, MembershipEntry, MembershipTable}
use driftstore.Membership.{incoming_wins, merge_entry, merge_into, apply_gossip, gossip_exchange}

-- the entry that stays of a local and an incoming one
pub stays : Option MembershipEntry → Option MembershipEntry → Option MembershipEntry
stays o none = o
stays none (some i) = some i
stays (some l) (some i) = if incoming_wins i l then some i else some l

pub find-merge_entry :
    (k n : Text) (i : MembershipEntry) (local : MembershipTable) (ring : RingMap)
    → find n (merge_entry k i (local, ring)).0
      ≡ ite (text_dec k n) (stays (find n local) (some i)) (find n local)
unfolding merge_entry stays
find-merge_entry k n i local ring = elim (Option-cases (find k local)) [
  | inl gone ↦ rw (gone, merge_entry) (find-insert k n i local ∙ new gone (text_dec k n))
  | inr (e, there) ↦ elim (Bool-cases (incoming_wins i e)) [
    | inl wins ↦
        rw (there, merge_entry, wins) (find-insert k n i local ∙ won e there wins (text_dec k n))
    | inr loses ↦ rw (there, merge_entry, loses) (lost e there loses (text_dec k n))
  ]
]
  where
    new :
        find k local ≡ none
        → (d : Dec (k ≡ n))
        → ite d (some i) (find n local) ≡ ite d (stays (find n local) (some i)) (find n local)
    new gone (yes same) = rw (sym same, gone) refl
    new gone (no differ) = refl

    won :
        (e : MembershipEntry)
        → find k local ≡ some e
        → incoming_wins i e ≡ true
        → (d : Dec (k ≡ n))
        → ite d (some i) (find n local) ≡ ite d (stays (find n local) (some i)) (find n local)
    won e there wins (yes same) = rw (sym same, there, wins) refl
    won e there wins (no differ) = refl

    lost :
        (e : MembershipEntry)
        → find k local ≡ some e
        → incoming_wins i e ≡ false
        → (d : Dec (k ≡ n)) → find n local ≡ ite d (stays (find n local) (some i)) (find n local)
    lost e there loses (yes same) = rw (sym same, there, loses) refl
    lost e there loses (no differ) = refl

-- The lookups of a merged table.
pub find-merge_into-stays :
    (incoming local : MembershipTable) (ring : RingMap) (n : Text)
    → IsMap incoming
    → find n (merge_into incoming (local, ring)).0 ≡ stays (find n local) (find n incoming)
unfolding merge_into stays find
find-merge_into-stays [] local ring n u = refl
find-merge_into-stays ((k, i) ∷ rest) local ring n u =
    let (local', ring') = merge_entry k i (local, ring) in
    find-merge_into-stays rest local' ring' n u.1
    ∙ ap (λ o. stays o (find n rest)) (find-merge_entry k n i local ring)
    ∙ both (text_dec k n)
  where
    both :
        (d : Dec (k ≡ n))
        → stays (ite d (stays (find n local) (some i)) (find n local)) (find n rest)
          ≡ stays (find n local) (ite d (some i) (find n rest))
    both (yes same) = rw (sym same, u.0) refl
    both (no differ) = refl

-- The newer of two entries: the later one, of two of one time the one of the greater writer, and
-- the local one on a full tie.
abbrev pub newer : MembershipEntry → MembershipEntry → MembershipEntry
newer local incoming =
    if ltb_ℤ local.last_updated incoming.last_updated
    then incoming
    else if ltb_ℤ incoming.last_updated local.last_updated
    then local
    else if text_lt local.writer_id incoming.writer_id
    then incoming
    else local

abbrev pub newest : Option MembershipEntry → Option MembershipEntry → Option MembershipEntry
newest o none = o
newest none (some i) = some i
newest (some l) (some i) = some (newer l i)

stays-newer : (l i : MembershipEntry) → stays (some l) (some i) ≡ some (newer l i)
unfolding stays incoming_wins
stays-newer l i = elim (Bool-cases (ltb_ℤ l.last_updated i.last_updated)) [
  | inl later ↦ rw later refl
  | inr earlier ↦ elim (Bool-cases (ltb_ℤ i.last_updated l.last_updated)) [
    | inl before ↦ rw (earlier, before, apart before) refl
    | inr level ↦
        let same : i.last_updated ≡ l.last_updated =
          ltb_ℤ_total i.last_updated l.last_updated level earlier in
        let equal : eqb_ℤ i.last_updated l.last_updated ≡ true =
          subst (λ t. eqb_ℤ i.last_updated t ≡ true) same (eqb_ℤ_refl i.last_updated) in
        elim (Bool-cases (text_lt l.writer_id i.writer_id)) [
          | inl greater ↦ rw (earlier, level, equal, greater) refl
          | inr lesser ↦ rw (earlier, level, equal, lesser) refl
        ]
  ]
]
  where
    apart : ltb_ℤ i.last_updated l.last_updated ≡ true → eqb_ℤ i.last_updated l.last_updated ≡ false
    apart before = elim (Bool-cases (eqb_ℤ i.last_updated l.last_updated)) [
      | inr differ ↦ differ
      | inl equal ↦
          let same = eqb_ℤ_sound i.last_updated l.last_updated equal in
          let never = ltb_ℤ_irrefl l.last_updated in
          let now : ltb_ℤ l.last_updated l.last_updated ≡ true =
            subst (λ t. ltb_ℤ t l.last_updated ≡ true) same before in
          absurd (let x : ⊥ = cc in x)
    ]

stays-newest : (o p : Option MembershipEntry) → stays o p ≡ newest o p
unfolding stays
stays-newest o none = refl
stays-newest none (some i) = refl
stays-newest (some l) (some i) = stays-newer l i

-- After the merge of a table that has each node once, each node has the newer of its local and
-- its incoming entry: the one with the later timestamp, or the same and the greater writer, and
-- the local one on a full tie.
pub find-merge_into :
    (incoming local : MembershipTable) (ring : RingMap) (n : Text)
    → IsMap incoming
    → find n (merge_into incoming (local, ring)).0 ≡ newest (find n local) (find n incoming)
find-merge_into incoming local ring n u =
    find-merge_into-stays incoming local ring n u ∙ stays-newest (find n local) (find n incoming)

merge_entry-IsMap :
    (k : Text) (i : MembershipEntry) (local : MembershipTable) (ring : RingMap)
    → IsMap local
    → IsMap (merge_entry k i (local, ring)).0
unfolding merge_entry
merge_entry-IsMap k i local ring u = elim (Option-cases (find k local)) [
  | inl gone ↦ rw (gone, merge_entry) (insert-IsMap k i local u)
  | inr (e, there) ↦ elim (Bool-cases (incoming_wins i e)) [
    | inl wins ↦ rw (there, merge_entry, wins) (insert-IsMap k i local u)
    | inr loses ↦ rw (there, merge_entry, loses) u
  ]
]

-- A merge keeps every node's entry unique.
pub merge_into-IsMap :
    (incoming local : MembershipTable) (ring : RingMap)
    → IsMap local
    → IsMap (merge_into incoming (local, ring)).0
unfolding merge_into
merge_into-IsMap [] local ring u = u
merge_into-IsMap ((k, i) ∷ rest) local ring u =
    let (local', ring') = merge_entry k i (local, ring) in
    merge_into-IsMap rest local' ring' (merge_entry-IsMap k i local ring u)

-- entries of one node with the same timestamp and writer are the same
abbrev pub Agree : Option MembershipEntry → Option MembershipEntry → Type 0
Agree o p =
    (a b : MembershipEntry)
    → o ≡ some a
    → p ≡ some b
    → a.last_updated ≡ b.last_updated
    → a.writer_id ≡ b.writer_id
    → a ≡ b

tie :
    (a b : MembershipEntry)
    → incoming_wins a b ≡ false
    → incoming_wins b a ≡ false
    → (a.last_updated ≡ b.last_updated) × (a.writer_id ≡ b.writer_id)
unfolding incoming_wins
tie a b p q =
    let same : a.last_updated ≡ b.last_updated =
      ground (arith, ltb_ℤ_total a.last_updated b.last_updated) in
    (same, ground (arith, same, eqb_ℤ_refl a.last_updated, text_lt_total a.writer_id b.writer_id))

stays_exchange : (o p : Option MembershipEntry) → Agree o p → stays o (stays p o) ≡ stays p o
unfolding stays
stays_exchange none none h = refl
stays_exchange none (some b) h = refl
stays_exchange (some a) none h = ground arith
stays_exchange (some a) (some b) h = elim (Bool-cases (incoming_wins a b)) [
  | inl wins ↦ rw (wins, stays) (ground arith)
  | inr loses ↦ elim (Bool-cases (incoming_wins b a)) [
    | inl back ↦ rw (loses, stays, back) refl
    | inr both ↦
        let (t, w) = tie a b loses both in rw (loses, stays, both) (ap some (h a b refl refl t w))
  ]
]

stays_again : (o p : Option MembershipEntry) → stays (stays o p) p ≡ stays o p
unfolding stays
stays_again o none = refl
stays_again none (some b) = ground arith
stays_again (some a) (some b) = elim (Bool-cases (incoming_wins b a)) [
  | inl wins ↦ rw (wins, stays) (ground arith)
  | inr loses ↦ rw (loses, stays, loses) refl
]

-- a merge of a table that is merged already changes no entry
pub merge_into_again :
    (incoming local : MembershipTable) (ring ring' : RingMap) (n : Text)
    → IsMap incoming
    → find n (merge_into incoming ((merge_into incoming (local, ring)).0, ring')).0
      ≡ find n (merge_into incoming (local, ring)).0
merge_into_again incoming local ring ring' n u =
    find-merge_into-stays incoming (merge_into incoming (local, ring)).0 ring' n u
    ∙ ap (λ o. stays o (find n incoming)) (find-merge_into-stays incoming local ring n u)
    ∙ stays_again (find n local) (find n incoming)
    ∙ sym (find-merge_into-stays incoming local ring n u)

-- After an exchange of gossip, in which the responder merges the sender's table and the sender
-- merges the answer, the two nodes have the same entry for every node, where each table has a
-- node once and entries of one node with the same timestamp and writer are the same.
pub gossip_exchange_agrees :
    (sender responder : Node)
    → IsMap sender.table
    → IsMap responder.table
    → ((n : Text) → Agree (find n sender.table) (find n responder.table))
    → (n : Text)
    → let (responder', id, answer) = gossip_exchange sender.table responder in
      find n (apply_gossip answer sender).0.table ≡ find n responder'.table
unfolding gossip_exchange apply_gossip
gossip_exchange_agrees sender responder us ur agree n =
    let merged = find-merge_into-stays sender.table responder.table responder.ring n us in
    find-merge_into-stays (merge_into sender.table (responder.table, responder.ring)).0 sender.table
      sender.ring n (merge_into-IsMap sender.table responder.table responder.ring ur)
    ∙ ap (stays (find n sender.table)) merged
    ∙ stays_exchange (find n sender.table) (find n responder.table) (agree n)
    ∙ sym merged
