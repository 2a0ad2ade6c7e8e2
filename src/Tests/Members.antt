-- ===== src/Tests/Members.antt =====
-- Merges, removals and gossip at small tables.
use driftstore.Prelude.{
  some, Bool, none, ℕ, pos, List, true, [], ◌∷◌, ◌≡◌, ◌≢◌, refl, ap, sym, ◌∙◌, ite, if_pos, arith,
  ltb_ℤ, eqb_ℤ,
}
use mathlib.Core.Path.{subst₂}
use driftstore.Text.{Text, text_dec, text_lt}
use driftstore.Assoc.{find}
use driftstore.Ring.Tokens.{owner}
use driftstore.Node.{Node, is_self_removed}
use driftstore.Membership.{
  merge_into, remove_node, new_node, compute_tokens, gossip_exchange, apply_gossip, incoming_wins,
}
use driftstore.Membership.Merge.{Agree, newest, find-merge_into, gossip_exchange_agrees}
use driftstore.Membership.RingOf.{is_up, Proper, Mirrors, merge_into-Mirrors}
use driftstore.Membership.TokenSets.{has_token}
use driftstore.Store.{commit_coordinated_write}
use driftstore.Sections.{Run, committing, removing, done, after}
use driftstore.Sections.Valid.{Valid, new_node-Run-Valid}
use driftstore.Tests.Samples.{
  node_a, node_b, node_c, entry_a, entry_b, entry_b_removed, sample, sample_b, sample_table-IsMap,
}

-- the removal of `b` reaches `a`, which takes the tokens of `b` off its ring
removal_spreads :
    (merge_into sample_b.table (sample.table, sample.ring)).1 ≡ (10, node_a) ∷ (30, node_a) ∷ []
unfolding merge_into incoming_wins find text_dec ltb_ℤ eqb_ℤ text_lt
removal_spreads = refl

find-merge_into_example :
    find node_b (merge_into sample_b.table (sample.table, sample.ring)).0
    ≡ newest (find node_b sample.table) (find node_b sample_b.table)
unfolding find
find-merge_into_example = find-merge_into sample_b.table sample.table sample.ring node_b (refl, tt)

sample-Agree : (n : Text) → Agree (find n sample.table) (find n sample_b.table)
unfolding find
sample-Agree n a b p q t w = elim (text_dec node_b n) [
  | yes same ↦
      let pa : entry_b ≡ a = ground (arith, p, same) in
      let pb : entry_b_removed ≡ b = ground (arith, q, same) in
      absurd (apart_times (ap (λ e. e.last_updated) pa ∙ t ∙ sym (ap (λ e. e.last_updated) pb)))
  | no differ ↦ ground (arith, q, differ)
]
  where
    apart_times : pos 60 ≢ pos 70
    apart_times e = ground arith

gossip_exchange_agrees_example :
    let (responder', id, answer) = gossip_exchange sample.table sample_b in
    find node_b (apply_gossip answer sample).0.table ≡ find node_b responder'.table
unfolding find
gossip_exchange_agrees_example =
    gossip_exchange_agrees sample sample_b sample_table-IsMap (refl, tt) sample-Agree node_b

-- the tokens of `a` and `b`
abbrev tokens : Text → List ℕ
tokens n = ite (text_dec n node_a) (10 ∷ 30 ∷ []) (ite (text_dec n node_b) (20 ∷ []) [])

tokens_apart :
    (q : ℕ) (n m : Text) → has_token q (tokens n) ≡ true → has_token q (tokens m) ≡ true → n ≡ m
unfolding has_token
tokens_apart q n m h k = ground arith

sample-Mirrors : Mirrors tokens tokens_apart sample.table sample.ring
unfolding find owner has_token is_up text_dec
sample-Mirrors = record {
  ascends = omega arith;
  owns = λ q n. (λ h. (ground arith, ground arith), λ h. ground arith);
  proper = λ n e h. elim (text_dec node_a n) [
    | yes same ↦
        let it : entry_a ≡ e = ground (arith, h, same) in
        subst₂ (Proper tokens tokens_apart) same it refl
    | no differ ↦ elim (text_dec node_b n) [
      | yes same ↦
          let it : entry_b ≡ e = ground (arith, h, same) in
          subst₂ (Proper tokens tokens_apart) same it refl
      | no also ↦ ground (arith, h, differ, also)
    ]
  ];
}

merge_into-Mirrors_example :
    let (table', ring') = merge_into sample_b.table (sample.table, sample.ring) in
    Mirrors tokens tokens_apart table' ring'
merge_into-Mirrors_example =
    merge_into-Mirrors tokens tokens_apart sample_b.table sample.table sample.ring (refl, tt)
      sample-Mirrors

-- the tokens of `c` alone, two of them
abbrev tokens_c : Text → List ℕ
tokens_c n = ite (text_dec n node_c) (compute_tokens node_c 2) []

tokens_c_apart :
    (q : ℕ) (n m : Text) → has_token q (tokens_c n) ≡ true → has_token q (tokens_c m) ≡ true → n ≡ m
unfolding has_token
tokens_c_apart q n m h k = ground arith

tokens_c_self : compute_tokens node_c 2 ≡ tokens_c node_c
tokens_c_self = rw (if_pos (text_dec node_c node_c) refl) refl

-- `c` starts, commits a write, and is told of its own removal
abbrev c_started : Node
c_started = new_node node_c 2 3 2 2 (pos 1)

abbrev c_wrote : Node
c_wrote = (commit_coordinated_write (b'k' ∷ []) (b'v' ∷ []) none (pos 2) c_started).0

abbrev c_removed : Node
c_removed = (remove_node node_c (pos 3) c_wrote).0

c-Run : Run (Proper tokens_c tokens_c_apart) c_started c_removed
c-Run =
    after (after (done c_started) (committing (b'k' ∷ []) (b'v' ∷ []) none (pos 2) c_started))
      (removing node_c (pos 3) c_wrote)

new_node-Run-Valid_example :
    Valid tokens_c tokens_c_apart c_removed
    × ((gone : Bool) × (is_self_removed c_removed ≡ some gone))
new_node-Run-Valid_example =
    new_node-Run-Valid tokens_c tokens_c_apart node_c 2 3 2 2 (pos 1) c_removed tokens_c_self c-Run
