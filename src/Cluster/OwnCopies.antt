-- ===== src/Cluster/OwnCopies.antt =====
-- src/node_kv.cpp, lines 406-440, in a cluster: the coordinator's own copy of a write.
use driftstore.Prelude.{
  ℕ, ◌≡◌, refl, ℤ, false, List, [], ◌∷◌, Option, none, some, if_pos, if_neg, All, sym, ap, subst,
  ◌∙◌,
}
use driftstore.Text.{Text, text_dec}
use driftstore.Assoc.{IsMap}
use driftstore.Assoc.Laws.{find-insert}
use driftstore.Clock.{VectorClock}
use driftstore.Clock.Build.{build_new_clock-IsMap}
use driftstore.Clock.Order.{Le_refl}
use driftstore.Ring.{PreferenceListEntry}
use driftstore.Node.{Node, is_self_removed}
use driftstore.Store.Writes.{written-IsStore}
use driftstore.Store.Hints.{held_hint}
use driftstore.Resolve.Frontier.{IsWell}
use driftstore.Store.{local_get, commit_coordinated_write}
use driftstore.FanOut.Acks.{OnlyMarks}
use driftstore.Put.{Times, coordinate_entry, coordinate_local}
use driftstore.Cluster.Copies.{WellNode, HasCopy, same_self, same_copies, same_hints}
use driftstore.Cluster.Owners.{NamesPlainly}

-- The coordinator's own part where the list names it plainly.
pub record OwnCopy (key : Text) (s : Node) (local : Node × VectorClock × ℕ) : Type 0 where
  pub counted : local.2 ≡ 1
  pub well : IsMap local.1.counters
  pub copy : HasCopy key local.1 local.0
  pub kept : WellNode s → WellNode local.0

commit-HasCopy :
    (key value : Text) (context : Option VectorClock) (now : ℤ) (s : Node)
    → is_self_removed s ≡ some false
    → let (s', clock) = commit_coordinated_write key value context now s in
      IsMap clock.counters × HasCopy key clock s' × (WellNode s → WellNode s')
unfolding commit_coordinated_write local_get held_hint
commit-HasCopy key value context now s serves =
    let (s', clock) = commit_coordinated_write key value context now s in
    (
      build_new_clock-IsMap context _ s.node_id now,
      record {
        serves = same_self s s' refl refl ∙ serves;
        version = record { value = value; clock = clock };
        holds = find-insert key key _ s.kv_store ∙ if_pos (text_dec key key) refl _ _;
        seen = Le_refl clock;
      },
      λ w. record {
        store =
            written-IsStore key (record { value = value; clock = clock }) s
              (build_new_clock-IsMap context _ s.node_id now) w.store;
        hints = w.hints;
      },
    )

pub coordinate_local-OwnCopy :
    (key value : Text) (context : Option VectorClock) (t : Times)
    (pref_list : List PreferenceListEntry) (s : Node)
    → is_self_removed s ≡ some false
    → NamesPlainly s.node_id pref_list
    → OwnCopy key s (coordinate_local key value context t pref_list s)
unfolding coordinate_local coordinate_entry
coordinate_local-OwnCopy key value context t [] s serves named = elim named [ ]
coordinate_local-OwnCopy key value context t (entry ∷ rest) s serves named =
    elim (text_dec entry.node_id s.node_id) [
      | yes same ↦
          let plain : entry.hint_for_node_id ≡ none = rw (if_pos _ same) at named in
          let (well, copy, kept) = commit-HasCopy key value context t.now s serves in
          rw (if_pos _ same) (
            rw (plain, coordinate_entry)
              (record { counted = refl; well = well; copy = copy; kept = kept }))
      | no differ ↦ rw (if_neg _ differ) (
          coordinate_local-OwnCopy key value context t rest s serves
            (rw (if_neg _ differ) at named))
    ]

pub HasCopy-marks :
    (key : Text) (clock : VectorClock) (s s' : Node)
    → OnlyMarks s s'
    → HasCopy key clock s
    → HasCopy key clock s'
HasCopy-marks key clock s s' marks c = record {
  serves = same_self s s' (ap (λ x. x.node_id) marks) (ap (λ x. x.table) marks) ∙ c.serves;
  version = c.version;
  holds = same_copies key s s' (ap (λ x. x.kv_store) marks) ∙ c.holds;
  seen = c.seen;
}

pub WellNode-marks : (s s' : Node) → OnlyMarks s s' → WellNode s → WellNode s'
WellNode-marks s s' marks w = record {
  store = subst (All (λ e. IsWell e.1)) (sym (ap (λ x. x.kv_store) marks)) w.store;
  hints =
      λ t k h e. w.hints t k h (sym (same_hints s s' (ap (λ x. x.hints_for_target) marks) t k) ∙ e);
}
