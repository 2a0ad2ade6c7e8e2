-- ===== src/Sections/Valid.antt =====
-- What every interleaving of critical sections keeps of a node.
use driftstore.Prelude.{ℕ, ℤ, ◌≡◌, refl, Bool, true, List, some, if_pos, All, sym, ap₂, subst, ◌∙◌}
use mathlib.Core.Path.{subst₂}
use driftstore.Text.{Text, text_dec}
use driftstore.Assoc.{find}
use driftstore.Clock.Build.{build_new_clock-IsMap}
use driftstore.Resolve.Frontier.{IsWell}
use driftstore.Node.{Node, is_removed, is_self_removed}
use driftstore.Node.Wellformed.{HasSelf, is_self_removed-HasSelf}
use driftstore.Store.{commit_coordinated_write, clock_of, mark_unreachable}
use driftstore.Store.Writes.{IsStore, store_replicated_write-Held, written-IsStore}
use driftstore.Membership.{apply_gossip, remove_node, new_node, compute_tokens}
use driftstore.Membership.TokenSets.{has_token}
use driftstore.Membership.RingOf.{
  Proper, Mirrors, merge_into-Mirrors, remove_node-Mirrors, new_node-Mirrors,
}
use driftstore.Reachability.{mark_reachable}
use driftstore.Sections.Hints.{
  Holder, Holder-same, no_hints-Holder, hold_hint-Holder, hold_own_hint-Holder, drop_hint-Holder,
}
use driftstore.Sections.{
  Section, Run, merging, removing, committing, storing, holding, holding_own, dropping, marking,
  unmarking, done, after,
}
use driftstore.Sections.Parts.{
  Present, merge_into-Present, remove_node-Present, remove_node-node_id, remove_node-kv_store,
  remove_node-hints, store_replicated_write-hints, Untouched, Quiet,
  store_replicated_write-Untouched, hold_hint-Quiet, hold_own_hint-Quiet, drop_hint-Quiet,
}

module _ (T : Text → List ℕ)
    (apart : (q : ℕ) (n m : Text)
      → has_token q (T n) ≡ true
      → has_token q (T m) ≡ true
      → n ≡ m) where
  -- What holds of a node at every moment.
  pub record Valid (s : Node) : Type 0 where
    -- the table has the node's own entry
    pub self : HasSelf s
    -- the ring holds the tokens of the members that are up
    pub mirrors : Mirrors T apart s.table s.ring
    -- no stored clock holds a node twice
    pub store : IsStore s
    -- and its hints are in order
    pub holder : Holder s

  Valid-Untouched : (s s' : Node) → Untouched s s' → IsStore s' → Holder s' → Valid s → Valid s'
  unfolding Untouched
  Valid-Untouched s s' (id, table, ring) store holder v = record {
    self = (v.self.0, ap₂ find id table ∙ v.self.1);
    mirrors = subst₂ (Mirrors T apart) (sym table) (sym ring) v.mirrors;
    store = store;
    holder = holder;
  }

  Valid-Quiet : (s s' : Node) → Quiet s s' → Holder s' → Valid s → Valid s'
  unfolding Quiet
  Valid-Quiet s s' (untouched, kept) holder v =
      Valid-Untouched s s' untouched (subst (All (λ e. IsWell e.1)) (sym kept) v.store) holder v

  -- a critical section keeps a valid node valid
  Section-Valid : {s s' : Node} → Section (Proper T apart) s s' → Valid s → Valid s'
  unfolding apply_gossip commit_coordinated_write mark_unreachable mark_reachable Present Untouched
  Section-Valid (merging incoming s proper) v = record {
    self = merge_into-Present s.node_id incoming s.table s.ring v.self;
    mirrors = merge_into-Mirrors T apart incoming s.table s.ring proper v.mirrors;
    store = v.store;
    holder = Holder-same s _ refl v.holder;
  }
  Section-Valid (removing k now s) v = record {
    self =
        subst (λ n. Present n (remove_node k now s).0.table) (sym (remove_node-node_id k now s))
          (remove_node-Present s.node_id k now s v.self);
    mirrors = remove_node-Mirrors T apart k now s v.mirrors;
    store = subst (All (λ e. IsWell e.1)) (sym (remove_node-kv_store k now s)) v.store;
    holder = Holder-same s _ (remove_node-hints k now s) v.holder;
  }
  Section-Valid (committing key value context now s) v =
      Valid-Untouched s _ (refl, refl, refl)
        (written-IsStore key _ s
          (build_new_clock-IsMap context (clock_of (find key s.kv_store)) s.node_id now) v.store)
        (Holder-same s _ refl v.holder) v
  Section-Valid (storing key incoming s well) v =
      Valid-Untouched s _ (store_replicated_write-Untouched key incoming s)
        (store_replicated_write-Held key incoming s well v.store).store
        (Holder-same s _ (store_replicated_write-hints key incoming s) v.holder) v
  Section-Valid (holding target hint s well) v =
      Valid-Quiet s _ (hold_hint-Quiet target hint s) (hold_hint-Holder target hint s well v.holder)
        v
  Section-Valid (holding_own target hint s well) v =
      Valid-Quiet s _ (hold_own_hint-Quiet target hint s)
        (hold_own_hint-Holder target hint s well v.holder) v
  Section-Valid (dropping target key hint s) v =
      Valid-Quiet s _ (drop_hint-Quiet target key hint s)
        (drop_hint-Holder target key hint s v.holder) v
  Section-Valid (marking peer_id s) v = record {
    self = v.self;
    mirrors = v.mirrors;
    store = v.store;
    holder = Holder-same s _ refl v.holder;
  }
  Section-Valid (unmarking peer_id s) v = record {
    self = v.self;
    mirrors = v.mirrors;
    store = v.store;
    holder = Holder-same s _ refl v.holder;
  }

  Run-Valid : {s s' : Node} → Run (Proper T apart) s s' → Valid s → Valid s'
  Run-Valid (done s) v = v
  Run-Valid (after run section) v = Section-Valid section (Run-Valid run v)

  new_node-Valid :
      (node_id : Text) (vnodes n w r : ℕ) (now : ℤ)
      → compute_tokens node_id vnodes ≡ T node_id
      → Valid (new_node node_id vnodes n w r now)
  unfolding new_node find
  new_node-Valid node_id vnodes n w r now all = record {
    self = (_, if_pos (text_dec node_id node_id) refl _ _);
    mirrors = new_node-Mirrors T apart node_id vnodes n w r now all;
    store = tt;
    holder = no_hints-Holder (new_node node_id vnodes n w r now) refl;
  }

  -- Where no two nodes share a token, every entry that gossip brings carries its node's tokens, and
  -- no clock that arrives holds a node twice, a node that starts stays valid under every
  -- interleaving of its critical sections: its table has its own entry, so that asking whether it
  -- was removed never throws; its ring holds the tokens of the members that are up; no clock of a
  -- version or a hint that it keeps holds a node twice; and it holds no two hints for one target
  -- and key, and each hint under its own key.
  pub new_node-Run-Valid :
      (node_id : Text) (vnodes n w r : ℕ) (now : ℤ) (s : Node)
      → compute_tokens node_id vnodes ≡ T node_id
      → Run (Proper T apart) (new_node node_id vnodes n w r now) s
      → Valid s × ((gone : Bool) × (is_self_removed s ≡ some gone))
  new_node-Run-Valid node_id vnodes n w r now s all run =
      let v = Run-Valid run (new_node-Valid node_id vnodes n w r now all) in
      (v, (is_removed v.self.0.status, is_self_removed-HasSelf s v.self))
