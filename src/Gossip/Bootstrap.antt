-- ===== src/Gossip/Bootstrap.antt =====
-- A bootstrap as a run of critical sections, what it leaves of a node, and whom it met.
use driftstore.Prelude.{
  ℕ, zero, suc, ◌≡◌, refl, Bool, true, List, [], ◌∷◌, Option, none, some, arith, All, In,
  Bool-cases, Option-cases, inl, inr, sym, subst,
}
use driftstore.Text.{Text}
use driftstore.Node.{Node, MembershipEntry, MembershipTable}
use driftstore.Network.{Network}
use driftstore.Store.{mark_unreachable}
use driftstore.Membership.{apply_gossip}
use driftstore.Gossip.{send_gossip, bootstrap_pass, bootstrap_loop, bootstrap_from_seed}
use driftstore.Sections.{Run, merging, marking, done, after}

-- the parts of a node that gossip never changes
pub record SameConfig (s s' : Node) : Type 0 where
  pub named : s'.node_id ≡ s.node_id
  pub kept_n : s'.n ≡ s.n
  pub kept_w : s'.w ≡ s.w
  pub kept_r : s'.r ≡ s.r

pub by_fields :
    {s s' : Node} → s'.node_id ≡ s.node_id → s'.n ≡ s.n → s'.w ≡ s.w → s'.r ≡ s.r → SameConfig s s'
by_fields a b c d = record { named = a; kept_n = b; kept_w = c; kept_r = d }

SameConfig-trans : {a b c : Node} → SameConfig a b → SameConfig b c → SameConfig a c
SameConfig-trans p q = ground arith

module _ {World : Type 0} (net : Network World) where
  -- what the answers to gossip bring
  abbrev pub Brings : (Text → MembershipEntry → Type 0) → Type 0
  Brings P =
      (peer : Text) (table merged : MembershipTable) (world : World)
      → (net.call_gossip peer table world).1 ≡ some merged
      → All (λ e. P e.0 e.1) merged

  -- some seed answered with its table
  abbrev pub AnsweredGossip : List Text → Type 0
  AnsweredGossip seeds =
      (seed : Text) × (table : MembershipTable) × (merged : MembershipTable) × (world : World) × In
        seed seeds
      × ((net.call_gossip seed table world).1 ≡ some merged)

  -- how a bootstrap, or a part of it, ends
  pub record Joined (P : Text → MembershipEntry → Type 0) (seeds : List Text) (a : Node)
      (end : World × Node × Bool) : Type 0 where
    pub ran : Run P a end.1
    pub config : SameConfig a end.1
    pub met : end.2 ≡ true → AnsweredGossip seeds

  answered_later :
      (seed : Text) (seeds : List Text) → AnsweredGossip seeds → AnsweredGossip (seed ∷ seeds)
  answered_later seed seeds (x, table, merged, world, at, answer) =
      (x, table, merged, world, inr at, answer)

  -- what a pass does with what a call gave
  abbrev pub next : List Text → World × Node × Option MembershipTable → World × Node × Bool
  next seeds (world, s, some table) = (world, (apply_gossip table s).0, true)
  next seeds (world, s, none) = bootstrap_pass net seeds world s

  module _ (P : Text → MembershipEntry → Type 0) (brings : Brings P) where
    bootstrap_pass-Joined :
        (seeds : List Text) (world : World) (a s : Node)
        → Run P a s
        → SameConfig a s
        → Joined P seeds a (bootstrap_pass net seeds world s)
    unfolding bootstrap_pass send_gossip mark_unreachable apply_gossip
    bootstrap_pass-Joined [] world a s run config = record {
      ran = run;
      config = config;
      met = λ e. absurd (let x : ⊥ = cc in x);
    }
    bootstrap_pass-Joined (seed ∷ seeds) world a s run config =
        elim (Option-cases (net.call_gossip seed s.table world).1) [
          | inr (merged, answer) ↦
              subst (λ x. Joined P (seed ∷ seeds) a (next seeds x)) (sym (sent merged answer))
                (record {
                  ran = after run (merging merged s (brings seed s.table merged world answer));
                  config =
                      SameConfig-trans {b = s} {c = (apply_gossip merged s).0} config
                        (by_fields refl refl refl refl);
                  met = λ _. (seed, s.table, merged, world, inl refl, answer);
                })
          | inl failed ↦
              let marked = mark_unreachable seed s in
              let rest =
                bootstrap_pass-Joined seeds (net.call_gossip seed s.table world).0 a marked
                  (after run (marking seed s))
                  (SameConfig-trans {b = s} {c = marked} config (by_fields refl refl refl refl)) in
              subst (λ x. Joined P (seed ∷ seeds) a (next seeds x)) (sym (unsent failed))
                (record {
                  ran = rest.ran;
                  config = rest.config;
                  met = λ e. answered_later seed seeds (rest.met e);
                })
        ]
      where
        sent :
            (merged : MembershipTable)
            → (net.call_gossip seed s.table world).1 ≡ some merged
            → send_gossip net seed s.table world s
              ≡ ((net.call_gossip seed s.table world).0, s, some merged)
        sent merged answer = rw (answer, send_gossip) refl

        unsent :
            (net.call_gossip seed s.table world).1 ≡ none
            → send_gossip net seed s.table world s
              ≡ ((net.call_gossip seed s.table world).0, mark_unreachable seed s, none)
        unsent failed = rw (failed, send_gossip) refl

    bootstrap_loop-Joined :
        (left : ℕ) (seeds : List Text) (world : World) (a s : Node)
        → Run P a s
        → SameConfig a s
        → Joined P seeds a (bootstrap_loop net left seeds world s)
    unfolding bootstrap_loop
    bootstrap_loop-Joined zero seeds world a s run config = record {
      ran = run;
      config = config;
      met = λ e. absurd (let x : ⊥ = cc in x);
    }
    bootstrap_loop-Joined (suc left) seeds world a s run config =
        let pass = bootstrap_pass-Joined seeds world a s run config in
        let (world', s', joined) = bootstrap_pass net seeds world s in
        elim (Bool-cases joined) [
          | inl yes_joined ↦
              rw (yes_joined, bootstrap_loop)
                (record { ran = pass.ran; config = pass.config; met = λ _. pass.met yes_joined })
          | inr not_yet ↦
              rw (not_yet, bootstrap_loop)
                (bootstrap_loop-Joined left seeds world' a s' pass.ran pass.config)
        ]

    -- A bootstrap changes a node by critical sections only, with what the answers bring, keeps its
    -- name and its quorum, and succeeds only where a seed answered.
    pub bootstrap_from_seed-Joined :
        (seeds : List Text) (world : World) (s : Node)
        → Joined P seeds s (bootstrap_from_seed net seeds world s)
    unfolding bootstrap_from_seed
    bootstrap_from_seed-Joined seeds world s =
        bootstrap_loop-Joined 3 seeds world s s (done s) (by_fields refl refl refl refl)
