-- ===== src/Gossip/Silence.antt =====
-- src/node_membership.cpp, lines 128-154: a bootstrap that fails has asked every seed three times, and
-- every call was lost.
use driftstore.Prelude.{
  ℕ, zero, suc, ◌≡◌, refl, Bool, true, false, List, [], ◌∷◌, ◌++◌, none, some, Bool-cases,
  Option-cases, inl, inr, sym, ap, subst,
}
use driftstore.Text.{Text}
use driftstore.Node.{Node}
use driftstore.Network.{Network}
use driftstore.Store.{mark_unreachable}
use driftstore.Gossip.Bootstrap.{next}
use driftstore.Gossip.{send_gossip, bootstrap_pass, bootstrap_loop, bootstrap_from_seed}

-- the calls of some passes
abbrev pub passes : ℕ → List Text → List Text
passes zero seeds = []
passes (suc left) seeds = seeds ++ passes left seeds

module _ {World : Type 0} (net : Network World) where
  -- Calls of gossip with the node's table, one after the other, that are all lost; each marks its
  -- callee.
  pub data Lost : List Text → World → Node → World → Node → Type 0 where
    no_call : (w : World) (s : Node) → Lost [] w s w s
    lost :
        (seed : Text) (rest : List Text) (w w' : World) (s s' : Node)
        → (net.call_gossip seed s.table w).1 ≡ none
        → Lost rest (net.call_gossip seed s.table w).0 (mark_unreachable seed s) w' s'
        → Lost (seed ∷ rest) w s w' s'

  Lost-append :
      (xs ys : List Text) (w w' w'' : World) (s s' s'' : Node)
      → Lost xs w s w' s'
      → Lost ys w' s' w'' s''
      → Lost (xs ++ ys) w s w'' s''
  Lost-append _ ys w _ w'' s _ s'' (no_call _ _) later = later
  Lost-append _ ys w w' w'' s s' s'' (lost seed rest _ _ _ _ e tail) later =
      lost seed (rest ++ ys) w w'' s s'' e (Lost-append rest ys _ w' w'' _ s' s'' tail later)

  -- where a pass meets no answer
  abbrev FailsBy : List Text → World → Node → World × Node × Bool → Type 0
  FailsBy calls w s end = end.2 ≡ false → Lost calls w s end.0 end.1

  bootstrap_pass-Lost :
      (seeds : List Text) (w : World) (s : Node) → FailsBy seeds w s (bootstrap_pass net seeds w s)
  unfolding bootstrap_pass send_gossip
  bootstrap_pass-Lost [] w s = λ e. no_call w s
  bootstrap_pass-Lost (seed ∷ seeds) w s = elim (Option-cases (net.call_gossip seed s.table w).1) [
    | inr (merged, answer) ↦
        let sent : send_gossip net seed s.table w s
            ≡ ((net.call_gossip seed s.table w).0, s, some merged) =
          rw (answer, send_gossip) refl in
        let joined : (bootstrap_pass net (seed ∷ seeds) w s).2 ≡ true =
          ap (λ x. (next net seeds x).2) sent in
        λ e. absurd (let x : ⊥ = cc in x)
    | inl failed ↦
        let rest =
          bootstrap_pass-Lost seeds (net.call_gossip seed s.table w).0 (mark_unreachable seed s) in
        let unsent : send_gossip net seed s.table w s
            ≡ ((net.call_gossip seed s.table w).0, mark_unreachable seed s, none) =
          rw (failed, send_gossip) refl in
        let same : bootstrap_pass net (seed ∷ seeds) w s
            ≡ bootstrap_pass net seeds (net.call_gossip seed s.table w).0
                (mark_unreachable seed s) =
          ap (next net seeds) unsent in
        subst (FailsBy (seed ∷ seeds) w s) (sym same) (λ e. lost seed seeds w _ s _ failed (rest e))
  ]

  bootstrap_loop-Lost :
      (left : ℕ) (seeds : List Text) (w : World) (s : Node)
      → FailsBy (passes left seeds) w s (bootstrap_loop net left seeds w s)
  unfolding bootstrap_loop
  bootstrap_loop-Lost zero seeds w s = λ e. no_call w s
  bootstrap_loop-Lost (suc left) seeds w s =
      let (w', s', joined) = bootstrap_pass net seeds w s in
      elim (Bool-cases joined) [
        | inl yes_joined ↦ rw (yes_joined, bootstrap_loop) (λ e. absurd (let x : ⊥ = cc in x))
        | inr not_yet ↦
            rw (not_yet, bootstrap_loop)
              (λ e.
                Lost-append seeds (passes left seeds) w w' _ s s' _
                  (bootstrap_pass-Lost seeds w s not_yet) (bootstrap_loop-Lost left seeds w' s' e))
      ]

  pub bootstrap_from_seed-Lost :
      (seeds : List Text) (w : World) (s : Node)
      → let (w', s', joined) = bootstrap_from_seed net seeds w s in
        joined ≡ false → Lost (passes 3 seeds) w s w' s'
  unfolding bootstrap_from_seed
  bootstrap_from_seed-Lost seeds w s = bootstrap_loop-Lost 3 seeds w s
