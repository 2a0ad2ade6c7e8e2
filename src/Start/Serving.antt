-- ===== src/Start/Serving.antt =====
-- src/node_main.cpp, lines 93-138: the ends of a start, and of its steps behind the quorum check.
use driftstore.Prelude.{
  ℕ, ◌+◌, ◌≤◌, ◌<◌, ◌≡◌, ◌≢◌, refl, ℤ, pos, pos_part, true, false, List, [], ◌∷◌, some, arith,
  Bool-cases, Option-cases, inl, inr, sym, ap, subst, ◌∙◌,
}
use driftstore.Text.{Text}
use driftstore.Node.{Node, MembershipEntry}
use driftstore.Network.{Network}
use driftstore.Membership.{new_node}
use driftstore.Gossip.{bootstrap_from_seed}
use driftstore.Gossip.Silence.{Lost, passes, bootstrap_from_seed-Lost}
use driftstore.Gossip.Bootstrap.{
  SameConfig, by_fields, Brings, AnsweredGossip, bootstrap_from_seed-Joined,
}
use driftstore.Sections.{Run, done}
use driftstore.Cli.{is_empty, split_seeds}
use driftstore.Logging.{node_init}
use driftstore.Options.{Line, event, exits, terminates, stoi, stoll}
use driftstore.Start.{StartOptions, Started, stops, serves, start_loops, join_seeds, start_node}
use driftstore.Start.Numbers.{Unreadable, Spelled, whole_pos}
use driftstore.Start.Quorum.{Quorum}

cons_apart : (x : Text) (xs : List Text) → x ∷ xs ≢ []
cons_apart x xs e = cc e

whole : {n w r : ℤ} → Quorum n w r → Quorum (pos (pos_part n)) (pos (pos_part w)) (pos (pos_part r))
whole q = record {
  writes = q.writes;
  reads = q.reads;
  w_within = q.w_within;
  r_within = q.r_within;
  meets = q.meets;
  held = q.held;
}

module _ {World : Type 0} (net : Network World) (P : Text → MembershipEntry → Type 0)
    (brings : Brings net P) (o : StartOptions) (now : ℤ) where
  -- What is true of a node that serves.
  pub record Serving (s : Node) : Type 0 where
    pub named : s.node_id ≡ o.listen
    pub writes : 1 ≤ s.w
    pub reads : 1 ≤ s.r
    pub w_within : s.w ≤ s.n
    pub r_within : s.r ≤ s.n
    -- W + R is more than N
    pub meets : s.n < s.w + s.r
    -- as the options spell them
    pub spelled : Spelled o (pos s.n) (pos s.w) (pos s.r)
    -- it is a new node after critical sections that took in what seeds answered
    pub vnodes : ℤ
    pub spelled_vnodes : stoi o.vnodes_str ≡ some vnodes
    pub ran : Run P (new_node o.listen (pos_part vnodes) s.n s.w s.r now) s
    -- where it was given seeds, one of them answered
    pub met : split_seeds o.seed_arg ≢ [] → AnsweredGossip net (split_seeds o.seed_arg)

  pub data StartEnd (world : World) : Started World → Type 0 where
    -- no address: nothing is done
    unusable :
        (lines : List Line)
        → is_empty o.listen ≡ true
        → StartEnd world (stops world lines (exits (pos 1)))
    unreadable :
        (world' : World) (lines : List Line)
        → is_empty o.listen ≡ false
        → Unreadable o
        → StartEnd world (stops world' lines terminates)
    -- a quorum that cannot be: nothing is done
    overdrawn :
        (n w r : ℤ) (lines : List Line)
        → is_empty o.listen ≡ false
        → Spelled o n w r
        → (Quorum n w r → ⊥)
        → StartEnd world (stops world lines (exits (pos 1)))
    -- three passes over the seeds, and every call was lost
    unjoined :
        (vnodes : ℤ) (n w r : ℕ) (world' : World) (s' : Node) (lines : List Line)
        → stoi o.vnodes_str ≡ some vnodes
        → Spelled o (pos n) (pos w) (pos r)
        → is_empty o.listen ≡ false
        → split_seeds o.seed_arg ≢ []
        → Lost net
            (passes 3 (split_seeds o.seed_arg))
            world
            (new_node o.listen (pos_part vnodes) n w r now)
            world'
            s'
        → StartEnd world (stops world' lines (exits (pos 1)))
    serving :
        (world' : World) (lines : List Line) (s : Node) (gossip probe : ℤ)
        → is_empty o.listen ≡ false
        → stoll o.gossip_interval_ms ≡ some gossip
        → stoll o.reachability_interval_ms ≡ some probe
        → Serving s
        → StartEnd world (serves world' lines s gossip probe)

  start_loops-StartEnd :
      (lines : List Line) (world world' : World) (s : Node)
      → is_empty o.listen ≡ false
      → Serving s
      → StartEnd world (start_loops net o lines world' s)
  unfolding start_loops
  start_loops-StartEnd lines world world' s listens h =
      elim (Option-cases (stoll o.gossip_interval_ms)) [
        | inl thrown ↦
            rw (thrown, start_loops) (unreadable world' lines listens (inr (inr (inl thrown))))
        | inr (gossip, read) ↦ elim (Option-cases (stoll o.reachability_interval_ms)) [
          | inl thrown ↦
              rw (read, start_loops, thrown)
                (unreadable world' lines listens (inr (inr (inr thrown))))
          | inr (probe, read') ↦
              rw (read, start_loops, read')
                (serving world' lines s gossip probe listens read read' h)
        ]
      ]

  -- a new node that a bootstrap may have changed
  Serving-of :
      (vnodes : ℤ) (n w r : ℕ) (s : Node)
      → stoi o.vnodes_str ≡ some vnodes
      → Spelled o (pos n) (pos w) (pos r)
      → Quorum (pos n) (pos w) (pos r)
      → SameConfig (new_node o.listen (pos_part vnodes) n w r now) s
      → Run P (new_node o.listen (pos_part vnodes) n w r now) s
      → (split_seeds o.seed_arg ≢ [] → AnsweredGossip net (split_seeds o.seed_arg))
      → Serving s
  unfolding new_node
  Serving-of vnodes n w r s given_vnodes given_numbers q same run met = record {
    named = same.named;
    writes = omega (arith, same.kept_w, q.writes);
    reads = omega (arith, same.kept_r, q.reads);
    w_within = omega (arith, same.kept_w, same.kept_n, q.w_within);
    r_within = omega (arith, same.kept_r, same.kept_n, q.r_within);
    meets = omega (arith, same.kept_w, same.kept_r, same.kept_n, q.meets);
    spelled = (
      given_numbers.0 ∙ ap (λ k. some (pos k)) (sym same.kept_n),
      given_numbers.1 ∙ ap (λ k. some (pos k)) (sym same.kept_w),
      given_numbers.2 ∙ ap (λ k. some (pos k)) (sym same.kept_r),
    );
    vnodes = vnodes;
    spelled_vnodes = given_vnodes;
    ran =
        subst (λ k. Run P (new_node o.listen (pos_part vnodes) k s.w s.r now) s) (sym same.kept_n)
          (subst (λ k. Run P (new_node o.listen (pos_part vnodes) n k s.r now) s) (sym same.kept_w)
            (subst (λ k. Run P (new_node o.listen (pos_part vnodes) n w k now) s) (sym same.kept_r)
              run));
    met = met;
  }

  join_seeds-StartEnd :
      (vnodes : ℤ) (n w r : ℕ) (seeds : List Text) (world : World)
      → is_empty o.listen ≡ false
      → stoi o.vnodes_str ≡ some vnodes
      → Spelled o (pos n) (pos w) (pos r)
      → Quorum (pos n) (pos w) (pos r)
      → split_seeds o.seed_arg ≡ seeds
      → StartEnd world
          (join_seeds net o seeds world (new_node o.listen (pos_part vnodes) n w r now))
  unfolding join_seeds
  join_seeds-StartEnd vnodes n w r [] world listens given_vnodes given_numbers q same =
      let s = new_node o.listen (pos_part vnodes) n w r now in
      start_loops-StartEnd (event node_init s.node_id [] ∷ []) world world s listens (
        Serving-of vnodes n w r s given_vnodes given_numbers q (by_fields refl refl refl refl)
          (done s) (λ some_seed. absurd (some_seed same)))
  join_seeds-StartEnd vnodes n w r (seed ∷ seeds) world listens given_vnodes given_numbers q same =
      let s = new_node o.listen (pos_part vnodes) n w r now in
      let j = bootstrap_from_seed-Joined net P brings (seed ∷ seeds) world s in
      let (world', s', joined) = bootstrap_from_seed net (seed ∷ seeds) world s in
      elim (Bool-cases joined) [
        | inl entered ↦
            rw (entered, join_seeds)
              (start_loops-StartEnd _ world world' s' listens (
                Serving-of vnodes n w r s' given_vnodes given_numbers q j.config j.ran
                  (λ _. subst (AnsweredGossip net) (sym same) (j.met entered))))
        | inr failed ↦
            rw (failed, join_seeds)
              (unjoined vnodes n w r world' s' _ given_vnodes given_numbers listens
                (λ none_given. cons_apart seed seeds (sym same ∙ none_given))
                (subst (λ ss. Lost net (passes 3 ss) world s world' s') (sym same)
                  (bootstrap_from_seed-Lost net (seed ∷ seeds) world s failed)))
      ]

  pub start_node-StartEnd :
      (n w r : ℤ) (world : World)
      → is_empty o.listen ≡ false
      → Spelled o n w r
      → Quorum n w r
      → StartEnd world (start_node net o n w r now world)
  unfolding start_node
  start_node-StartEnd n w r world listens given_numbers q =
      elim (Option-cases (stoi o.vnodes_str)) [
        | inl thrown ↦ rw (thrown, start_node) (unreadable world [] listens (inr (inl thrown)))
        | inr (vnodes, read) ↦
            rw (read, start_node)
              (join_seeds-StartEnd vnodes (pos_part n) (pos_part w) (pos_part r)
                (split_seeds o.seed_arg) world listens read (whole_Spelled given_numbers) (whole q)
                refl)
      ]
    where
      whole_Spelled :
          Spelled o n w r → Spelled o (pos (pos_part n)) (pos (pos_part w)) (pos (pos_part r))
      whole_Spelled (a, b, c) = (
        a ∙ ap some (whole_pos n (omega (arith, q.writes, q.w_within))),
        b ∙ ap some (whole_pos w q.writes),
        c ∙ ap some (whole_pos r q.reads),
      )
