-- ===== src/Start.antt =====
-- src/node_main.cpp, lines 47-138: the start of a node, from its arguments to its background loops.
-- The handlers that may run once the server listens, and the events of `bootstrapFromSeed`, are
-- left out.
pub mod Quorum
pub mod Settings
pub mod Numbers
pub mod Serving
pub mod Ends
use driftstore.Prelude.{
  ℕ, ◌+◌, ◌-◌, ◌^◌, ℤ, pos, negsuc, pos_part, neg_part, ltb_ℤ, Bool, true, false, ◌||◌, List, [],
  ◌∷◌, ◌++◌, Option, none, some, if◌then◌else◌, ltb, leb,
}
use driftstore.Text.{Text, codes, strip_prefix}
use driftstore.Node.{Node}
use driftstore.Network.{Network}
use driftstore.Membership.{new_node}
use driftstore.Gossip.{bootstrap_from_seed}
use driftstore.Cli.{is_empty, split_seeds}
use driftstore.Logging.{node_init, bootstrap_init}
use driftstore.Options.{Line, err, event, Ending, exits, terminates, stoi, stoll, integer_text}

pub record StartOptions : Type 0 where
  pub listen : Text
  pub seed_arg : Text
  pub gossip_interval_ms : Text
  pub reachability_interval_ms : Text
  pub vnodes_str : Text
  pub n_str : Text
  pub w_str : Text
  pub r_str : Text

abbrev pub start_defaults : StartOptions
start_defaults = record {
  listen = [];
  seed_arg = [];
  gossip_interval_ms = codes "1000";
  reachability_interval_ms = codes "3000";
  vnodes_str = codes "32";
  n_str = codes "3";
  w_str = codes "2";
  r_str = codes "2";
}

-- One round of the loop over the arguments; an argument that is not known is passed over.
unfoldable pub start_argument : Text → StartOptions → StartOptions
unfolding strip_prefix
start_argument arg o = elim (strip_prefix (codes "--listen=") arg) [
  | some v ↦ record o { listen = v }
  | none ↦ elim (strip_prefix (codes "--seed=") arg) [
    | some v ↦ record o { seed_arg = v }
    | none ↦ elim (strip_prefix (codes "--gossip-interval=") arg) [
      | some v ↦ record o { gossip_interval_ms = v }
      | none ↦ elim (strip_prefix (codes "--probe-interval=") arg) [
        | some v ↦ record o { reachability_interval_ms = v }
        | none ↦ elim (strip_prefix (codes "--vnodes=") arg) [
          | some v ↦ record o { vnodes_str = v }
          | none ↦ elim (strip_prefix (codes "--N=") arg) [
            | some v ↦ record o { n_str = v }
            | none ↦ elim (strip_prefix (codes "--W=") arg) [
              | some v ↦ record o { w_str = v }
              | none ↦ elim (strip_prefix (codes "--R=") arg) [
                | some v ↦ record o { r_str = v }
                | none ↦ o
              ]
            ]
          ]
        ]
      ]
    ]
  ]
]

unfoldable pub start_arguments : List Text → StartOptions → StartOptions
unfolding start_argument
start_arguments [] o = o
start_arguments (arg ∷ args) o = start_arguments args (start_argument arg o)

-- a - b
abbrev pub sub_ℕ : ℕ → ℕ → ℤ
sub_ℕ a b = if leb b a then pos (a - b) else negsuc (b - a - 1)

-- a sum of two `int`, back in their range by 2 ^ 32
abbrev pub wrap_int : ℤ → ℤ
wrap_int (pos k) = if ltb k (2 ^ 31) then pos k else sub_ℕ k (2 ^ 32)
wrap_int (negsuc k) = if ltb k (2 ^ 31) then negsuc k else sub_ℕ (2 ^ 32) (k + 1)

-- `a + b`. An overflow, which C++ leaves undefined, wraps as it does on two's complement machines.
abbrev pub int_add : ℤ → ℤ → ℤ
int_add a b = wrap_int (sub_ℕ (pos_part a + pos_part b) (neg_part a + neg_part b))

-- `a <= b`
abbrev pub leb_ℤ : ℤ → ℤ → Bool
leb_ℤ a b = leb (pos_part a + neg_part b) (pos_part b + neg_part a)

unfoldable pub bad_quorum : ℤ → ℤ → ℤ → Bool
unfolding ltb_ℤ
bad_quorum n w r =
    ltb_ℤ n (pos 1)
    || ltb_ℤ w (pos 1)
    || ltb_ℤ r (pos 1)
    || ltb_ℤ n w
    || ltb_ℤ n r
    || leb_ℤ (int_add w r) n

-- N, W and R; `none` is an exception of `stoi`.
unfoldable pub read_quorum : StartOptions → Option (ℤ × ℤ × ℤ)
unfolding stoi
read_quorum o = elim (stoi o.n_str) [
  | none ↦ none
  | some n ↦ elim (stoi o.w_str) [
    | none ↦ none
    | some w ↦ elim (stoi o.r_str) [ none ↦ none | some r ↦ some (n, w, r) ]
  ]
]

abbrev pub start_usage : Text → Line
start_usage program = err (
    codes "usage: "
    ++ program
    ++ codes " --listen=<address> [--seed=<address>[,<address>...]] "
    ++ codes "[--gossip-interval=<time_in_ms>] [--vnodes=<count>]\n")

unfoldable pub quorum_line : ℤ → ℤ → ℤ → Line
quorum_line n w r = err (
    codes "invalid quorum config: N="
    ++ integer_text n
    ++ codes " W="
    ++ integer_text w
    ++ codes " R="
    ++ integer_text r
    ++ codes " (require N,W,R >= 1, W <= N, R <= N, W + R > N)\n")

-- The process ends, or the node serves with its two loops at their intervals.
pub data Started (World : Type 0) : Type 0 where
  stops : World → List Line → Ending → Started World
  serves : World → List Line → Node → ℤ → ℤ → Started World

module _ {World : Type 0} (net : Network World) where
  -- `start`
  unfoldable pub start_loops : StartOptions → List Line → World → Node → Started World
  unfolding stoll
  start_loops o lines world s = elim (stoll o.gossip_interval_ms) [
    | none ↦ stops world lines terminates
    | some gossip ↦ elim (stoll o.reachability_interval_ms) [
      | none ↦ stops world lines terminates
      | some probe ↦ serves world lines s gossip probe
    ]
  ]

  -- the bootstrap, where there are seeds
  unfoldable pub join_seeds : StartOptions → List Text → World → Node → Started World
  unfolding start_loops bootstrap_from_seed
  join_seeds o [] world s = start_loops o (event node_init s.node_id [] ∷ []) world s
  join_seeds o (seed ∷ seeds) world s =
      let (world', s', joined) = bootstrap_from_seed net (seed ∷ seeds) world s in
      let lines =
        event node_init s.node_id []
        ∷ event bootstrap_init s.node_id (codes "source=bootstrap seeds=" ++ o.seed_arg)
        ∷ [] in
      if joined then start_loops o lines world' s' else stops world' lines (exits (pos 1))

  -- A number of virtual nodes below 0 gives no tokens.
  unfoldable pub start_node : StartOptions → ℤ → ℤ → ℤ → ℤ → World → Started World
  unfolding join_seeds new_node split_seeds
  start_node o n w r now world = elim (stoi o.vnodes_str) [
    | none ↦ stops world [] terminates
    | some vnodes ↦
        join_seeds o (split_seeds o.seed_arg) world
          (new_node o.listen (pos_part vnodes) (pos_part n) (pos_part w) (pos_part r) now)
  ]

  -- `now` is what `nowMillis` returns in the constructor.
  unfoldable pub node_main : Text → List Text → ℤ → World → Started World
  unfolding start_arguments read_quorum bad_quorum quorum_line start_node
  node_main program arguments now world =
      let o = start_arguments arguments start_defaults in
      if is_empty o.listen
      then stops world (start_usage program ∷ []) (exits (pos 1))
      else elim (read_quorum o) [
        | none ↦ stops world [] terminates
        | some (n, w, r) ↦
            if bad_quorum n w r
            then stops world (quorum_line n w r ∷ []) (exits (pos 1))
            else start_node o n w r now world
      ]
