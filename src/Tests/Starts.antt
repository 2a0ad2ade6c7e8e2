-- ===== src/Tests/Starts.antt =====
-- The start of a node at concrete arguments.
use driftstore.Prelude.{ℕ, suc, pos, negsuc, false, List, [], ◌∷◌, none, some, ◌≡◌, ◌↔◌, refl}
use driftstore.Text.{Text, codes}
use driftstore.Node.{MembershipEntry}
use driftstore.Network.{Network}
use driftstore.Options.{exits, stoi}
use driftstore.Start.{
  StartOptions, start_defaults, read_quorum, bad_quorum, quorum_line, Started, stops, serves,
  node_main,
}
use driftstore.Start.Quorum.{Quorum, bad_quorum-Quorum}

spaced_number : stoi (codes " \t-12x") ≡ some (negsuc 11)
unfolding stoi
spaced_number = refl

no_number : stoi (codes "x1") ≡ none
unfolding stoi
no_number = refl

too_large : stoi (codes "2147483648") ≡ none
unfolding stoi
too_large = refl

-- peers of which none answers; the calls are counted
abbrev silent_net : Network ℕ
silent_net = record {
  call_replicate_write = λ peer request calls. (suc calls, none);
  call_replicate_read = λ peer key calls. (suc calls, none);
  call_put = λ peer request calls. (suc calls, none);
  call_ping = λ peer calls. (suc calls, false);
  call_gossip = λ peer table calls. (suc calls, none);
}

-- no quorum: two of two and one do not meet in three
no_quorum :
    node_main silent_net
      (codes "node")
      (codes "--listen=h" ∷ codes "--W=2" ∷ codes "--R=1" ∷ [])
      (pos 5)
      0
    ≡ stops 0 (quorum_line (pos 3) (pos 2) (pos 1) ∷ []) (exits (pos 1))
unfolding node_main
no_quorum = refl

abbrev three : StartOptions
three = record start_defaults { n_str = codes "3"; w_str = codes "2"; r_str = codes "2" }

three-read : read_quorum three ≡ some (pos 3, pos 2, pos 2)
unfolding read_quorum
three-read = refl

bad_quorum-Quorum_example :
    (bad_quorum (pos 3) (pos 2) (pos 2) ≡ false) ↔ Quorum (pos 3) (pos 2) (pos 2)
bad_quorum-Quorum_example = bad_quorum-Quorum three (pos 3) (pos 2) (pos 2) three-read

-- seeds that are down: three passes over two of them, and then 1
abbrev joining : List Text
joining = codes "--listen=h" ∷ codes "--seed=a,b" ∷ codes "--vnodes=0" ∷ []

calls_of : Started ℕ → ℕ
calls_of (stops calls lines ending) = calls
calls_of (serves calls lines s gossip probe) = calls

six_calls : calls_of (node_main silent_net (codes "node") joining (pos 5) 0) ≡ 6
unfolding node_main calls_of
six_calls = refl

abbrev Anything : Text → MembershipEntry → Type 0
Anything n e = Unit {0}
