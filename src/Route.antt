-- ===== src/Route.antt =====
-- src/node_kv.cpp, lines 324-349: the nodes that a key's requests go to.
pub mod StandIn
pub mod Substitute
use driftstore.Prelude.{Bool, true, false, not, ◌&&◌, List, [], ◌∷◌, Option, none, some, ite, ℕ}
use driftstore.Text.{Text, text_dec}
use driftstore.Ring.{PreferenceListEntry, mix64, fnv1a64, contains, preference_list}
use driftstore.Node.{Node}

-- `unreachableSnapshot` and the predicate made of it
unfoldable pub is_reachable : Node → Text → Bool
is_reachable s node_id = not (contains node_id s.unreachable_peers)

unfoldable pub preference_list_for_key : Text → ℕ → Node → List PreferenceListEntry
preference_list_for_key key n_max s =
    preference_list n_max (is_reachable s) s.ring (mix64 (fnv1a64 key))

-- `candidate != true_owner`
unfoldable pub differs : Text → Text → Bool
differs candidate true_owner = ite (text_dec candidate true_owner) false true

unfoldable pub may_substitute : Text → List Text → Node → Text → Bool
may_substitute true_owner excluded s candidate =
    is_reachable s candidate && not (contains candidate excluded) && differs candidate true_owner

abbrev pub first_node : List PreferenceListEntry → Option Text
first_node [] = none
first_node (entry ∷ rest) = some entry.node_id

unfoldable pub find_substitute : Text → Text → List Text → Node → Option Text
find_substitute key true_owner excluded s =
    first_node
      (preference_list 1 (may_substitute true_owner excluded s) s.ring (mix64 (fnv1a64 key)))
