-- ===== src/Cluster/OwnReads.antt =====
-- src/node_kv.cpp, lines 169-189, in a cluster: the nodes that a read asks, and its own result.
use driftstore.Prelude.{
  ◌≡◌, ◌≢◌, refl, List, [], ◌∷◌, if_pos, if_neg, All, In, Pairwise, Option-cases, inl, inr, sym,
  subst, ◌∙◌,
}
use driftstore.Text.{Text, text_dec}
use driftstore.Clock.{VectorClock}
use driftstore.Clock.Order.{Le}
use driftstore.Ring.{PreferenceListEntry}
use driftstore.Ring.Owners.{node_ids}
use driftstore.Node.{Node}
use driftstore.Store.{local_get}
use driftstore.Store.Writes.{IsStore, some_inj, none_ne_some, local_get-IsWell}
use driftstore.Get.{ReplicaResult, read_self, other_nodes}
use driftstore.Get.Repair.{IsResult}
use driftstore.Get.Quorum.{peer_ids}
use driftstore.Cluster.Copies.{HasCopy}
use driftstore.Cluster.Reads.{Reports}

-- what holds of the nodes of a list holds of those that are asked
pub other_nodes-All {ℓ} :
    (P : Text → Type ℓ) (id : Text) (pref_list : List PreferenceListEntry)
    → All P (node_ids pref_list)
    → All P (other_nodes id pref_list)
unfolding other_nodes
other_nodes-All P id [] h = tt
other_nodes-All P id (entry ∷ rest) h = elim (text_dec entry.node_id id) [
  | yes same ↦ rw (if_pos _ same) (other_nodes-All P id rest h.1)
  | no differ ↦ rw (if_neg _ differ) (h.0, other_nodes-All P id rest h.1)
]

pub other_nodes-Pairwise :
    (id : Text) (pref_list : List PreferenceListEntry)
    → Pairwise ◌≢◌ (node_ids pref_list)
    → Pairwise ◌≢◌ (other_nodes id pref_list)
unfolding other_nodes
other_nodes-Pairwise id [] h = tt
other_nodes-Pairwise id (entry ∷ rest) h = elim (text_dec entry.node_id id) [
  | yes same ↦ rw (if_pos _ same) (other_nodes-Pairwise id rest h.1)
  | no differ ↦
      rw (if_neg _ differ)
        (other_nodes-All (λ o. entry.node_id ≢ o) id rest h.0, other_nodes-Pairwise id rest h.1)
]

pub other_nodes-ne :
    (id : Text) (pref_list : List PreferenceListEntry)
    → All (λ n. id ≢ n) (other_nodes id pref_list)
unfolding other_nodes
other_nodes-ne id [] = tt
other_nodes-ne id (entry ∷ rest) = elim (text_dec entry.node_id id) [
  | yes same ↦ rw (if_pos _ same) (other_nodes-ne id rest)
  | no differ ↦ rw (if_neg _ differ) (λ e. differ (sym e), other_nodes-ne id rest)
]

-- What the node's own read adds: nothing, or one result of its own.
pub record OwnRead (clock : VectorClock) (ws : List Text) (ns : List Text) (id : Text)
    (results : List ReplicaResult) : Type 0 where
  pub wells : All IsResult results
  pub reports : All (Reports clock ws) results
  pub distinct : Pairwise ◌≢◌ (peer_ids results)
  pub at_home : All (λ n. In n ns) (peer_ids results)
  pub itself : All (λ n. n ≡ id) (peer_ids results)

pub read_self-OwnRead :
    (key : Text) (clock : VectorClock) (ws ns : List Text) (pref_list : List PreferenceListEntry)
    (s : Node)
    → IsStore s
    → (In s.node_id ws → HasCopy key clock s)
    → All (λ n. In n ns) (node_ids pref_list)
    → OwnRead clock ws ns s.node_id (read_self key pref_list s)
unfolding read_self
read_self-OwnRead key clock ws ns [] s store copy home = record {
  wells = tt;
  reports = tt;
  distinct = tt;
  at_home = tt;
  itself = tt;
}
read_self-OwnRead key clock ws ns (entry ∷ rest) s store copy home =
    elim (text_dec entry.node_id s.node_id) [
      | no differ ↦
          rw (if_neg _ differ) (read_self-OwnRead key clock ws ns rest s store copy home.1)
      | yes same ↦ elim (Option-cases (local_get key s)) [
        | inl empty ↦
            rw (if_pos _ same, empty)
              (record {
                wells = (tt, tt);
                reports = (
                  λ m.
                      absurd
                        (none_ne_some (sym empty ∙ (copy (subst (λ x. In x ws) same m)).holds)),
                  tt,
                );
                distinct = (tt, tt);
                at_home = (home.0, tt);
                itself = (same, tt);
              })
        | inr (v, holds) ↦
            rw (if_pos _ same, holds)
              (record {
                wells = (local_get-IsWell s key v store holds, tt);
                reports = (
                  λ m.
                      let c = copy (subst (λ x. In x ws) same m) in
                      (refl, subst (λ y. Le clock y.clock) (some_inj (sym c.holds ∙ holds)) c.seen),
                  tt,
                );
                distinct = (tt, tt);
                at_home = (home.0, tt);
                itself = (same, tt);
              })
      ]
    ]
