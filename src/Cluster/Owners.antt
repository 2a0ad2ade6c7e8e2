-- ===== src/Cluster/Owners.antt =====
-- The nodes that a coordinator writes for, and those whose threads have acknowledged.
use driftstore.Prelude.{
  All, All-In, All-of_In, Bool, In, List, Pairwise, [], arith, false, if_neg, if_pos, if◌then◌else◌,
  inl, inr, ite, length, none, refl, some, subst, sym, true, ◌∷◌, ◌≡◌, ◌≢◌,
}
use driftstore.Text.{Text, text_dec}
use driftstore.Clock.{VectorClock}
use driftstore.Ring.{PreferenceListEntry}
use driftstore.FanOut.{Task, sending, start_tasks, task_for}
use driftstore.Cluster.{Cluster}
use driftstore.Ring.Natural.{owner_of, owner_ids}
use driftstore.Cluster.Tally.{Owned, ones, Covered, Tally}

-- The nodes that the threads of a coordinator write for.
unfoldable pub owners : Text → List PreferenceListEntry → List Text
owners node_id [] = []
owners node_id (entry ∷ rest) = ite (text_dec entry.node_id node_id) (owners node_id rest) (
    (elim entry.hint_for_node_id [ none ↦ entry.node_id | some owner ↦ owner ])
    ∷ owners node_id rest)

-- no thread has acknowledged
unfoldable pub unmarked : List Text → List Bool
unmarked [] = []
unmarked (o ∷ os) = false ∷ unmarked os

pub ones-unmarked : (os : List Text) → ones (unmarked os) ≡ 0
unfolding unmarked
ones-unmarked [] = refl
ones-unmarked (o ∷ os) = omega (arith, ones-unmarked os)

-- those whose threads have
unfoldable pub picked : List Text → List Bool → List Text
picked [] ms = []
picked (o ∷ os) [] = []
picked (o ∷ os) (m ∷ ms) = let rest = picked os ms in if m then o ∷ rest else rest

module _ (key : Text) (clock : VectorClock) (c : Cluster) where
  task_for-Owned :
      (ids : List Text) (entry : PreferenceListEntry)
      → Owned
          (elim entry.hint_for_node_id [ none ↦ entry.node_id | some owner ↦ owner ])
          (task_for ids entry)
  task_for-Owned ids entry =
      elim entry.hint_for_node_id
        as (λ h.
          Owned (elim h [ none ↦ entry.node_id | some owner ↦ owner ])
            (elim h [
              | none ↦ sending entry.node_id entry.node_id ids false
              | some owner ↦ sending entry.node_id owner ids true
            ])) [
              | none ↦ (refl, λ e. refl)
              | some owner ↦ (refl, λ e. absurd (let x : ⊥ = cc in x))
            ]

  pub start_tasks-Tally :
      (id : Text) (ids : List Text) (pref_list : List PreferenceListEntry)
      → Tally key clock c
          (owners id pref_list)
          (start_tasks id ids pref_list)
          (unmarked (owners id pref_list))
  unfolding owners start_tasks unmarked
  start_tasks-Tally id ids [] = tt
  start_tasks-Tally id ids (entry ∷ rest) = elim (text_dec entry.node_id id) [
    | yes same ↦ rw (if_pos _ same, if_pos _ same) (start_tasks-Tally id ids rest)
    | no differ ↦
        rw (if_neg _ differ, if_neg _ differ)
          (task_for-Owned ids entry, start_tasks-Tally id ids rest)
  ]

  pub Tally-picked :
      (os : List Text) (ts : List Task) (ms : List Bool)
      → Tally key clock c os ts ms
      → All (Covered key clock c) (picked os ms) × (length (picked os ms) ≡ ones ms)
  unfolding picked
  Tally-picked [] [] [] h = (tt, refl)
  Tally-picked [] [] (m ∷ ms) h = elim h [ ]
  Tally-picked [] (t ∷ ts) ms h = elim h [ ]
  Tally-picked (o ∷ os) [] ms h = elim h [ ]
  Tally-picked (o ∷ os) (t ∷ ts) [] h = elim h [ ]
  Tally-picked (o ∷ os) (t ∷ ts) (true ∷ ms) h =
      let rest = Tally-picked os ts ms h.1 in ((h.0.0, rest.0), omega (arith, rest.1))
  Tally-picked (o ∷ os) (t ∷ ts) (false ∷ ms) h =
      let rest = Tally-picked os ts ms h.1 in (rest.0, omega (arith, rest.1))

pub picked-All {ℓ} :
    (P : Text → Type ℓ) (os : List Text) (ms : List Bool) → All P os → All P (picked os ms)
unfolding picked
picked-All P [] ms h = tt
picked-All P (o ∷ os) [] h = tt
picked-All P (o ∷ os) (true ∷ ms) h = (h.0, picked-All P os ms h.1)
picked-All P (o ∷ os) (false ∷ ms) h = picked-All P os ms h.1

pub picked-Pairwise :
    (os : List Text) (ms : List Bool) → Pairwise ◌≢◌ os → Pairwise ◌≢◌ (picked os ms)
unfolding picked
picked-Pairwise [] ms h = tt
picked-Pairwise (o ∷ os) [] h = tt
picked-Pairwise (o ∷ os) (true ∷ ms) h =
    (picked-All (λ x. o ≢ x) os ms h.0, picked-Pairwise os ms h.1)
picked-Pairwise (o ∷ os) (false ∷ ms) h = picked-Pairwise os ms h.1

pub picked-In : (os : List Text) (ms : List Bool) → All (λ o. In o os) (picked os ms)
picked-In os ms = picked-All (λ o. In o os) os ms (All-of_In (λ o. In o os) os (λ o m. m))

-- They are nodes that entries stand for.
pub owners-All {ℓ} :
    (P : Text → Type ℓ) (id : Text) (pref_list : List PreferenceListEntry)
    → All P (owner_ids pref_list)
    → All P (owners id pref_list)
unfolding owners
owners-All P id [] h = tt
owners-All P id (entry ∷ rest) h = elim (text_dec entry.node_id id) [
  | yes same ↦ rw (if_pos _ same) (owners-All P id rest h.1)
  | no differ ↦ rw (if_neg _ differ) (h.0, owners-All P id rest h.1)
]

owners-Pairwise :
    (id : Text) (pref_list : List PreferenceListEntry)
    → Pairwise ◌≢◌ (owner_ids pref_list)
    → Pairwise ◌≢◌ (owners id pref_list)
unfolding owners
owners-Pairwise id [] h = tt
owners-Pairwise id (entry ∷ rest) h = elim (text_dec entry.node_id id) [
  | yes same ↦ rw (if_pos _ same) (owners-Pairwise id rest h.1)
  | no differ ↦
      rw (if_neg _ differ)
        (owners-All (λ o. owner_of entry ≢ o) id rest h.0, owners-Pairwise id rest h.1)
]

-- the first entry that names a node, and not as a substitute
abbrev pub NamesPlainly : Text → List PreferenceListEntry → Type 0
NamesPlainly id [] = ⊥
NamesPlainly id (entry ∷ rest) =
    ite (text_dec entry.node_id id) (entry.hint_for_node_id ≡ none) (NamesPlainly id rest)

-- an entry that names a node plainly stands for it
plain_owner :
    (entry : PreferenceListEntry) (id : Text)
    → entry.node_id ≡ id
    → entry.hint_for_node_id ≡ none
    → owner_of entry ≡ id
plain_owner entry id same plain = ground (arith, same, plain)

pub NamesPlainly-In :
    (id : Text) (pref_list : List PreferenceListEntry)
    → NamesPlainly id pref_list
    → In id (owner_ids pref_list)
NamesPlainly-In id [] named = elim named [ ]
NamesPlainly-In id (entry ∷ rest) named = elim (text_dec entry.node_id id) [
  | yes same ↦ inl (sym (plain_owner entry id same (rw (if_pos _ same) at named)))
  | no differ ↦ inr (NamesPlainly-In id rest (rw (if_neg _ differ) at named))
]

-- the coordinator that is named plainly is none of the nodes that it writes to
self-owners :
    (id : Text) (pref_list : List PreferenceListEntry)
    → Pairwise ◌≢◌ (owner_ids pref_list)
    → NamesPlainly id pref_list
    → All (λ o. id ≢ o) (owners id pref_list)
unfolding owners
self-owners id [] h named = tt
self-owners id (entry ∷ rest) h named = elim (text_dec entry.node_id id) [
  | yes same ↦
      let is_self = plain_owner entry id same (rw (if_pos _ same) at named) in
      rw (if_pos _ same) (
        owners-All (λ o. id ≢ o) id rest
          (subst (λ x. All (λ o. x ≢ o) (owner_ids rest)) is_self h.0))
  | no differ ↦
      let later = rw (if_neg _ differ) at named in
      let other =
        All-In (λ o. owner_of entry ≢ o) (owner_ids rest) id h.0 (NamesPlainly-In id rest later) in
      rw (if_neg _ differ) (λ e. other (sym e), self-owners id rest h.1 later)
]

-- The coordinator and the nodes that it writes to are distinct.
pub owners-distinct :
    (id : Text) (pref_list : List PreferenceListEntry)
    → Pairwise ◌≢◌ (owner_ids pref_list)
    → NamesPlainly id pref_list
    → Pairwise ◌≢◌ (id ∷ owners id pref_list)
owners-distinct id pref_list h named =
    (self-owners id pref_list h named, owners-Pairwise id pref_list h)
