-- ===== src/Ring/Clockwise.antt =====
-- The order in which `preferenceList` meets the nodes: clockwise from the hash, all tokens once.
use driftstore.Prelude.{
  ℕ, zero, suc, ◌+◌, ◌<◌, ◌≤◌, ◌≡◌, refl, Bool, true, false, not, List, [], ◌∷◌, ◌++◌, map, none,
  some, arith, ltb, ◌==◌, length, length-append, get_elem?, if◌then◌else◌, keep_if, Bool-cases,
  Option-cases, inl, inr, ap, sym, ◌∙◌,
}
use mathlib.Core.List.{append_assoc, append-nil}
use driftstore.Text.{Text}
use driftstore.Ring.{
  RingMap, Walk, start, upper_bound, visit, next_position, preference_loop, preference_list,
}

abbrev pub nodes : RingMap → List Text
nodes = map (λ e. e.1)

-- the nodes that the loop meets from a position in so many rounds
cycle : ℕ → RingMap → ℕ → List Text
cycle zero ring it = []
cycle (suc left) ring it = elim (get_elem? ring it) [
  | none ↦ []
  | some (token, n) ↦ n ∷ cycle left ring (next_position ring it)
]

module _ (n_max : ℕ) (is_reachable : Text → Bool) where
  -- the loop over the nodes met
  unfoldable pub walk_loop : List Text → Walk → Walk
  walk_loop [] w = w
  walk_loop (candidate ∷ rest) w =
      let w' = visit n_max is_reachable candidate w in
      let next = walk_loop rest w' in if length w'.preference_list == n_max then w' else next

  preference_loop-cycle :
      (left : ℕ) (ring : RingMap) (it : ℕ) (w : Walk)
      → preference_loop n_max is_reachable left ring it w ≡ walk_loop (cycle left ring it) w
  unfolding preference_loop walk_loop cycle
  preference_loop-cycle zero ring it w = refl
  preference_loop-cycle (suc left) ring it w = elim (Option-cases (get_elem? ring it)) [
    | inl gone ↦ rw (gone, preference_loop, cycle)
    | inr ((token, n), there) ↦
        rw (there, preference_loop, cycle)
          (ground (
            arith,
            preference_loop-cycle left ring (next_position ring it) (visit n_max is_reachable n w),
          ))
  ]

module _ {ℓ} {A : Type ℓ} where
  get_elem?-append :
      (xs : List A) (y : A) (ys : List A) → get_elem? (xs ++ y ∷ ys) (length xs) ≡ some y
  get_elem?-append [] y ys = refl
  get_elem?-append (x ∷ xs) y ys = get_elem?-append xs y ys

cycle_step :
    (left : ℕ) (ring : RingMap) (it j t : ℕ) (n : Text)
    → get_elem? ring it ≡ some (t, n)
    → next_position ring it ≡ j
    → cycle (suc left) ring it ≡ n ∷ cycle left ring j
unfolding cycle
cycle_step left ring it j t n found next = rw (found, cycle, next)

next_position_wrap : (ring : RingMap) (it : ℕ) → it + 1 ≡ length ring → next_position ring it ≡ 0
unfolding next_position
next_position_wrap ring it h = ground arith

next_position_on : (ring : RingMap) (it : ℕ) → it + 1 < length ring → next_position ring it ≡ it + 1
unfolding next_position
next_position_on ring it h = ground arith

-- what stands at the position behind `pre`, and how long the map is
at_position :
    (pre rest ring : RingMap) (x : ℕ × Text) (it : ℕ)
    → ring ≡ pre ++ x ∷ rest
    → length pre ≡ it
    → (get_elem? ring it ≡ some x) × (length ring ≡ it + suc (length rest))
at_position pre rest ring x it e h =
    (rw (e, ← h) (get_elem?-append pre x rest), rw (e, ← h) (length-append pre (x ∷ rest)))

-- from a position, up to the end of a middle part
cycle_part :
    (pre part post ring : RingMap) (it : ℕ)
    → ring ≡ pre ++ (part ++ post)
    → length pre ≡ it
    → cycle (length part) ring it ≡ nodes part
cycle_part pre [] post ring it e h = unfold cycle in refl
cycle_part pre ((t, n) ∷ []) post ring it e h =
    let (found, _) = at_position pre post ring (t, n) it e h in
    cycle_step 0 ring it (next_position ring it) t n found refl ∙ (unfold cycle in refl)
cycle_part pre ((t, n) ∷ x ∷ part) post ring it e h =
    let (found, size) = at_position pre ((x ∷ part) ++ post) ring (t, n) it e h in
    let ih =
      cycle_part (pre ++ (t, n) ∷ []) (x ∷ part) post ring (it + 1)
        (e ∙ sym (append_assoc pre ((t, n) ∷ []) ((x ∷ part) ++ post)))
        (omega (arith, length-append pre ((t, n) ∷ []))) in
    cycle_step (length (x ∷ part)) ring it (it + 1) t n found
      (next_position_on ring it (omega arith))
    ∙ ap (◌∷◌ n) ih

-- from a position to the end and on from the beginning
cycle_wrap :
    (pre part ring : RingMap) (x : ℕ × Text) (it k : ℕ)
    → ring ≡ pre ++ x ∷ part
    → length pre ≡ it
    → cycle (length (x ∷ part) + k) ring it ≡ nodes (x ∷ part) ++ cycle k ring 0
cycle_wrap pre [] ring (t, n) it k e h =
    let (found, size) = at_position pre [] ring (t, n) it e h in
    let one : 1 + k ≡ suc k = omega arith in
    rw one (cycle_step k ring it 0 t n found (next_position_wrap ring it (omega arith)))
cycle_wrap pre (y ∷ part) ring (t, n) it k e h =
    let (found, size) = at_position pre (y ∷ part) ring (t, n) it e h in
    let ih =
      cycle_wrap (pre ++ (t, n) ∷ []) part ring y (it + 1) k
        (e ∙ sym (append_assoc pre ((t, n) ∷ []) (y ∷ part)))
        (omega (arith, length-append pre ((t, n) ∷ []))) in
    let more : length ((t, n) ∷ y ∷ part) + k ≡ suc (length (y ∷ part) + k) = omega arith in
    ap (λ m. cycle m ring it) more
    ∙ cycle_step (length (y ∷ part) + k) ring it (it + 1) t n found
        (next_position_on ring it (omega arith))
    ∙ ap (◌∷◌ n) ih

-- strictly ascending tokens, all above a bound
abbrev pub Ascends : ℕ → RingMap → Type 0
Ascends bound [] = Unit
Ascends bound ((t, n) ∷ ring) = (bound ≤ t) × Ascends (suc t) ring

abbrev pub IsRing : RingMap → Type 0
IsRing = Ascends 0

-- the tokens beyond the hash, and the others
abbrev pub beyond : ℕ → RingMap → RingMap
beyond key_hash = keep_if (λ e. ltb key_hash e.0)

abbrev pub up_to : ℕ → RingMap → RingMap
up_to key_hash = keep_if (λ e. not (ltb key_hash e.0))

beyond_all :
    (h b : ℕ) (ring : RingMap)
    → h < b
    → Ascends b ring
    → (beyond h ring ≡ ring) × (up_to h ring ≡ [])
beyond_all h b [] le a = (refl, refl)
beyond_all h b ((t, n) ∷ ring) le a =
    let ih = beyond_all h (suc t) ring (omega arith) a.1 in
    (ground (arith, ih.0), ground (arith, ih.1))

up_to-append-beyond :
    (h b : ℕ) (ring : RingMap)
    → Ascends b ring
    → (ring ≡ up_to h ring ++ beyond h ring) × (length (up_to h ring) ≡ upper_bound h ring)
unfolding upper_bound
up_to-append-beyond h b [] a = (refl, refl)
up_to-append-beyond h b ((t, n) ∷ ring) a = elim (Bool-cases (ltb h t)) [
  | inl past ↦
      let r = beyond_all h (suc t) ring (ground arith) a.1 in rw (past, r.0, r.1) (refl, refl)
  | inr here ↦
      let ih = up_to-append-beyond h (suc t) ring a.1 in rw here (ap (◌∷◌ (t, n)) ih.0, ap suc ih.1)
]

-- The nodes met clockwise from the hash: those of the tokens beyond it, then the others.
abbrev pub clockwise : ℕ → RingMap → List Text
clockwise key_hash ring = nodes (beyond key_hash ring) ++ nodes (up_to key_hash ring)

cycle_turn :
    (before past ring : RingMap) (it : ℕ)
    → ring ≡ before ++ past
    → length before ≡ it
    → cycle (length ring) ring (if it == length ring then 0 else it) ≡ nodes past ++ nodes before
cycle_turn before [] ring it e h =
    let all : ring ≡ before = e ∙ append-nil before in
    let end : (it == length ring) ≡ true = rw all (ground arith) in
    rw end (cycle_part [] ring [] ring 0 (sym (append-nil ring)) refl ∙ ap nodes all)
cycle_turn before (x ∷ past) ring it e h =
    let (_, size) = at_position before past ring x it e h in
    let on : (it == length ring) ≡ false = ground arith in
    let turn : length ring ≡ length (x ∷ past) + it = omega arith in
    rw on (
      ap (λ m. cycle m ring it) turn
      ∙ cycle_wrap before past ring x it it e h
      ∙ ap (◌++◌ (nodes (x ∷ past)))
          (ap (λ m. cycle m ring 0) (sym h) ∙ cycle_part [] before (x ∷ past) ring 0 e refl))

-- On a map in ascending order the loop meets the nodes clockwise from the hash, each token once.
pub preference_list-walk_loop :
    (n_max : ℕ) (is_reachable : Text → Bool) (ring : RingMap) (key_hash : ℕ)
    → IsRing ring
    → preference_list n_max is_reachable ring key_hash
      ≡ (walk_loop n_max is_reachable (clockwise key_hash ring) start).preference_list
unfolding preference_list
preference_list-walk_loop n_max is_reachable ring h a =
    let (split, at) = up_to-append-beyond h 0 ring a in
    ap (λ w. w.preference_list)
      (preference_loop-cycle n_max is_reachable (length ring) ring _ start
        ∙ ap (λ l. walk_loop n_max is_reachable l start)
            (cycle_turn (up_to h ring) (beyond h ring) ring (upper_bound h ring) split at))
