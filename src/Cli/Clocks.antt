-- ===== src/Cli/Clocks.antt =====
-- A clock that is printed reads back.
use driftstore.Prelude.{
  ℕ, zero, suc, ◌≤◌, ◌<◌, ◌≡◌, ◌≢◌, refl, true, false, [], ◌∷◌, ◌++◌, Option, none, some, ite,
  arith, ltb, All, All-append, Bool-cases, inl, inr, ap, ◌∙◌, length, length-append,
}
use mathlib.Core.List.{append-nil}
use driftstore.Text.{Text, text_dec}
use driftstore.Assoc.{Assoc, find, insert, IsMap}
use driftstore.Assoc.Laws.{find-insert}
use driftstore.Clock.{VectorClock, no_clock, u64_mod}
use driftstore.Membership.{to_string}
use driftstore.Cli.{
  before, behind, is_empty, parsed, read_pair, parse_pairs, parse_clock_arg, entry_lt,
  insert_sorted, sort_entries, entry_text, render_rest, render, clock_to_string,
}
use driftstore.Cli.Digits.{
  Free, to_string-decimal, all_digits-Free, before-append, behind-append, before-Free, behind-Free,
}

-- a node's name that can be read back, and a count of 64 bits
abbrev pub Printable : Text × ℕ → Type 0
Printable e = (is_empty e.0 ≡ false) × Free b',' e.0 × Free b':' e.0 × (e.1 < u64_mod)

-- the counters that reading entries one after the other leaves
unfoldable insert_all : Assoc ℕ → Assoc ℕ → Assoc ℕ
insert_all [] m = m
insert_all ((k, v) ∷ es) m = insert_all es (insert k v m)

entry_text-Free : (e : Text × ℕ) → Printable e → Free b',' (entry_text e)
entry_text-Free (k, v) p =
    let facts = to_string-decimal v in
    All-append (λ x. x ≢ b',') k (b':' ∷ to_string v) p.1
      (λ e. ground (arith, e), all_digits-Free b',' (to_string v) facts.1 (inl (omega arith)))

entry_text-filled : (e : Text × ℕ) (rest : Text) → is_empty (entry_text e ++ rest) ≡ false
entry_text-filled ([], v) rest = refl
entry_text-filled (x ∷ k, v) rest = refl

-- one round of the parser over an entry at the front
module _ (fuel : ℕ) (k : Text) (v : ℕ) (clock : VectorClock) (p : Printable (k, v)) where
  abbrev read : VectorClock
  read = record clock { counters = insert k v clock.counters }

  read_pair-entry_text : read_pair (entry_text (k, v)) clock ≡ parsed read
  unfolding read_pair
  read_pair-entry_text =
      let (same, digits, some_digit) = to_string-decimal v in
      let node = before-append b':' k (to_string v) p.2 in
      let count = behind-append b':' k (to_string v) p.2 in
      let small : ltb v u64_mod ≡ true = ground (arith, p.3) in
      rw (count, read_pair, node, p.0, some_digit, digits, same, small) refl

  round :
      (remaining : Text)
      → is_empty remaining ≡ false
      → before b',' remaining ≡ entry_text (k, v)
      → parse_pairs (suc fuel) remaining clock ≡ (elim (behind b',' remaining) [
        | none ↦ parsed read
        | some rest ↦ parse_pairs fuel rest read
      ])
  unfolding parse_pairs
  round remaining filled pair =
      let one = ap (λ t. read_pair t clock) pair ∙ read_pair-entry_text in
      rw (filled, parse_pairs, one) refl

-- the entries at the front of a text read back
parse_pairs-render :
    (fuel : ℕ) (es : Assoc ℕ) (clock : VectorClock)
    → All Printable es
    → length es ≤ fuel
    → parse_pairs fuel (render es) clock
      ≡ parsed (record clock { counters = insert_all es clock.counters })
unfolding render render_rest insert_all
parse_pairs-render zero [] clock p h = unfold parse_pairs in refl
parse_pairs-render (suc fuel) [] clock p h = unfold parse_pairs in refl
parse_pairs-render zero (e ∷ es) clock p h = absurd (omega arith)
parse_pairs-render (suc fuel) ((k, v) ∷ []) clock p h =
    let free = entry_text-Free (k, v) p.0 in
    let whole = append-nil (entry_text (k, v)) in
    round fuel k v clock p.0 (render ((k, v) ∷ [])) (entry_text-filled (k, v) [])
      (ap (before b',') whole ∙ before-Free b',' (entry_text (k, v)) free)
    ∙ rw (ap (behind b',') whole ∙ behind-Free b',' (entry_text (k, v)) free) refl
parse_pairs-render (suc fuel) ((k, v) ∷ f ∷ es) clock p h =
    let free = entry_text-Free (k, v) p.0 in
    round fuel k v clock p.0 (render ((k, v) ∷ f ∷ es))
      (entry_text-filled (k, v) (render_rest (f ∷ es)))
      (before-append b',' (entry_text (k, v)) (render (f ∷ es)) free)
    ∙ rw (behind-append b',' (entry_text (k, v)) (render (f ∷ es)) free)
        (parse_pairs-render fuel (f ∷ es) (read fuel k v clock p.0) p.1 (omega arith))

find-insert_sorted :
    (k n : Text) (v : ℕ) (m : Assoc ℕ)
    → find k m ≡ none
    → find n (insert_sorted (k, v) m) ≡ ite (text_dec k n) (some v) (find n m)
unfolding find insert_sorted
find-insert_sorted k n v [] free = refl
find-insert_sorted k n v ((j, w) ∷ m) free = elim (Bool-cases (entry_lt (k, v) (j, w))) [
  | inl first ↦ rw first refl
  | inr later ↦ rw later (ground (arith, find-insert_sorted k n v m, free))
]

insert_sorted-IsMap :
    (k : Text) (v : ℕ) (m : Assoc ℕ) → find k m ≡ none → IsMap m → IsMap (insert_sorted (k, v) m)
unfolding find insert_sorted
insert_sorted-IsMap k v [] free u = (refl, tt)
insert_sorted-IsMap k v ((j, w) ∷ m) free u = elim (Bool-cases (entry_lt (k, v) (j, w))) [
  | inl first ↦ rw first (free, u)
  | inr later ↦
      let free_rest : find k m ≡ none = ground (arith, free) in
      rw later (
        ground (arith, find-insert_sorted k j v m free_rest, free, u.0),
        insert_sorted-IsMap k v m free_rest u.1,
      )
]

find-sort_entries : (m : Assoc ℕ) (n : Text) → IsMap m → find n (sort_entries m) ≡ find n m
unfolding find sort_entries
find-sort_entries [] n u = refl
find-sort_entries ((k, v) ∷ m) n u =
    find-insert_sorted k n v (sort_entries m) (find-sort_entries m k u.1 ∙ u.0)
    ∙ ap (ite (text_dec k n) (some v)) (find-sort_entries m n u.1)

sort_entries-IsMap : (m : Assoc ℕ) → IsMap m → IsMap (sort_entries m)
unfolding sort_entries
sort_entries-IsMap [] u = tt
sort_entries-IsMap ((k, v) ∷ m) u =
    insert_sorted-IsMap k v (sort_entries m) (find-sort_entries m k u.1 ∙ u.0)
      (sort_entries-IsMap m u.1)

insert_sorted-Printable :
    (e : Text × ℕ) (m : Assoc ℕ) → Printable e → All Printable m → All Printable (insert_sorted e m)
unfolding insert_sorted
insert_sorted-Printable e [] p h = (p, tt)
insert_sorted-Printable e (f ∷ m) p h = elim (Bool-cases (entry_lt e f)) [
  | inl first ↦ rw first (p, h)
  | inr later ↦ rw later (h.0, insert_sorted-Printable e m p h.1)
]

sort_entries-Printable : (m : Assoc ℕ) → All Printable m → All Printable (sort_entries m)
unfolding sort_entries
sort_entries-Printable [] h = tt
sort_entries-Printable (e ∷ m) h =
    insert_sorted-Printable e (sort_entries m) h.0 (sort_entries-Printable m h.1)

find-insert_all :
    (es m : Assoc ℕ) (n : Text)
    → IsMap es
    → find n (insert_all es m) ≡ (elim (find n es) [ some v ↦ some v | none ↦ find n m ])
unfolding insert_all find
find-insert_all [] m n u = refl
find-insert_all ((k, v) ∷ es) m n u =
    ground (arith, find-insert_all es (insert k v m) n u.1, find-insert k n v m, u.0)

length-render_rest : (es : Assoc ℕ) → length es ≤ length (render_rest es)
unfolding render_rest
length-render_rest [] = omega arith
length-render_rest (e ∷ es) =
    omega (arith, length-render_rest es, length-append (entry_text e) (render_rest es))

length-render : (es : Assoc ℕ) → length es ≤ length (render es)
unfolding render
length-render [] = omega arith
length-render ((k, v) ∷ es) = omega (
  arith,
  length-render_rest es,
  length-append (entry_text (k, v)) (render_rest es),
  length-append k (b':' ∷ to_string v),
)

-- A clock that is printed reads back with the same count of every node, where the nodes' names are
-- not empty and have neither a comma nor a colon, and the counts are below 2 ^ 64.
pub parse_clock_arg-clock_to_string :
    (clock : VectorClock)
    → IsMap clock.counters
    → All Printable clock.counters
    → (read_back : VectorClock) × (parse_clock_arg (clock_to_string clock) no_clock
        ≡ parsed read_back)
      × ((n : Text) → find n read_back.counters ≡ find n clock.counters)
unfolding parse_clock_arg clock_to_string find
parse_clock_arg-clock_to_string clock u p =
    let es = sort_entries clock.counters in
    (
      record no_clock { counters = insert_all es [] },
      parse_pairs-render (length (render es)) es no_clock (sort_entries-Printable clock.counters p)
          (length-render es),
      λ n.
          find-insert_all es [] n (sort_entries-IsMap clock.counters u)
          ∙ none_behind (find n es) n
          ∙ find-sort_entries clock.counters n u,
    )
  where
    none_behind : (o : Option ℕ) (n : Text) → (elim o [ some v ↦ some v | none ↦ find n [] ]) ≡ o
    none_behind none n = refl
    none_behind (some v) n = refl
