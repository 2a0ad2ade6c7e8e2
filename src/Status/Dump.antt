-- ===== src/Status/Dump.antt =====
-- Two tables that hold the same entries print the same text, in whatever order they hold them.
use driftstore.Prelude.{
  ◌≡◌, refl, List, [], ◌∷◌, ◌++◌, some, if_pos, if_neg, arith, All, All-of_In, In, inl, inr, sym,
  ap, ◌∙◌, length,
}
use driftstore.Text.{Text, text_dec, codes}
use driftstore.Assoc.{find, IsMap}
use driftstore.Membership.{to_string}
use driftstore.Node.{MembershipEntry, MembershipTable}
use driftstore.Status.{
  keys_of, sort_texts, comma_before, entry_dump, entries_dump, dump_keys, dump_table,
}
use driftstore.Status.Sort.{
  AllNew, In-sort_texts, sort_texts-In, sort_texts-Pairwise, Pairwise-unique,
}

find-In :
    (k : Text) (t : MembershipTable) (e : MembershipEntry) → find k t ≡ some e → In k (keys_of t)
unfolding find
find-In k [] e h = absurd (let x : ⊥ = cc in x)
find-In k ((j, w) ∷ t) e h = elim (text_dec j k) [
  | yes same ↦ inl (sym same)
  | no differ ↦ inr (find-In k t e (rw (if_neg _ differ) at h))
]

In-find :
    (k : Text) (t : MembershipTable)
    → In k (keys_of t)
    → (e : MembershipEntry) × (find k t ≡ some e)
unfolding find
In-find k [] m = elim m [ ]
In-find k ((j, w) ∷ t) (inl same) = (w, if_pos (text_dec j k) (sym same) _ _)
In-find k ((j, w) ∷ t) (inr m) = elim (text_dec j k) [
  | yes same ↦ (w, if_pos (text_dec j k) same _ _)
  | no differ ↦ let (e, f) = In-find k t m in (e, if_neg (text_dec j k) differ _ _ ∙ f)
]

keys_of-AllNew : (t : MembershipTable) → IsMap t → AllNew (keys_of t)
keys_of-AllNew [] u = tt
keys_of-AllNew ((k, e) ∷ t) u =
    (λ m. let (w, f) = In-find k t m in cc (f, u.0), keys_of-AllNew t u.1)

-- Every key of the one is a key of the other.
keys_of_into :
    (t u : MembershipTable)
    → ((n : Text) → find n t ≡ find n u)
    → (x : Text) → In x (keys_of t)
    → In x (keys_of u)
keys_of_into t u same x m = let (e, f) = In-find x t m in find-In x u e (sym (same x) ∙ f)

sort_texts-same :
    (t u : MembershipTable)
    → IsMap t
    → IsMap u
    → ((n : Text) → find n t ≡ find n u)
    → sort_texts (keys_of t) ≡ sort_texts (keys_of u)
sort_texts-same t u ut uu same =
    let into = λ (x : Text). λ (m : In x (sort_texts (keys_of t))).
      In-sort_texts x (keys_of u) (keys_of_into t u same x (sort_texts-In x (keys_of t) m)) in
    let back = λ (x : Text). λ (m : In x (sort_texts (keys_of u))).
      In-sort_texts x (keys_of t)
        (keys_of_into u t (λ n. sym (same n)) x (sort_texts-In x (keys_of u) m)) in
    Pairwise-unique (sort_texts (keys_of t)) (sort_texts (keys_of u))
      (sort_texts-Pairwise (keys_of t) (keys_of-AllNew t ut))
      (sort_texts-Pairwise (keys_of u) (keys_of-AllNew u uu)) into back

-- where every key is there, the entries print, and the same for equal tables
entries_dump-some :
    (keys : List Text) (t u : MembershipTable)
    → ((n : Text) → find n t ≡ find n u)
    → All (λ k. (e : MembershipEntry) × (find k t ≡ some e)) keys
    → (out : Text) × (entries_dump keys t ≡ some out) × (entries_dump keys u ≡ some out)
unfolding entries_dump
entries_dump-some [] t u same h = ([], refl, refl)
entries_dump-some (k ∷ keys) t u same h =
    let (e, f) = h.0 in
    let (rest, r, q) = entries_dump-some keys t u same h.1 in
    let g : find k u ≡ some e = sym (same k) ∙ f in
    (entry_dump k e ++ comma_before keys ++ rest, ground (arith, f, r), ground (arith, g, q))

-- Two tables that hold no key twice and the same entry under every key print, and print the same
-- text, in whatever order they hold their entries.
pub dump_table_same :
    (t u : MembershipTable)
    → IsMap t
    → IsMap u
    → ((n : Text) → find n t ≡ find n u)
    → (out : Text) × (dump_table t ≡ some out) × (dump_table u ≡ some out)
unfolding dump_table dump_keys
dump_table_same t u ut uu same =
    let keys = sort_texts (keys_of t) in
    let (out, p, q) =
      entries_dump-some keys t u same
        (All-of_In _ keys (λ k m. In-find k t (sort_texts-In k (keys_of t) m))) in
    (
      codes "table_size=" ++ to_string (length keys) ++ codes " entries=[" ++ out ++ codes "]",
      rw (p, dump_keys) refl,
      ap (λ ks. dump_keys ks u) (sym (sort_texts-same t u ut uu same)) ∙ rw (q, dump_keys) refl,
    )
