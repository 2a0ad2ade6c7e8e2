-- ===== src/Store/Writes.antt =====
-- What the two writers of `kv_store_` leave behind.
use driftstore.Prelude.{
  ◌≡◌, ◌≢◌, refl, Option, none, some, if_pos, if_neg, arith, All, Option-cases, inl, inr, ◌⊎◌, ◌∙◌,
  subst, sym,
}
use driftstore.Text.{Text}
use driftstore.Assoc.{find, insert}
use driftstore.Assoc.Laws.{find-insert, insert-All, All-find}
use driftstore.Clock.{
  VectorClock, ClockComparison, compare_vector_clocks, equal, dominates, dominated, concurrent,
}
use driftstore.Clock.Compare.{compare_vector_clocks_of_Means}
use driftstore.Clock.Order.{Le, Le_refl}
use driftstore.Resolve.{VersionedValue}
use driftstore.Resolve.Split.{NotBelow}
use driftstore.Resolve.Frontier.{IsWell}
use driftstore.Resolve.Cover.{Means-of, NotBelow-of_le}
use driftstore.Node.{Node, WriteOutcome, stored, already_current}
use driftstore.Store.{local_get, store_replicated_write}

pub some_inj : {A : Type 0} {a b : A} → some a ≡ some b → a ≡ b
some_inj h = ground arith

pub none_ne_some : {A : Type 0} {a : A} → ◌≡◌ {A = Option A} none (some a) → ⊥
none_ne_some h = cc

-- no stored clock holds a node twice
abbrev pub IsStore : Node → Type 0
IsStore s = All (λ e. IsWell e.1) s.kv_store

pub local_get-IsWell :
    (s : Node) (key : Text) (v : VersionedValue) → IsStore s → local_get key s ≡ some v → IsWell v
unfolding local_get
local_get-IsWell s key v h e = All-find (λ k x. IsWell x) s.kv_store h key v e

-- the four answers of the comparison
pub Comparison-cases :
    (a b : VectorClock)
    → (compare_vector_clocks a b ≡ equal)
      ⊎ (compare_vector_clocks a b ≡ dominates)
      ⊎ (compare_vector_clocks a b ≡ dominated)
      ⊎ (compare_vector_clocks a b ≡ concurrent)
Comparison-cases a b = by_value (compare_vector_clocks a b) refl
  where
    by_value :
        (r : ClockComparison)
        → compare_vector_clocks a b ≡ r
        → (compare_vector_clocks a b ≡ equal)
          ⊎ (compare_vector_clocks a b ≡ dominates)
          ⊎ (compare_vector_clocks a b ≡ dominated)
          ⊎ (compare_vector_clocks a b ≡ concurrent)
    by_value equal e = inl e
    by_value dominates e = inr (inl e)
    by_value dominated e = inr (inr (inl e))
    by_value concurrent e = inr (inr (inr e))

-- The version that a replica holds under `key` after a replicated write, and what was answered.
pub record Held (key : Text) (incoming : VersionedValue) (s : Node) (s' : Node)
    (outcome : WriteOutcome) : Type 0 where
  pub version : VersionedValue
  pub holds : local_get key s' ≡ some version
  -- the incoming version was taken, or the held one has seen it and stays
  pub answer :
      ((outcome ≡ stored) × (version ≡ incoming))
      ⊎ ((outcome ≡ already_current)
          × (local_get key s ≡ some version)
          × Le incoming.clock version.clock)
  -- what is held has seen the incoming version
  pub seen : Le incoming.clock version.clock
  -- what has seen the incoming and the old version has seen what is held
  pub bounded :
      (top : VersionedValue)
      → Le incoming.clock top.clock
      → ((old : VersionedValue) → local_get key s ≡ some old → Le old.clock top.clock)
      → Le version.clock top.clock
  -- neither the incoming nor the old version dominates what is held
  pub new_kept : NotBelow version incoming
  pub old_kept : (old : VersionedValue) → local_get key s ≡ some old → NotBelow version old
  pub others : (j : Text) → key ≢ j → local_get j s' ≡ local_get j s
  pub store : IsStore s'

module _ (key : Text) (incoming : VersionedValue) (s : Node) (well : IsWell incoming)
    (is_store : IsStore s) where
  pub written-IsStore : IsStore (record s { kv_store = insert key incoming s.kv_store })
  written-IsStore = insert-All (λ k x. IsWell x) key incoming s.kv_store well (λ j e p. p) is_store

  pub written_others :
      (j : Text)
      → key ≢ j
      → local_get j (record s { kv_store = insert key incoming s.kv_store }) ≡ local_get j s
  unfolding local_get
  written_others j ne = rw (find-insert, if_neg _ ne)

  pub written_self :
      local_get key (record s { kv_store = insert key incoming s.kv_store }) ≡ some incoming
  unfolding local_get
  written_self = rw (find-insert, if_pos _ refl)

  -- the write is taken where it loses to nothing that is held
  Held-written :
      ((old : VersionedValue) → local_get key s ≡ some old → NotBelow incoming old)
      → Held key incoming s (record s { kv_store = insert key incoming s.kv_store }) stored
  Held-written keeps = record {
    version = incoming;
    holds = written_self;
    answer = inl (refl, refl);
    seen = Le_refl incoming.clock;
    bounded = λ top le most. le;
    new_kept = NotBelow-of_le incoming incoming well well (Le_refl incoming.clock);
    old_kept = keeps;
    others = written_others;
    store = written-IsStore;
  }

  Held-kept :
      (old : VersionedValue)
      → local_get key s ≡ some old
      → Le incoming.clock old.clock
      → Held key incoming s s already_current
  Held-kept old e le =
      let uo = local_get-IsWell s key old is_store e in
      record {
        version = old;
        holds = e;
        answer = inr (refl, e, le);
        seen = le;
        bounded = λ top below most. most old e;
        new_kept = NotBelow-of_le old incoming uo well le;
        old_kept = λ o d.
            let same : old ≡ o = some_inj (sym e ∙ d) in
            subst (NotBelow old) same (NotBelow-of_le old old uo uo (Le_refl old.clock));
        others = λ j ne. refl;
        store = is_store;
      }

  NotBelow-held :
      (old o : VersionedValue)
      → local_get key s ≡ some old
      → compare_vector_clocks old.clock incoming.clock ≢ dominates
      → local_get key s ≡ some o
      → NotBelow incoming o
  NotBelow-held old o e keeps d =
      let same : old ≡ o = some_inj (sym e ∙ d) in
      let uo = local_get-IsWell s key old is_store e in
      subst (NotBelow incoming) same (λ below. keeps (
        compare_vector_clocks_of_Means old.clock incoming.clock uo well
          (Means-of incoming old well uo dominated below)))

  held_under : (old : VersionedValue) → find key s.kv_store ≡ some old → local_get key s ≡ some old
  unfolding local_get
  held_under old there = there

  nothing_held : find key s.kv_store ≡ none → (old : VersionedValue) → local_get key s ≢ some old
  unfolding local_get
  nothing_held gone old e = none_ne_some (sym gone ∙ e)

  -- Where no clock holds a node twice, a replica holds after a replicated write the incoming
  -- version, or the old one if that has seen the incoming one; neither the incoming nor the old
  -- version dominates what it holds; the other keys are as they were, and still no stored clock
  -- holds a node twice.
  pub store_replicated_write-Held :
      let (s', outcome) = store_replicated_write key incoming s in Held key incoming s s' outcome
  unfolding store_replicated_write
  store_replicated_write-Held = elim (Option-cases (find key s.kv_store)) [
    | inl gone ↦
        rw (gone, store_replicated_write) (Held-written λ old e. absurd (nothing_held gone old e))
    | inr (old, there) ↦
        let e = held_under old there in
        let uo = local_get-IsWell s key old is_store e in
        elim (Comparison-cases old.clock incoming.clock) [
          | inl c ↦
              rw (there, store_replicated_write, c)
                (Held-kept old e (Means-of old incoming uo well equal c).1)
          | inr (inl c) ↦
              rw (there, store_replicated_write, c)
                (Held-kept old e (Means-of old incoming uo well dominates c).0)
          | inr (inr (inl c)) ↦
              rw (there, store_replicated_write, c)
                (Held-written λ o. NotBelow-held old o e (λ d. let bad : ⊥ = cc in bad))
          | inr (inr (inr c)) ↦
              rw (there, store_replicated_write, c)
                (Held-written λ o. NotBelow-held old o e (λ d. let bad : ⊥ = cc in bad))
        ]
  ]
