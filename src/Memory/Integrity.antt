-- ===== src/Memory/Integrity.antt =====
-- INV-4, INV-5 and INV-6, of palaver/store/schema.py, as one predicate on the tables.
use palaver.Prelude.{
  ℕ, ◌≤◌, Bool, true, false, all, Option, none, some, List, [], ◌∷◌, ◌≡◌, ◌⊎◌, inl, inr, refl, ap,
  sym, ◌∙◌, arith, Option-cases,
}
use palaver.Memory.Tables.{Memory, Evidence, Store, find_memory, has_successor, has_evidence}
use palaver.Memory.Statements.{
  Statement, delete_evidence, update_evidence, insert_aborts, tier_check, execute, execute_all,
}
use palaver.Memory.Rows.{SameCore, SameRows, find-SameRows, has_successor-SameRows}
use palaver.Memory.AppendOnly.{Effect, added, kept, execute-Effect}

-- A row's predecessor, if it names one, was stored before it, is at least as authoritative (a
-- smaller tier is), and had no successor until then.
abbrev pub Linked : Option ℕ → ℕ → List Memory → Type 0
Linked none tier older = Unit
Linked (some p) tier older =
    (old : Memory) × (find_memory p older ≡ some old)
    × (tier ≤ old.tier)
    × (has_successor p older ≡ false)

-- A row over those stored before it: its id is new and positive, its tier is in range, its
-- predecessor fits, and some evidence names it.
pub record IsSoundRow (es : List Evidence) (m : Memory) (older : List Memory) : Type 0 where
  pub fresh : find_memory m.id older ≡ none
  pub positive : 1 ≤ m.id
  pub tier_low : 1 ≤ m.tier
  pub tier_high : m.tier ≤ 5
  pub linked : Linked m.supersedes m.tier older
  pub evidenced : has_evidence m.id es ≡ true

abbrev pub IsSound : List Evidence → List Memory → Type 0
IsSound es [] = Unit
IsSound es (m ∷ ms) = IsSoundRow es m ms × IsSound es ms

insert-Linked :
    (es : List Evidence) (ms : List Memory) (new : Memory) (o : Option ℕ)
    → insert_aborts ms es new ≡ false
    → new.supersedes ≡ o
    → Linked o new.tier ms
unfolding insert_aborts
insert-Linked es ms new none h e = tt
insert-Linked es ms new (some p) h e = elim (Option-cases (find_memory p ms)) [
  | inl missing ↦ absurd (ground (arith, missing))
  | inr (old, found) ↦ (old, found, ground arith, ground arith)
]

-- A row that no trigger and no CHECK refuses is sound over the rows stored before it.
pub insert-IsSoundRow :
    (es : List Evidence) (ms : List Memory) (new : Memory)
    → insert_aborts ms es new ≡ false
    → tier_check new.tier ≡ true
    → IsSoundRow es new ms
unfolding insert_aborts tier_check
insert-IsSoundRow es ms new h t = record {
  fresh = ground arith;
  positive = ground arith;
  tier_low = ground arith;
  tier_high = ground arith;
  linked = insert-Linked es ms new new.supersedes h refl;
  evidenced = ground arith;
}

-- A statement that neither deletes nor rewrites evidence.
unfoldable pub leaves_evidence : Statement → Bool
leaves_evidence (delete_evidence test) = false
leaves_evidence (update_evidence test set) = false
leaves_evidence _ = true

has_evidence-execute :
    (s : Statement) (db : Store) {db' : Store} (k : ℕ)
    → leaves_evidence s ≡ true
    → execute s db ≡ some db'
    → has_evidence k db.memory_evidence ≡ true
    → has_evidence k db'.memory_evidence ≡ true
unfolding execute has_evidence leaves_evidence
has_evidence-execute s db k l h e = ground arith

-- Soundness survives more evidence.
pub IsSound-evidence :
    (es es' : List Evidence) (ms : List Memory)
    → ((k : ℕ) → has_evidence k es ≡ true → has_evidence k es' ≡ true)
    → IsSound es ms
    → IsSound es' ms
IsSound-evidence es es' [] grow h = tt
IsSound-evidence es es' (m ∷ ms) grow (row, rest) = (
  record {
    fresh = row.fresh;
    positive = row.positive;
    tier_low = row.tier_low;
    tier_high = row.tier_high;
    linked = row.linked;
    evidenced = grow m.id row.evidenced;
  },
  IsSound-evidence es es' ms grow rest,
)

Linked-SameRows :
    (o : Option ℕ) (tier : ℕ) (ms ns : List Memory)
    → SameRows ms ns
    → Linked o tier ms
    → Linked o tier ns
Linked-SameRows none tier ms ns same h = tt
Linked-SameRows (some p) tier ms ns same (old, found, order, first) =
    go (find-SameRows p ms ns same)
  where
    go :
        ((find_memory p ms ≡ none) × (find_memory p ns ≡ none))
          ⊎ ((a : Memory) × (b : Memory) × (find_memory p ms ≡ some a)
              × (find_memory p ns ≡ some b)
              × SameCore a b)
        → Linked (some p) tier ns
    go (inl missing) = cc (missing.0, found)
    go (inr (a, b, fa, fb, core)) =
        let row : old ≡ a = cc (found, fa) in
        (
          b,
          fb,
          omega (arith, core.tier, ap (λ (m : Memory). m.tier) row),
          sym (has_successor-SameRows p ms ns same) ∙ first,
        )

missing-SameRows :
    (k : ℕ) (ms ns : List Memory)
    → SameRows ms ns
    → find_memory k ms ≡ none
    → find_memory k ns ≡ none
missing-SameRows k ms ns same h = elim (find-SameRows k ms ns same) [
  | inl missing ↦ missing.1
  | inr (a, b, fa, fb, core) ↦ cc (h, fa)
]

IsSound-SameRows :
    (es : List Evidence) (ms ns : List Memory) → SameRows ms ns → IsSound es ms → IsSound es ns
IsSound-SameRows es [] [] same h = tt
IsSound-SameRows es (m ∷ ms) (n ∷ ns) same (row, rest) = (
  record {
    fresh = rw (← same.0.id) (missing-SameRows m.id ms ns same.1 row.fresh);
    positive = omega (arith, same.0.id, row.positive);
    tier_low = omega (arith, same.0.tier, row.tier_low);
    tier_high = omega (arith, same.0.tier, row.tier_high);
    linked =
        rw (← same.0.supersedes, ← same.0.tier)
          (Linked-SameRows m.supersedes m.tier ms ns same.1 row.linked);
    evidenced = rw (← same.0.id) row.evidenced;
  },
  IsSound-SameRows es ms ns same.1 rest,
)
IsSound-SameRows es [] (n ∷ ns) same h = absurd same
IsSound-SameRows es (m ∷ ms) [] same h = absurd same

Effect-IsSound :
    {ms ms' : List Memory} (es : List Evidence) → Effect ms es ms' → IsSound es ms → IsSound es ms'
Effect-IsSound {ms} es (added new h t) sound = (insert-IsSoundRow es ms new h t, sound)
Effect-IsSound {ms} es (kept after same s) sound = IsSound-SameRows es ms after same sound

-- One accepted statement keeps the invariant.
pub execute-IsSound :
    (s : Statement) (db : Store) {db' : Store}
    → leaves_evidence s ≡ true
    → execute s db ≡ some db'
    → IsSound db.memory_evidence db.memories
    → IsSound db'.memory_evidence db'.memories
execute-IsSound s db {db'} l h sound =
    IsSound-evidence db.memory_evidence db'.memory_evidence db'.memories
      (λ k. has_evidence-execute s db k l h)
      (Effect-IsSound db.memory_evidence (execute-Effect s db h) sound)

-- Whatever INSERT, INSERT OR REPLACE, UPDATE and DELETE a connection issues against the memories of
-- sound tables, with insertions of evidence between them but with no DELETE and no UPDATE of
-- evidence, and whichever of them are aborted, the tables stay sound: every memory has a positive id of its own, a tier from 1 to 5 and at least one evidence row, and a memory that
-- names a predecessor names one stored before it, with no other successor, and of no smaller tier
-- number than its own, so that no row supersedes one of higher authority.
pub statements_keep-IsSound :
    (ss : List Statement) (db : Store)
    → all leaves_evidence ss ≡ true
    → IsSound db.memory_evidence db.memories
    → IsSound (execute_all ss db).memory_evidence (execute_all ss db).memories
unfolding execute_all
statements_keep-IsSound [] db l sound = sound
statements_keep-IsSound (s ∷ ss) db l sound =
    let later : all leaves_evidence ss ≡ true = ground arith in
    elim (Option-cases (execute s db)) [
      | inl aborted ↦ rw (aborted, execute_all) (statements_keep-IsSound ss db later sound)
      | inr (db', done) ↦
          rw (done, execute_all)
            (statements_keep-IsSound ss db' later (execute-IsSound s db (ground arith) done sound))
    ]
