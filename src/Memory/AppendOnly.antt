-- ===== src/Memory/AppendOnly.antt =====
-- INV-4, of palaver/store/schema.py: the rows of `memories` under sequences of statements.
use palaver.Prelude.{
  ℕ, true, false, ◌&&◌, none, some, List, [], ◌∷◌, ◌≡◌, ◌⊎◌, inl, inr, refl, sym, ◌∙◌, arith, any,
  ◌==◌, Bool-cases, Option-cases,
}
use palaver.Memory.Tables.{Memory, Evidence, Store, find_memory, has_successor}
use palaver.Memory.Statements.{
  Statement, insert_memory, insert_or_replace_memory, insert_memory_without_id, update_memories,
  delete_memories, insert_evidence, delete_evidence, update_evidence, insert_aborts, tier_check,
  without_collisions, update_aborts, assign_where, execute, execute_all,
}
use palaver.Memory.Rows.{
  SameCore, SameCore-refl, SameCore-trans, SameRows, SameRows-refl, find-SameRows,
  has_successor-SameRows, assign_where-SameRows, find-assign_where_superseded,
  without_collisions-id,
}

-- What a statement that is not aborted does to `memories`: it puts a row that no trigger refuses on
-- top, or it leaves every row its core, and every superseded row as it was.
pub data Effect (before : List Memory) (es : List Evidence) : List Memory → Type 0 where
  added :
      (new : Memory)
      → insert_aborts before es new ≡ false
      → tier_check new.tier ≡ true
      → Effect before es (new ∷ before)
  kept :
      (after : List Memory)
      → SameRows before after
      → ((k : ℕ) → has_successor k before ≡ true → find_memory k after ≡ find_memory k before)
      → Effect before es after

replace_adds :
    (ms : List Memory) (es : List Evidence) (new : Memory)
    → insert_aborts ms es new ≡ false
    → without_collisions new ms ≡ ms
unfolding insert_aborts
replace_adds ms es new h = without_collisions-id new ms (ground arith) (λ p e. ground arith)

-- Every statement that SQLite accepts has such an effect, REPLACE included.
pub execute-Effect :
    (s : Statement) (db : Store) {db' : Store}
    → execute s db ≡ some db'
    → Effect db.memories db.memory_evidence db'.memories
unfolding execute
execute-Effect (insert_memory new) db {db'} h =
    let shape : db'.memories ≡ new ∷ db.memories = ground arith in
    rw shape (added new (ground arith) (ground arith))
execute-Effect (insert_or_replace_memory new) db {db'} h =
    let accepted : insert_aborts db.memories db.memory_evidence new ≡ false = ground arith in
    let shape : db'.memories ≡ new ∷ db.memories =
      ground (arith, replace_adds db.memories db.memory_evidence new accepted) in
    rw shape (added new accepted (ground arith))
execute-Effect (insert_memory_without_id new) db h = cc
execute-Effect (update_memories test c) db {db'} h =
    let accepted : any (λ m. test m && update_aborts db.memories c m) db.memories ≡ false =
      ground arith in
    let shape : db'.memories ≡ assign_where test c db.memories = ground arith in
    rw shape (
      kept (assign_where test c db.memories)
        (assign_where-SameRows db.memories test c db.memories accepted)
        (λ k s. find-assign_where_superseded db.memories test c k db.memories s accepted))
execute-Effect (delete_memories test) db {db'} h =
    let shape : db'.memories ≡ db.memories = ground arith in
    rw shape (kept db.memories (SameRows-refl db.memories) (λ k s. refl))
execute-Effect (insert_evidence e) db {db'} h =
    let shape : db'.memories ≡ db.memories = ground arith in
    rw shape (kept db.memories (SameRows-refl db.memories) (λ k s. refl))
execute-Effect (delete_evidence test) db {db'} h =
    let shape : db'.memories ≡ db.memories = ground arith in
    rw shape (kept db.memories (SameRows-refl db.memories) (λ k s. refl))
execute-Effect (update_evidence test set) db {db'} h =
    let shape : db'.memories ≡ db.memories = ground arith in
    rw shape (kept db.memories (SameRows-refl db.memories) (λ k s. refl))

-- A row is still there, with the same core, in a later table.
abbrev pub Persists : ℕ → Memory → List Memory → Type 0
Persists k m after = (m' : Memory) × (find_memory k after ≡ some m') × SameCore m m'

added_keeps :
    (ms : List Memory) (es : List Evidence) (new : Memory) (k : ℕ) (m : Memory)
    → insert_aborts ms es new ≡ false
    → find_memory k ms ≡ some m
    → find_memory k (new ∷ ms) ≡ some m
unfolding insert_aborts find_memory
added_keeps ms es new k m h f = elim (Bool-cases (new.id == k)) [
  | inl same ↦
      let key : new.id ≡ k = ground arith in
      let fresh : find_memory new.id ms ≡ none = ground arith in cc (key, fresh, f)
  | inr other ↦ rw other f
]

Effect-Persists :
    {ms ms' : List Memory} {es : List Evidence} (k : ℕ) (m : Memory)
    → Effect ms es ms'
    → find_memory k ms ≡ some m
    → Persists k m ms'
Effect-Persists {ms} {es = es} k m (added new h t) f =
    (m, added_keeps ms es new k m h f, SameCore-refl m)
Effect-Persists {ms} k m (kept after same s) f = go (find-SameRows k ms after same)
  where
    go :
        ((find_memory k ms ≡ none) × (find_memory k after ≡ none))
          ⊎ ((a : Memory) × (b : Memory) × (find_memory k ms ≡ some a)
              × (find_memory k after ≡ some b)
              × SameCore a b)
        → Persists k m after
    go (inl missing) = cc (missing.0, f)
    go (inr (a, b, fa, fb, core)) = (b, fb, let row : m ≡ a = cc (f, fa) in rw row core)

-- Whatever statements are issued, and whichever of them are aborted, a memory that is stored stays
-- stored under its id with the same project, session, statement, origin, tier and predecessor.
pub memories_append_only :
    (ss : List Statement) (db : Store) (k : ℕ) (m : Memory)
    → find_memory k db.memories ≡ some m
    → Persists k m (execute_all ss db).memories
unfolding execute_all
memories_append_only [] db k m f = (m, f, SameCore-refl m)
memories_append_only (s ∷ ss) db k m f = elim (Option-cases (execute s db)) [
  | inl aborted ↦ rw (aborted, execute_all) (memories_append_only ss db k m f)
  | inr (db', done) ↦
      let (m', f', core) = Effect-Persists k m (execute-Effect s db done) f in
      let (last, found, core') = memories_append_only ss db' k m' f' in
      rw (done, execute_all) (last, found, SameCore-trans core core')
]

superseded_stays :
    {ms ms' : List Memory} {es : List Evidence} (k : ℕ)
    → Effect ms es ms'
    → has_successor k ms ≡ true
    → has_successor k ms' ≡ true
unfolding has_successor
superseded_stays k (added new h t) s = ground arith
superseded_stays {ms} k (kept after same f) s = sym (has_successor-SameRows k ms after same) ∙ s

Effect-superseded :
    {ms ms' : List Memory} {es : List Evidence} (k : ℕ) (m : Memory)
    → Effect ms es ms'
    → has_successor k ms ≡ true
    → find_memory k ms ≡ some m
    → find_memory k ms' ≡ some m
Effect-superseded {ms} {es = es} k m (added new h t) s f = added_keeps ms es new k m h f
Effect-superseded k m (kept after same g) s f = g k s ∙ f

-- A memory that has a successor is frozen whole, its time of writing included, and stays
-- superseded, whatever statements are issued.
pub superseded_frozen :
    (ss : List Statement) (db : Store) (k : ℕ) (m : Memory)
    → has_successor k db.memories ≡ true
    → find_memory k db.memories ≡ some m
    → (find_memory k (execute_all ss db).memories ≡ some m)
      × (has_successor k (execute_all ss db).memories ≡ true)
unfolding execute_all
superseded_frozen [] db k m s f = (f, s)
superseded_frozen (st ∷ ss) db k m s f = elim (Option-cases (execute st db)) [
  | inl aborted ↦ rw (aborted, execute_all) (superseded_frozen ss db k m s f)
  | inr (db', done) ↦
      let effect = execute-Effect st db done in
      rw (done, execute_all)
        (superseded_frozen ss db' k m (superseded_stays k effect s)
          (Effect-superseded k m effect s f))
]
