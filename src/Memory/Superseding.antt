-- ===== src/Memory/Superseding.antt =====
-- `supersede_memory` of palaver/memory/supersede.py.
use palaver.Prelude.{
  ℕ, ◌≤◌, true, none, some, List, ◌∷◌, ◌≡◌, ◌≢◌, ◌∙◌, refl, ap, arith, ◌==◌, Option-cases,
  Bool-cases, sym, inl, inr,
}
use palaver.Memory.Tables.{Memory, Store, find_memory, has_successor, names_predecessor}
use palaver.Memory.Anchors.{find-max_id}
use palaver.Memory.Write.{
  EvidenceAnchor, Correction, returned, memory_row, successor_fields, supersede_memory,
  write_memory, is_superseded, successor_of,
}
use palaver.Memory.Written.{written, returns_iff}

-- A successful correction.
pub record Supersedes (p k : ℕ) (c : Correction) (before after : Store) : Type 0 where
  pub predecessor : Memory
  pub was_stored : find_memory p before.memories ≡ some predecessor
  pub successor_stored :
      find_memory k after.memories ≡ some (memory_row k (successor_fields p predecessor c))
  pub still_stored : find_memory p after.memories ≡ some predecessor
  pub superseded : is_superseded after p ≡ true
  pub successor : successor_of after p ≡ some k
  pub authority : c.tier ≤ predecessor.tier

supersede_returned :
    (p : ℕ) (c : Correction) (l : List EvidenceAnchor) (db : Store) (k : ℕ) (db' : Store)
    → supersede_memory p c l db ≡ returned k db'
    → (m : Memory) × (find_memory p db.memories ≡ some m)
      × (write_memory (successor_fields p m c) l db ≡ returned k db')
unfolding supersede_memory
supersede_returned p c l db k db' h = elim (Option-cases (find_memory p db.memories)) [
  | inl missing ↦ absurd (ground (arith, missing))
  | inr (m, found) ↦ (m, found, ground (arith, found))
]

-- What the queries answer once a row that supersedes `p` stands over the others.
top_row :
    (p : ℕ) (db db' : Store) (row m : Memory)
    → db'.memories ≡ row ∷ db.memories
    → row.supersedes ≡ some p
    → find_memory p db.memories ≡ some m
    → find_memory row.id db.memories ≡ none
    → (find_memory row.id db'.memories ≡ some row)
      × (find_memory p db'.memories ≡ some m)
      × (is_superseded db' p ≡ true)
      × (successor_of db' p ≡ some row.id)
unfolding is_superseded successor_of has_successor names_predecessor find_memory
top_row p db db' row m rows link found fresh = (
  rw rows (ground arith),
  rw rows (elim (Bool-cases (row.id == p)) [
    | inl same ↦ let key : row.id ≡ p = ground arith in cc (key, fresh, found)
    | inr other ↦ rw other found
  ]),
  rw (rows, link) (ground arith),
  rw (rows, link) (ground arith),
)

pub supersede_memory_lem :
    (p : ℕ) (c : Correction) (l : List EvidenceAnchor) (db : Store) (k : ℕ) (db' : Store)
    → supersede_memory p c l db ≡ returned k db'
    → Supersedes p k c db db'
unfolding written successor_fields memory_row
supersede_memory_lem p c l db k db' h =
    let (m, found, done) = supersede_returned p c l db k db' h in
    let n = successor_fields p m c in
    let (ok, id, tables) = (returns_iff n l db k db').0 done in
    let (old, found', order, first) = ok.link in
    let row : m ≡ old = cc (found, found') in
    let fresh : find_memory k db.memories ≡ none = find-max_id k db.memories (omega (arith, id)) in
    let rows : db'.memories ≡ memory_row k n ∷ db.memories =
      ap (λ (d : Store). d.memories) tables ∙ ap (λ j. memory_row j n ∷ db.memories) (sym id) in
    let (stored, still, superseded, successor) =
      top_row p db db' (memory_row k n) m rows refl found fresh in
    record {
      predecessor = m;
      was_stored = found;
      successor_stored = stored;
      still_stored = still;
      superseded = superseded;
      successor = successor;
      authority = omega (arith, order, ap (λ (r : Memory). r.tier) row);
    }

-- A memory that is already superseded cannot be superseded again: no correction of it returns.
no_second_successor :
    (p : ℕ) (c : Correction) (l : List EvidenceAnchor) (db : Store) (k : ℕ) (db' : Store)
    → is_superseded db p ≡ true
    → supersede_memory p c l db ≢ returned k db'
unfolding is_superseded successor_fields
no_second_successor p c l db k db' twice h =
    let (m, found, done) = supersede_returned p c l db k db' h in
    let (ok, id, tables) = (returns_iff (successor_fields p m c) l db k db').0 done in
    let (old, found', order, first) = ok.link in cc (twice, first)
