-- ===== src/Memory/Paging.antt =====
-- Paging through `read_memories` while a writer adds rows.
use palaver.Prelude.{
  ℕ, ltb, ◌<◌, ◌≤◌, Bool, ◌&&◌, List, [], ◌∷◌, ◌++◌, ◌≡◌, refl, sym, ap, ◌∙◌, arith, if◌then◌else◌,
  All, Bool-cases, inl, inr, lt→ltb, le→ltb,
}
use mathlib.Core.List.{append-nil}
use palaver.Memory.Tables.{Memory, Store, max_id}
use palaver.Memory.Write.{NewMemory, EvidenceAnchor, memory_row, write_memory, returned}
use palaver.Memory.Written.{written, returns_iff}
use palaver.Memory.Scope.{insert_by_id, scoped_rows}

-- Every row has an id below `k`.
abbrev Below : ℕ → List Memory → Type 0
Below k ms = All (λ m. m.id < k) ms

insert_by_id-Below :
    (k : ℕ) (m : Memory) (ms : List Memory) → m.id < k → Below k ms → Below k (insert_by_id m ms)
unfolding insert_by_id
insert_by_id-Below k m [] h l = (h, tt)
insert_by_id-Below k m (x ∷ xs) h (low, l) = elim (Bool-cases (ltb m.id x.id)) [
  | inl e ↦ rw e (h, (low, l))
  | inr e ↦ rw e (low, insert_by_id-Below k m xs h l)
]

insert_by_id_last :
    (m : Memory) (ms : List Memory) → Below m.id ms → insert_by_id m ms ≡ ms ++ m ∷ []
unfolding insert_by_id
insert_by_id_last m [] l = refl
insert_by_id_last m (x ∷ xs) (low, l) =
    rw (le→ltb m.id x.id (omega arith), insert_by_id_last m xs l) refl

scoped_rows-Below :
    (f : Memory → Bool) (after_id k : ℕ) (ms : List Memory)
    → max_id ms < k
    → Below k (scoped_rows f after_id ms)
unfolding scoped_rows max_id
scoped_rows-Below f after_id k [] h = tt
scoped_rows-Below f after_id k (m ∷ ms) h =
    let rest = scoped_rows-Below f after_id k ms (omega arith) in
    elim (Bool-cases (f m && ltb after_id m.id)) [
      | inl e ↦ rw e (insert_by_id-Below k m (scoped_rows f after_id ms) (omega arith) rest)
      | inr e ↦ rw e rest
    ]

added_last :
    (f : Memory → Bool) (after_id : ℕ) (m : Memory) (ms : List Memory)
    → max_id ms < m.id
    → after_id < m.id
    → scoped_rows f after_id (m ∷ ms) ≡ scoped_rows f after_id ms ++ (if f m then m ∷ [] else [])
unfolding scoped_rows
added_last f after_id m ms above new = elim (Bool-cases (f m)) [
  | inl e ↦
      rw (e, lt→ltb after_id m.id new)
        (insert_by_id_last m (scoped_rows f after_id ms)
          (scoped_rows-Below f after_id m.id ms above))
  | inr e ↦ rw e (sym (append-nil (scoped_rows f after_id ms)))
]

-- A memory that `write_memory` adds while a reader pages through a scope stands behind every row
-- that the reader has yet to read: from any cursor up to the greatest id before the write, the rows
-- of the scope are those that it had before, in their order, and then the new one if it is in the
-- scope.
pub write_memory_lands_last :
    (in_scope : Memory → Bool) (after_id : ℕ) (n : NewMemory) (l : List EvidenceAnchor) (db : Store)
    (k : ℕ) (db' : Store)
    → write_memory n l db ≡ returned k db'
    → after_id ≤ max_id db.memories
    → scoped_rows in_scope after_id db'.memories
      ≡ scoped_rows in_scope after_id db.memories
        ++ (if in_scope (memory_row k n) then memory_row k n ∷ [] else [])
unfolding written memory_row
write_memory_lands_last f after_id n l db k db' h low =
    let (ok, id, tables) = (returns_iff n l db k db').0 h in
    let same : db'.memories ≡ memory_row k n ∷ db.memories =
      ap (λ (d : Store). d.memories) tables ∙ ap (λ j. memory_row j n ∷ db.memories) (sym id) in
    rw same (added_last f after_id (memory_row k n) db.memories (omega arith) (omega arith))
