-- ===== src/Memory/Statements.antt =====
-- SQL statements against the tables, with the CHECK constraints and the triggers of migrations 3,
-- 4, 5 and 8 in palaver/store/schema.py. `none` is a statement that SQLite aborts, which leaves the
-- tables as they were.
use palaver.Prelude.{
  ℕ, suc, ltb, leb, Bool, true, false, ◌||◌, ◌&&◌, not, Option, none, some, List, [], ◌∷◌, ◌==◌,
  any, if◌then◌else◌, Text,
}
use palaver.Memory.Tables.{
  Memory, Evidence, Store, find_memory, is_some, names_predecessor, has_successor, has_evidence,
  max_evidence_id,
}

-- The columns that an UPDATE's SET clause names, each with its new value.
pub record Change : Type 0 where
  pub id : Option ℕ
  pub project_id : Option ℕ
  pub session_id : Option (Option ℕ)
  pub statement : Option Text
  pub origin : Option Text
  pub tier : Option ℕ
  pub supersedes : Option (Option ℕ)
  pub created_at : Option ℕ

-- The statements that any connection may issue against `memories` and `memory_evidence`, where an
-- INSERT of evidence leaves the id to SQLite. A WHERE clause is a test on rows. `UPDATE OR REPLACE`
-- of memories is the same statement: conflicts arise only on columns that no UPDATE may change.
-- `memory_evidence` carries no trigger: its rows may be deleted, and rewritten by any SET clause.
pub data Statement : Type 0 where
  insert_memory insert_or_replace_memory : Memory → Statement
  insert_memory_without_id : Memory → Statement
  update_memories : (Memory → Bool) → Change → Statement
  delete_memories : (Memory → Bool) → Statement
  insert_evidence : Evidence → Statement
  delete_evidence : (Evidence → Bool) → Statement
  update_evidence : (Evidence → Bool) → (Evidence → Evidence) → Statement

-- The BEFORE INSERT triggers on `memories`, each as the condition under which it aborts.
memories_id_never_reused : List Memory → Memory → Bool
memories_id_never_reused ms new = is_some (find_memory new.id ms)

memories_supersedes_must_exist : List Memory → Memory → Bool
memories_supersedes_must_exist ms new = elim new.supersedes [
  | none ↦ false
  | some p ↦ not (is_some (find_memory p ms))
]

memories_one_successor_guard : List Memory → Memory → Bool
memories_one_successor_guard ms new = elim new.supersedes [
  | none ↦ false
  | some p ↦ has_successor p ms
]

-- A comparison with the NULL of an empty subquery does not fire.
memories_supersedes_tier_order : List Memory → Memory → Bool
memories_supersedes_tier_order ms new = elim new.supersedes [
  | none ↦ false
  | some p ↦ elim (find_memory p ms) [ none ↦ false | some old ↦ ltb old.tier new.tier ]
]

memories_requires_evidence : List Evidence → Memory → Bool
memories_requires_evidence es new = ltb new.id 1 || not (has_evidence new.id es)

unfoldable pub insert_aborts : List Memory → List Evidence → Memory → Bool
unfolding memories_id_never_reused memories_supersedes_must_exist memories_one_successor_guard
    memories_supersedes_tier_order memories_requires_evidence
insert_aborts ms es new =
    memories_id_never_reused ms new
    || (memories_supersedes_must_exist ms new
        || (memories_one_successor_guard ms new
            || (memories_supersedes_tier_order ms new || memories_requires_evidence es new)))

-- `CHECK (tier BETWEEN 1 AND 5)`.
unfoldable pub tier_check : ℕ → Bool
tier_check tier = leb 1 tier && leb tier 5

-- A row that collides on the primary key or on `memories_one_successor_per_predecessor`.
unfoldable pub collides : Memory → Memory → Bool
unfolding names_predecessor
collides new old =
    old.id == new.id
    || elim new.supersedes [ none ↦ false | some p ↦ names_predecessor p old.supersedes ]

-- What conflict resolution by REPLACE deletes, with no DELETE trigger fired.
unfoldable pub without_collisions : Memory → List Memory → List Memory
unfolding collides
without_collisions new [] = []
without_collisions new (m ∷ ms) =
    let rest = without_collisions new ms in if collides new m then rest else m ∷ rest

insert_row : Bool → Memory → Store → Option Store
insert_row replace new db =
    if insert_aborts db.memories db.memory_evidence new
    then none
    else if not (tier_check new.tier)
    then none
    else if replace
    then some (record db { memories = new ∷ without_collisions new db.memories })
    else if any (collides new) db.memories
    then none
    else some (record db { memories = new ∷ db.memories })

-- The BEFORE UPDATE triggers on `memories`: `memories_id_immutable`, the columns that no UPDATE may
-- name (`memories_tier_immutable`, `memories_supersedes_immutable`, `memories_live_row_immutable`)
-- and `memories_superseded_row_immutable`.
changes_id : Option ℕ → ℕ → Bool
changes_id none old = false
changes_id (some new) old = not (new == old)

unfoldable pub update_aborts : List Memory → Change → Memory → Bool
unfolding changes_id
update_aborts ms c m =
    changes_id c.id m.id
    || (is_some c.tier
        || (is_some c.supersedes
            || (is_some c.statement
                || (is_some c.origin
                    || (is_some c.project_id || (is_some c.session_id || has_successor m.id ms))))))

abbrev new_or {ℓ} : {A : Type ℓ} → Option A → A → A
new_or none old = old
new_or (some new) old = new

unfoldable pub assign : Change → Memory → Memory
assign c m = record {
  id = new_or c.id m.id;
  project_id = new_or c.project_id m.project_id;
  session_id = new_or c.session_id m.session_id;
  statement = new_or c.statement m.statement;
  origin = new_or c.origin m.origin;
  tier = new_or c.tier m.tier;
  supersedes = new_or c.supersedes m.supersedes;
  created_at = new_or c.created_at m.created_at;
}

unfoldable pub assign_where : (Memory → Bool) → Change → List Memory → List Memory
unfolding assign
assign_where test c [] = []
assign_where test c (m ∷ ms) = (if test m then assign c m else m) ∷ assign_where test c ms

-- The CHECKs of `memory_evidence`.
unfoldable pub evidence_check : Evidence → Bool
evidence_check e =
    ltb e.start_offset e.end_offset && (is_some e.transcript_chunk_id || is_some e.event_id)

-- `DELETE FROM memory_evidence`, and an UPDATE of its rows with its CHECKs and its primary key.
evidence_without : (Evidence → Bool) → List Evidence → List Evidence
evidence_without test [] = []
evidence_without test (e ∷ es) =
    let rest = evidence_without test es in if test e then rest else e ∷ rest

evidence_where : (Evidence → Bool) → (Evidence → Evidence) → List Evidence → List Evidence
evidence_where test set [] = []
evidence_where test set (e ∷ es) = (if test e then set e else e) ∷ evidence_where test set es

distinct_ids : List Evidence → Bool
distinct_ids [] = true
distinct_ids (e ∷ es) = not (any (λ f. f.id == e.id) es) && distinct_ids es

update_rows : (Evidence → Bool) → (Evidence → Evidence) → Store → Option Store
unfolding evidence_where distinct_ids
update_rows test set db =
    if any (λ e. test e && not (evidence_check (set e))) db.memory_evidence
    then none
    else if distinct_ids (evidence_where test set db.memory_evidence)
    then some (record db { memory_evidence = evidence_where test set db.memory_evidence })
    else none

-- One statement. Foreign keys are not checked: the program's connections enforce them, and abort
-- further statements, which changes nothing, as any statement that is aborted here.
unfoldable pub execute : Statement → Store → Option Store
unfolding insert_row update_rows evidence_without
execute (insert_memory new) db = insert_row false new db
execute (insert_or_replace_memory new) db = insert_row true new db
execute (insert_memory_without_id new) db = none
execute (update_memories test c) db =
    if any (λ m. test m && update_aborts db.memories c m) db.memories
    then none
    else some (record db { memories = assign_where test c db.memories })
execute (delete_memories test) db = if any test db.memories then none else some db
execute (insert_evidence e) db =
    if evidence_check e
    then some (record db {
      memory_evidence =
          record e { id = suc (max_evidence_id db.memory_evidence) } ∷ db.memory_evidence;
    })
    else none
execute (delete_evidence test) db =
    some (record db { memory_evidence = evidence_without test db.memory_evidence })
execute (update_evidence test set) db = update_rows test set db

-- A connection's statements in turn; an aborted one changes nothing.
unfoldable pub execute_all : List Statement → Store → Store
execute_all [] db = db
execute_all (s ∷ ss) db = elim (execute s db) [
  | none ↦ execute_all ss db
  | some db' ↦ execute_all ss db'
]
