-- ===== src/Memory/Write.antt =====
-- palaver/memory/write.py, palaver/memory/supersede.py and palaver/memory/tiers.py. A call returns
-- or raises, and either way leaves the tables of its open transaction as its statements left them.
use palaver.Prelude.{
  ℕ, suc, Bool, true, false, Option, none, some, List, [], ◌∷◌, if◌then◌else◌, Text,
}
use palaver.Memory.Tables.{
  Memory, Evidence, Store, find_memory, names_predecessor, has_successor, max_id,
}
use palaver.Memory.Statements.{insert_memory, insert_evidence, execute}

-- `TIER_USER_INSTRUCTION` and `TIER_OBSERVER_INFERENCE`.
abbrev pub tier_user_instruction : ℕ
tier_user_instruction = 1

abbrev pub tier_observer_inference : ℕ
tier_observer_inference = 4

-- `EvidenceAnchor`. A negative offset fails the CHECK of `memory_evidence`, and is left out.
pub record EvidenceAnchor : Type 0 where
  pub start_offset : ℕ
  pub end_offset : ℕ
  pub transcript_chunk_id : Option ℕ
  pub event_id : Option ℕ

-- The arguments of `write_memory` but for the evidence; `now` is the default of `created_at`.
pub record NewMemory : Type 0 where
  pub project_id : ℕ
  pub session_id : Option ℕ
  pub statement : Text
  pub origin : Text
  pub tier : ℕ
  pub supersedes : Option ℕ
  pub now : ℕ

-- `ValueError`, `LookupError` and the `sqlite3.IntegrityError` of an aborted statement.
pub data WriteError : Type 0 where
  value_error lookup_error integrity_error : WriteError

pub data Outcome : Type 0 where
  returned : ℕ → Store → Outcome
  raised : WriteError → Store → Outcome

-- The row that an anchor becomes.
unfoldable pub evidence_row : ℕ → EvidenceAnchor → Evidence
evidence_row memory_id a = record {
  id = 0;
  memory_id = memory_id;
  transcript_chunk_id = a.transcript_chunk_id;
  event_id = a.event_id;
  start_offset = a.start_offset;
  end_offset = a.end_offset;
}

unfoldable pub memory_row : ℕ → NewMemory → Memory
memory_row memory_id n = record {
  id = memory_id;
  project_id = n.project_id;
  session_id = n.session_id;
  statement = n.statement;
  origin = n.origin;
  tier = n.tier;
  supersedes = n.supersedes;
  created_at = n.now;
}

-- The loop over the evidence. The flag is false if an INSERT was aborted, which ends the loop.
unfoldable pub insert_anchors : ℕ → List EvidenceAnchor → Store → Bool × Store
unfolding evidence_row
insert_anchors memory_id [] db = (true, db)
insert_anchors memory_id (a ∷ rest) db =
    elim (execute (insert_evidence (evidence_row memory_id a)) db) [
      | none ↦ (false, db)
      | some db' ↦ insert_anchors memory_id rest db'
    ]

-- The INSERT into `memories`, where the evidence is in.
unfoldable pub insert_parent : Memory → Bool × Store → Outcome
insert_parent row (false, db) = raised integrity_error db
insert_parent row (true, db) = elim (execute (insert_memory row) db) [
  | none ↦ raised integrity_error db
  | some db' ↦ returned row.id db'
]

-- `write_memory`, where the arguments' rows name what is stored and their values can be bound, as
-- `Storable` says. Where a foreign key, the encoding of a text or a number of 2^63 and more makes a
-- statement fail, the code raises `IntegrityError`, `UnicodeEncodeError` or `OverflowError`.
unfoldable pub write_memory : NewMemory → List EvidenceAnchor → Store → Outcome
write_memory n [] db = raised value_error db
write_memory n (a ∷ rest) db =
    let memory_id = suc (max_id db.memories) in
    insert_parent (memory_row memory_id n) (insert_anchors memory_id (a ∷ rest) db)

abbrev inherited : Option ℕ → Option ℕ → Option ℕ
inherited none predecessor = predecessor
inherited (some session) predecessor = some session

-- The arguments of `supersede_memory` but for the predecessor and the evidence.
pub record Correction : Type 0 where
  pub statement : Text
  pub origin : Text
  pub tier : ℕ
  pub session_id : Option ℕ
  pub now : ℕ

-- The arguments that `supersede_memory` gives `write_memory`.
unfoldable pub successor_fields : ℕ → Memory → Correction → NewMemory
successor_fields predecessor_id predecessor c = record {
  project_id = predecessor.project_id;
  session_id = inherited c.session_id predecessor.session_id;
  statement = c.statement;
  origin = c.origin;
  tier = c.tier;
  supersedes = some predecessor_id;
  now = c.now;
}

-- `supersede_memory`.
unfoldable pub supersede_memory : ℕ → Correction → List EvidenceAnchor → Store → Outcome
supersede_memory predecessor_id c evidence db = elim (find_memory predecessor_id db.memories) [
  | none ↦ raised lookup_error db
  | some predecessor ↦ write_memory (successor_fields predecessor_id predecessor c) evidence db
]

-- `is_superseded`.
unfoldable pub is_superseded : Store → ℕ → Bool
is_superseded db memory_id = has_successor memory_id db.memories

-- `successor_of`.
successor_in : ℕ → List Memory → Option ℕ
successor_in k [] = none
successor_in k (m ∷ ms) = if names_predecessor k m.supersedes then some m.id else successor_in k ms

unfoldable pub successor_of : Store → ℕ → Option ℕ
unfolding successor_in
successor_of db memory_id = successor_in memory_id db.memories
