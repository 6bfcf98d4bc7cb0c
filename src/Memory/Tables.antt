-- ===== src/Memory/Tables.antt =====
-- The rows of palaver/store/schema.py and the queries that its triggers and the package make.
use palaver.Prelude.{
  ℕ, Bool, true, false, ◌||◌, Option, none, some, List, [], ◌∷◌, ◌==◌, max, if◌then◌else◌, Text,
}

-- `memories`. Rows are kept newest first.
pub record Memory : Type 0 where
  pub id : ℕ
  pub project_id : ℕ
  pub session_id : Option ℕ
  pub statement : Text
  pub origin : Text
  pub tier : ℕ
  pub supersedes : Option ℕ
  pub created_at : ℕ

-- `memory_evidence`: a span of a transcript chunk's content or of an event's payload.
pub record Evidence : Type 0 where
  pub id : ℕ
  pub memory_id : ℕ
  pub transcript_chunk_id : Option ℕ
  pub event_id : Option ℕ
  pub start_offset : ℕ
  pub end_offset : ℕ

-- `transcript_chunks` (`text` is its content) and `events` (`text` is its payload); `created_at`
-- orders as the stored timestamps do.
pub record Source : Type 0 where
  pub id : ℕ
  pub text : Text
  pub created_at : ℕ

-- `current_state`.
pub record StateRow : Type 0 where
  pub id : ℕ
  pub project_id : ℕ
  pub session_id : Option ℕ
  pub key : Text
  pub value : Text
  pub updated_at : ℕ

-- `projects` by name, and `sessions`.
pub record Project : Type 0 where
  pub id : ℕ
  pub name : Text

pub record Session : Type 0 where
  pub id : ℕ
  pub project_id : ℕ
  pub external_id : Option Text

pub record Store : Type 0 where
  pub projects : List Project
  pub sessions : List Session
  pub transcript_chunks : List Source
  pub events : List Source
  pub memories : List Memory
  pub memory_evidence : List Evidence
  pub current_state : List StateRow

-- `SELECT ... FROM memories WHERE id = ?`.
unfoldable pub find_memory : ℕ → List Memory → Option Memory
find_memory k [] = none
find_memory k (m ∷ ms) = if m.id == k then some m else find_memory k ms

abbrev pub is_some {ℓ} : {A : Type ℓ} → Option A → Bool
is_some none = false
is_some (some a) = true

-- Whether a row's `supersedes` names `k`.
unfoldable pub names_predecessor : ℕ → Option ℕ → Bool
names_predecessor k none = false
names_predecessor k (some p) = p == k

-- `EXISTS (SELECT 1 FROM memories WHERE supersedes = ?)`, which is also membership in the view
-- `superseded_memories`.
unfoldable pub has_successor : ℕ → List Memory → Bool
unfolding names_predecessor
has_successor k [] = false
has_successor k (m ∷ ms) = names_predecessor k m.supersedes || has_successor k ms

-- `EXISTS (SELECT 1 FROM memory_evidence WHERE memory_id = ?)`.
unfoldable pub has_evidence : ℕ → List Evidence → Bool
has_evidence k [] = false
has_evidence k (e ∷ es) = e.memory_id == k || has_evidence k es

-- `SELECT COALESCE(MAX(id), 0) FROM memories`.
unfoldable pub max_id : List Memory → ℕ
max_id [] = 0
max_id (m ∷ ms) = max m.id (max_id ms)

-- The id that SQLite gives a `memory_evidence` row: one above the greatest.
unfoldable pub max_evidence_id : List Evidence → ℕ
max_evidence_id [] = 0
max_evidence_id (e ∷ es) = max e.id (max_evidence_id es)

unfoldable pub find_evidence : ℕ → List Evidence → Option Evidence
find_evidence k [] = none
find_evidence k (e ∷ es) = if e.id == k then some e else find_evidence k es

unfoldable pub find_source : ℕ → List Source → Option Source
find_source k [] = none
find_source k (s ∷ ss) = if s.id == k then some s else find_source k ss
