-- ===== src/Memory/Prune.antt =====
-- palaver/store/rollup.py: the deletion of regeneratable rows past the retention window. The cutoff
-- is given, as the order of stored timestamps goes.
use palaver.Prelude.{
  ℕ, ◌+◌, ltb, Bool, false, ◌||◌, ◌&&◌, not, Option, none, some, List, [], ◌∷◌, ◌==◌, length,
  if◌then◌else◌,
}
use palaver.Memory.Tables.{Evidence, Source, StateRow, Store}

-- `EXISTS (SELECT 1 FROM memory_evidence WHERE transcript_chunk_id = ?)`.
names_chunk : ℕ → Option ℕ → Bool
names_chunk k none = false
names_chunk k (some c) = c == k

unfoldable pub is_referenced : ℕ → List Evidence → Bool
unfolding names_chunk
is_referenced k [] = false
is_referenced k (e ∷ es) = names_chunk k e.transcript_chunk_id || is_referenced k es

-- `_UNREFERENCED_EXPIRED_CHUNKS`, a row at a time.
unfoldable pub is_expired_unreferenced : ℕ → List Evidence → Source → Bool
is_expired_unreferenced cutoff es s = ltb s.created_at cutoff && not (is_referenced s.id es)

-- `_count_referenced_expired_chunks`.
unfoldable pub count_referenced_expired : ℕ → List Evidence → List Source → ℕ
count_referenced_expired cutoff es [] = 0
count_referenced_expired cutoff es (s ∷ ss) =
    (if ltb s.created_at cutoff && is_referenced s.id es then 1 else 0)
    + count_referenced_expired cutoff es ss

unfoldable pub expired_ids : ℕ → List Evidence → List Source → List ℕ
expired_ids cutoff es [] = []
expired_ids cutoff es (s ∷ ss) =
    let rest = expired_ids cutoff es ss in
    if is_expired_unreferenced cutoff es s then s.id ∷ rest else rest

-- `DELETE FROM transcript_chunks WHERE id = ?`.
unfoldable pub delete_chunk : ℕ → List Source → List Source
delete_chunk k [] = []
delete_chunk k (s ∷ ss) = let rest = delete_chunk k ss in if s.id == k then rest else s ∷ rest

unfoldable pub delete_chunks : List ℕ → List Source → List Source
unfolding delete_chunk
delete_chunks [] ss = ss
delete_chunks (k ∷ ks) ss = delete_chunks ks (delete_chunk k ss)

-- `DELETE FROM current_state WHERE updated_at < ?`: the rows kept.
unfoldable pub kept_state : ℕ → List StateRow → List StateRow
kept_state cutoff [] = []
kept_state cutoff (r ∷ rs) =
    let rest = kept_state cutoff rs in if ltb r.updated_at cutoff then rest else r ∷ rest

unfoldable pub expired_state : ℕ → List StateRow → ℕ
expired_state cutoff [] = 0
expired_state cutoff (r ∷ rs) = (if ltb r.updated_at cutoff then 1 else 0) + expired_state cutoff rs

-- `PruneReport`.
pub record PruneReport : Type 0 where
  pub cutoff : ℕ
  pub current_state_rows_deleted : ℕ
  pub transcript_chunks_deleted : ℕ
  pub transcript_chunks_kept_for_evidence : ℕ

-- `prune_ephemeral`.
unfoldable pub prune_ephemeral : ℕ → Store → Store × PruneReport
prune_ephemeral cutoff db =
    let expired = expired_ids cutoff db.memory_evidence db.transcript_chunks in
    (
      record db {
        current_state = kept_state cutoff db.current_state;
        transcript_chunks = delete_chunks expired db.transcript_chunks;
      },
      record {
        cutoff = cutoff;
        current_state_rows_deleted = expired_state cutoff db.current_state;
        transcript_chunks_deleted = length expired;
        transcript_chunks_kept_for_evidence =
            count_referenced_expired cutoff db.memory_evidence db.transcript_chunks;
      },
    )
