-- ===== src/Memory/Resolve.antt =====
-- palaver/memory/evidence.py: an evidence row read back against the current text of its source.
use palaver.Prelude.{ℕ, ◌-◌, ltb, Option, none, some, length, take, drop, if◌then◌else◌, Text}
use palaver.Memory.Tables.{Evidence, Source, Store, find_evidence, find_source}

pub data Resolved : Type 0 where
  resolved : Text → Resolved
  anchor_error : Resolved

-- `content[start:end]`, for `start <= end`.
unfoldable pub slice : Text → ℕ → ℕ → Text
slice content start end = take (end - start) (drop start content)

-- The last part of `resolve_evidence`: the source row, and the check against truncation.
unfoldable pub slice_source : Evidence → Option Source → Resolved
unfolding slice
slice_source e none = anchor_error
slice_source e (some s) =
    if ltb (length s.text) e.end_offset
    then anchor_error
    else resolved (slice s.text e.start_offset e.end_offset)

unfoldable pub resolve_row : Store → Evidence → Resolved
resolve_row db e = elim e.transcript_chunk_id [
  | some c ↦ slice_source e (find_source c db.transcript_chunks)
  | none ↦ elim e.event_id [
    | some v ↦ slice_source e (find_source v db.events)
    | none ↦ anchor_error
  ]
]

-- `resolve_evidence`.
unfoldable pub resolve_evidence : Store → ℕ → Resolved
resolve_evidence db evidence_id = elim (find_evidence evidence_id db.memory_evidence) [
  | none ↦ anchor_error
  | some e ↦ resolve_row db e
]
