-- ===== src/Memory/Anchors.antt =====
-- The evidence loop of `write_memory`, and the id that it reserves.
use palaver.Prelude.{
  ℕ, suc, ◌<◌, ltb, Bool, true, ◌&&◌, ◌||◌, none, some, List, [], ◌∷◌, ◌≡◌, refl, arith, all,
  if◌then◌else◌,
}
use palaver.Memory.Tables.{
  Memory, Store, find_memory, is_some, has_evidence, max_id, max_evidence_id,
}
use palaver.Memory.Statements.{insert_evidence, evidence_check, execute}
use palaver.Memory.Write.{EvidenceAnchor, evidence_row, insert_anchors}

-- An anchor that the CHECKs admit: a span that is not empty, into a chunk or an event.
abbrev pub is_valid_anchor : EvidenceAnchor → Bool
is_valid_anchor a =
    ltb a.start_offset a.end_offset && (is_some a.transcript_chunk_id || is_some a.event_id)

pub find-max_id : (k : ℕ) (ms : List Memory) → max_id ms < k → find_memory k ms ≡ none
unfolding find_memory max_id
find-max_id k [] h = refl
find-max_id k (m ∷ ms) h = ground (arith, find-max_id k ms)

-- The tables with the row that an anchor becomes.
abbrev pub with_anchor : ℕ → EvidenceAnchor → Store → Store
with_anchor k a db = record db {
  memory_evidence =
      record (evidence_row k a) { id = suc (max_evidence_id db.memory_evidence) }
      ∷ db.memory_evidence;
}

pub insert_anchor :
    (k : ℕ) (a : EvidenceAnchor) (db : Store)
    → execute (insert_evidence (evidence_row k a)) db
      ≡ (if is_valid_anchor a then some (with_anchor k a db) else none)
unfolding execute evidence_check evidence_row
insert_anchor k a db = ground arith

pub insert_anchors-memories :
    (k : ℕ) (l : List EvidenceAnchor) (db : Store)
    → (insert_anchors k l db).1.memories ≡ db.memories
unfolding insert_anchors
insert_anchors-memories k [] db = refl
insert_anchors-memories k (a ∷ l) db =
    ground (arith, insert_anchor k a db, insert_anchors-memories k l (with_anchor k a db))

pub insert_anchors-valid :
    (k : ℕ) (l : List EvidenceAnchor) (db : Store)
    → (insert_anchors k l db).0 ≡ all is_valid_anchor l
unfolding insert_anchors
insert_anchors-valid k [] db = refl
insert_anchors-valid k (a ∷ l) db =
    ground (arith, insert_anchor k a db, insert_anchors-valid k l (with_anchor k a db))

-- Evidence rows only grow in number: what is named stays named.
pub insert_anchors-keeps :
    (k j : ℕ) (l : List EvidenceAnchor) (db : Store)
    → has_evidence j db.memory_evidence ≡ true
    → has_evidence j (insert_anchors k l db).1.memory_evidence ≡ true
unfolding insert_anchors has_evidence
insert_anchors-keeps k j [] db h = h
insert_anchors-keeps k j (a ∷ l) db h =
    ground (arith, insert_anchor k a db, insert_anchors-keeps k j l (with_anchor k a db))

pub insert_anchors-names :
    (k : ℕ) (a : EvidenceAnchor) (l : List EvidenceAnchor) (db : Store)
    → is_valid_anchor a ≡ true
    → has_evidence k (insert_anchors k (a ∷ l) db).1.memory_evidence ≡ true
unfolding insert_anchors has_evidence evidence_row
insert_anchors-names k a l db h =
    ground (arith, insert_anchor k a db, insert_anchors-keeps k k l (with_anchor k a db))
