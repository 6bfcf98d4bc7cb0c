-- ===== src/Memory/Storable.antt =====
-- What the program's connection (palaver/store/migrate.py, foreign keys on) and the binding of Python
-- values ask of the arguments of `write_memory`, palaver/memory/write.py, beside the tables' CHECKs
-- and triggers. Where one of these fails the code raises as well.
use palaver.Prelude.{
  ℕ, suc, ◌^◌, ◌<◌, ◌==◌, true, some, List, ◌≡◌, ◌≢◌, none, any, all, ltb, ◌||◌, All, Text,
}
use palaver.Memory.Tables.{Project, Session, Store, find_source, max_id}
use palaver.Memory.Write.{EvidenceAnchor, NewMemory}

-- A text without lone surrogates, which UTF-8 can encode.
abbrev pub IsEncodable : Text → Type 0
IsEncodable s = all (λ c. ltb c 0xD800 || ltb 0xDFFF c) s ≡ true

-- An anchor whose chunk and event are stored, if it names them, and whose offsets SQLite can bind.
pub record IsStoredAnchor (db : Store) (a : EvidenceAnchor) : Type 0 where
  pub chunk : (c : ℕ) → a.transcript_chunk_id ≡ some c → find_source c db.transcript_chunks ≢ none
  pub event : (e : ℕ) → a.event_id ≡ some e → find_source e db.events ≢ none
  pub start_small : a.start_offset < 2 ^ 63
  pub end_small : a.end_offset < 2 ^ 63

-- Arguments whose rows name only what is stored, and whose values SQLite can bind.
pub record Storable (n : NewMemory) (l : List EvidenceAnchor) (db : Store) : Type 0 where
  pub project : any (λ (p : Project). p.id == n.project_id) db.projects ≡ true
  pub session :
      (s : ℕ) → n.session_id ≡ some s → any (λ (x : Session). x.id == s) db.sessions ≡ true
  pub anchors : All (IsStoredAnchor db) l
  pub statement : IsEncodable n.statement
  pub origin : IsEncodable n.origin
  pub next_id : suc (max_id db.memories) < 2 ^ 63
