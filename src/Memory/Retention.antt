-- ===== src/Memory/Retention.antt =====
-- `prune_ephemeral` of palaver/store/rollup.py against `resolve_evidence`.
use palaver.Prelude.{
  ℕ, true, false, Option, none, some, List, [], ◌∷◌, ◌≡◌, ◌∙◌, refl, arith, ◌==◌, inl, inr, All,
  Bool-cases, Option-cases,
}
use palaver.Memory.Tables.{Evidence, Source, Store, find_evidence, find_source}
use palaver.Memory.Resolve.{resolve_row, resolve_evidence}
use palaver.Memory.Prune.{
  is_referenced, is_expired_unreferenced, expired_ids, delete_chunk, delete_chunks, prune_ephemeral,
}

find-delete_chunk :
    (k j : ℕ) (ss : List Source)
    → (j == k) ≡ false
    → find_source k (delete_chunk j ss) ≡ find_source k ss
unfolding find_source delete_chunk
find-delete_chunk k j [] h = refl
find-delete_chunk k j (s ∷ ss) h = ground (arith, find-delete_chunk k j ss)

find-delete_chunks :
    (k : ℕ) (js : List ℕ) (ss : List Source)
    → All (λ j. (j == k) ≡ false) js
    → find_source k (delete_chunks js ss) ≡ find_source k ss
unfolding delete_chunks
find-delete_chunks k [] ss h = refl
find-delete_chunks k (j ∷ js) ss (other, rest) =
    find-delete_chunks k js (delete_chunk j ss) rest ∙ find-delete_chunk k j ss other

expired_other :
    (cutoff k : ℕ) (es : List Evidence) (s : Source)
    → is_referenced k es ≡ true
    → is_expired_unreferenced cutoff es s ≡ true
    → (s.id == k) ≡ false
unfolding is_expired_unreferenced
expired_other cutoff k es s named expired = elim (Bool-cases (s.id == k)) [
  | inl same ↦
      let key : s.id ≡ k = ground arith in
      let free : is_referenced s.id es ≡ false = ground arith in cc (key, free, named)
  | inr other ↦ other
]

-- A chunk that some evidence row names is on no list of expired ids.
expired_ids-referenced :
    (cutoff k : ℕ) (es : List Evidence) (ss : List Source)
    → is_referenced k es ≡ true
    → All (λ j. (j == k) ≡ false) (expired_ids cutoff es ss)
unfolding expired_ids
expired_ids-referenced cutoff k es [] h = tt
expired_ids-referenced cutoff k es (s ∷ ss) h =
    elim (Bool-cases (is_expired_unreferenced cutoff es s)) [
      | inl expired ↦
          rw expired
            (expired_other cutoff k es s h expired, expired_ids-referenced cutoff k es ss h)
      | inr stays ↦ rw stays (expired_ids-referenced cutoff k es ss h)
    ]

find_evidence-referenced :
    (k c : ℕ) (es : List Evidence) (e : Evidence)
    → find_evidence k es ≡ some e
    → e.transcript_chunk_id ≡ some c
    → is_referenced c es ≡ true
unfolding find_evidence is_referenced
find_evidence-referenced k c [] e f n = cc
find_evidence-referenced k c (x ∷ es) e f n = ground (arith, find_evidence-referenced k c es e)

resolve_row-prune :
    (cutoff : ℕ) (db : Store) (e : Evidence) (chunk event : Option ℕ)
    → e.transcript_chunk_id ≡ chunk
    → e.event_id ≡ event
    → ((c : ℕ) → e.transcript_chunk_id ≡ some c → is_referenced c db.memory_evidence ≡ true)
    → resolve_row (prune_ephemeral cutoff db).0 e ≡ resolve_row db e
unfolding resolve_row prune_ephemeral
resolve_row-prune cutoff db e (some c) event hc he named = ground (
  arith,
  find-delete_chunks c (expired_ids cutoff db.memory_evidence db.transcript_chunks)
      db.transcript_chunks
      (expired_ids-referenced cutoff c db.memory_evidence db.transcript_chunks (named c hc)),
)
resolve_row-prune cutoff db e none (some v) hc he named = ground arith
resolve_row-prune cutoff db e none none hc he named = ground arith

prune-evidence :
    (cutoff : ℕ) (db : Store) → (prune_ephemeral cutoff db).0.memory_evidence ≡ db.memory_evidence
unfolding prune_ephemeral
prune-evidence cutoff db = refl

resolve_evidence-prune :
    (cutoff : ℕ) (db : Store) (k : ℕ)
    → resolve_evidence (prune_ephemeral cutoff db).0 k ≡ resolve_evidence db k
unfolding resolve_evidence
resolve_evidence-prune cutoff db k = elim (Option-cases (find_evidence k db.memory_evidence)) [
  | inl missing ↦ ground (arith, prune-evidence cutoff db, missing)
  | inr (e, found) ↦ ground (
    arith,
    prune-evidence cutoff db,
    found,
    resolve_row-prune cutoff db e e.transcript_chunk_id e.event_id refl refl
        (λ c named. find_evidence-referenced k c db.memory_evidence e found named),
  )
]

-- Pruning, at whatever cutoff, changes what no evidence row resolves to: each anchor resolves to
-- the same text as before, or fails as before. It leaves the memories, the evidence and the events
-- alone.
pub prune_keeps_evidence :
    (cutoff : ℕ) (db : Store)
    → ((k : ℕ) → resolve_evidence (prune_ephemeral cutoff db).0 k ≡ resolve_evidence db k)
      × ((prune_ephemeral cutoff db).0.memories ≡ db.memories)
      × ((prune_ephemeral cutoff db).0.memory_evidence ≡ db.memory_evidence)
      × ((prune_ephemeral cutoff db).0.events ≡ db.events)
unfolding prune_ephemeral
prune_keeps_evidence cutoff db = (resolve_evidence-prune cutoff db, refl, refl, refl)
