-- ===== src/Socket/Stored.antt =====
-- A query that `_record_query` of palaver/observer/socket/protocol.py does not refuse.
use palaver.Prelude.{
  ℕ, suc, ◌<◌, ◌≤◌, true, false, some, List, [], ◌∷◌, ◌==◌, ◌≡◌, refl, sym, ◌∙◌, arith, length, All,
  Bool-cases, inl, inr, lt→ltb,
}
use palaver.Memory.Tables.{is_some, find_memory, Memory}
use palaver.Integers.{ℤ, pos, negsuc, fits_int64}
use palaver.Socket.Connection.{QueryEvent, QueryEventMemory, Database, Connection, recorded, commit}
use palaver.Socket.Query.{
  integer_eq, fromkeys, max_event_id, is_recorded, insert_recorded, insert_all, Query, with_event,
  count_fits, insert_query, record_checked,
}
use palaver.Socket.Ids.{has_id, has_id-fromkeys, NoneTwice, fromkeys-NoneTwice}
use palaver.Socket.Protocol.{reply_to}

-- Every id is that of a memory that is stored, and below 2^63.
pub record IsStored (ids : List ℤ) (ms : List Memory) : Type 0 where
  pub natural : (k : ℕ) → has_id (negsuc k) ids ≡ false
  pub stored : (k : ℕ) → has_id (pos k) ids ≡ true → is_some (find_memory k ms) ≡ true
  pub small : (k : ℕ) → has_id (pos k) ids ≡ true → k < 0x8000000000000000

fromkeys-IsStored : (ids : List ℤ) (ms : List Memory) → IsStored ids ms → IsStored (fromkeys ids) ms
fromkeys-IsStored ids ms h = record {
  natural = λ k. has_id-fromkeys (negsuc k) ids ∙ h.natural k;
  stored = λ k e. h.stored k (sym (has_id-fromkeys (pos k) ids) ∙ e);
  small = λ k e. h.small k (sym (has_id-fromkeys (pos k) ids) ∙ e);
}

rest-IsStored : (a : ℤ) (ids : List ℤ) (ms : List Memory) → IsStored (a ∷ ids) ms → IsStored ids ms
rest-IsStored a ids ms h = record {
  natural = λ k. let n = h.natural k in ground (arith, n);
  stored = λ k e. h.stored k (ground (arith, e));
  small = λ k e. h.small k (ground (arith, e));
}

-- No row pairs the event with one of the ids.
abbrev Unrecorded : ℕ → List ℤ → List QueryEventMemory → Type 0
Unrecorded event_id ids rows =
    (k : ℕ) → has_id (pos k) ids ≡ true → is_recorded event_id k rows ≡ false

self : (k : ℕ) (ids : List ℤ) → has_id (pos k) (pos k ∷ ids) ≡ true
unfolding integer_eq
self k ids = ground arith

self_negative : (k : ℕ) (ids : List ℤ) → has_id (negsuc k) (negsuc k ∷ ids) ≡ true
unfolding integer_eq
self_negative k ids = ground arith

fits : (k : ℕ) → k < 0x8000000000000000 → fits_int64 (pos k) ≡ true
unfolding fits_int64
fits k h = lt→ltb k 0x8000000000000000 h

next-Unrecorded :
    (event_id k : ℕ) (ids : List ℤ) (rows : List QueryEventMemory)
    → has_id (pos k) ids ≡ false
    → Unrecorded event_id (pos k ∷ ids) rows
    → Unrecorded event_id ids (record { query_event_id = event_id; memory_id = k } ∷ rows)
unfolding is_recorded
next-Unrecorded event_id k ids rows once free j there = elim (Bool-cases (k == j)) [
  | inl same ↦
      let e : k ≡ j = ground (arith, same) in absurd (ground (arith, rw (← e) at there, once))
  | inr other ↦ let old = free j (ground (arith, there)) in ground (arith, other, old)
]

insert_recorded_done :
    (event_id k : ℕ) (db : Database)
    → is_some (find_memory k db.store.memories) ≡ true
    → is_recorded event_id k db.query_event_memories ≡ false
    → insert_recorded event_id (pos k) db
      ≡ some (record db {
        query_event_memories =
            record { query_event_id = event_id; memory_id = k } ∷ db.query_event_memories;
      })
unfolding insert_recorded
insert_recorded_done event_id k db found free = rw (found, free) refl

insert_all_done :
    (event_id count : ℕ) (ids : List ℤ) (c : Connection)
    → IsStored ids c.current.store.memories
    → NoneTwice ids
    → Unrecorded event_id ids c.current.query_event_memories
    → (reply_to (insert_all true event_id count ids c)).0 ≡ recorded event_id count
unfolding insert_all commit reply_to
insert_all_done event_id count [] c h once free = refl
insert_all_done event_id count (negsuc k ∷ ids) c h once free =
    absurd (ground (arith, h.natural k, self_negative k ids))
insert_all_done event_id count (pos k ∷ ids) c h (alone, once) free =
    let here = self k ids in
    rw
      (
        fits k (h.small k here),
        insert_all,
        insert_recorded_done event_id k c.current (h.stored k here) (free k here),
      )
      (insert_all_done event_id count ids _ (rest-IsStored (pos k) ids c.current.store.memories h)
        once (next-Unrecorded event_id k ids c.current.query_event_memories alone free))

-- What `query_event_memories` references: an event that is stored, so none above the greatest.
abbrev pub References : List QueryEvent → List QueryEventMemory → Type 0
References events rows = All (λ r. r.query_event_id ≤ max_event_id events) rows

fresh-Unrecorded :
    (m k : ℕ) (rows : List QueryEventMemory)
    → All (λ r. r.query_event_id ≤ m) rows
    → is_recorded (suc m) k rows ≡ false
unfolding is_recorded
fresh-Unrecorded m k [] h = refl
fresh-Unrecorded m k (r ∷ rows) (low, h) = ground (arith, fresh-Unrecorded m k rows h)

-- The count and the memories of a query can be bound and stored.
pub record IsStorable (q : Query) (db : Database) : Type 0 where
  pub counted : count_fits q.result_count ≡ true
  pub ids : IsStored q.memory_ids db.store.memories
  pub references : References db.query_events db.query_event_memories

pub record-IsStorable :
    (q : Query) (c : Connection)
    → IsStorable q c.current
    → (reply_to (record_checked true c (palaver.Socket.Query.valid q))).0
      ≡ recorded (suc (max_event_id c.current.query_events)) (length (fromkeys q.memory_ids))
unfolding record_checked insert_query with_event
record-IsStorable q c h =
    rw (h.counted, record_checked)
      (insert_all_done (suc (max_event_id c.current.query_events)) (length (fromkeys q.memory_ids))
        (fromkeys q.memory_ids) (with_event q c)
        (fromkeys-IsStored q.memory_ids c.current.store.memories h.ids)
        (fromkeys-NoneTwice q.memory_ids)
        (λ k e.
          fresh-Unrecorded (max_event_id c.current.query_events) k c.current.query_event_memories
            h.references))
