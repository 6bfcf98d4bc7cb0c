-- ===== src/Socket/Recorded.antt =====
-- What an accepted query of palaver/observer/socket/protocol.py leaves in its two tables.
use palaver.Prelude.{
  ℕ, Bool, true, false, some, List, [], ◌∷◌, ◌≡◌, refl, ap, arith, map, All, Bool-cases,
  Option-cases, inl, inr,
}
use palaver.Memory.Tables.{is_some, find_memory}
use palaver.Integers.{ℤ, pos, negsuc, fits_int64}
use palaver.Socket.Connection.{
  QueryEventMemory, Database, Connection, Attempt, done, failed, recorded, commit, corrected,
  refused,
}
use palaver.Socket.Query.{insert_recorded, insert_all}

-- The rows of an event put over the rows before them, in the order of the ids.
abbrev pub recorded_rows : ℕ → List ℕ → List QueryEventMemory → List QueryEventMemory
recorded_rows event_id [] rows = rows
recorded_rows event_id (k ∷ ks) rows =
    recorded_rows event_id ks (record { query_event_id = event_id; memory_id = k } ∷ rows)

abbrev with_rows : ℕ → List ℕ → Database → Database
with_rows event_id ks db = record db {
  query_event_memories = recorded_rows event_id ks db.query_event_memories;
}

-- How the `executemany` and the commit end.
abbrev pub Inserts : ℕ → ℕ → List ℤ → Connection → Attempt → Type 0
Inserts event_id count ids c (done (recorded k n) d) =
    (k ≡ event_id)
    × (n ≡ count)
    × (d.current ≡ d.committed)
    × ((ks : List ℕ) × (map pos ks ≡ ids)
        × All (λ j. is_some (find_memory j c.current.store.memories) ≡ true) ks
        × (d.current ≡ with_rows event_id ks c.current))
Inserts event_id count ids c (done (corrected k p) d) = ⊥
Inserts event_id count ids c (done (refused e) d) = ⊥
Inserts event_id count ids c (failed e d) = d.committed ≡ c.committed

insert_recorded-some :
    (event_id : ℕ) (a : ℤ) (db db' : Database)
    → insert_recorded event_id a db ≡ some db'
    → (k : ℕ) × (a ≡ pos k)
      × (is_some (find_memory k db.store.memories) ≡ true)
      × (db' ≡ with_rows event_id (k ∷ []) db)
unfolding insert_recorded
insert_recorded-some event_id (pos k) db db' h = (k, refl, ground arith, ground arith)
insert_recorded-some event_id (negsuc k) db db' h = absurd (ground arith)

Inserts-cons :
    (event_id count k : ℕ) (ids : List ℤ) (c : Connection) (a : Attempt)
    → is_some (find_memory k c.current.store.memories) ≡ true
    → Inserts event_id count ids (record c { current = with_rows event_id (k ∷ []) c.current }) a
    → Inserts event_id count (pos k ∷ ids) c a
Inserts-cons event_id count k ids c (done (recorded j n) d) stored
      (e, e', same, (ks, cover, all, rows)) =
    (e, e', same, (k ∷ ks, ap (λ l. pos k ∷ l) cover, (stored, all), rows))
Inserts-cons event_id count k ids c (done (corrected j p) d) stored h = absurd h
Inserts-cons event_id count k ids c (done (refused e) d) stored h = absurd h
Inserts-cons event_id count k ids c (failed e d) stored same = same

insert_none-Inserts :
    (commits : Bool) (event_id count : ℕ) (c : Connection)
    → Inserts event_id count [] c (insert_all commits event_id count [] c)
unfolding insert_all commit
insert_none-Inserts true event_id count c = (refl, refl, refl, ([], refl, tt, refl))
insert_none-Inserts false event_id count c = refl

pub insert_all-Inserts :
    (commits : Bool) (event_id count : ℕ) (ids : List ℤ) (c : Connection)
    → Inserts event_id count ids c (insert_all commits event_id count ids c)
unfolding insert_all
insert_all-Inserts commits event_id count [] c = insert_none-Inserts commits event_id count c
insert_all-Inserts commits event_id count (a ∷ ids) c = elim (Bool-cases (fits_int64 a)) [
  | inr big ↦ rw (insert_all, big) refl
  | inl small ↦ elim (Option-cases (insert_recorded event_id a c.current)) [
    | inl aborted ↦ rw (insert_all, small, aborted) refl
    | inr (db, stored) ↦
        let (k, e, found, rows) = insert_recorded-some event_id a c.current db stored in
        rw (insert_all, small, stored, rows, e)
          (Inserts-cons event_id count k ids c _ found (
            insert_all-Inserts commits event_id count ids
              (record c { current = with_rows event_id (k ∷ []) c.current })))
  ]
]
