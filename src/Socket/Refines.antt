-- ===== src/Socket/Refines.antt =====
-- `apply_request` of palaver/observer/socket/protocol.py against what the write path promises.
use palaver.Prelude.{
  ℕ, suc, Bool, true, false, List, [], ◌∷◌, ◌≡◌, refl, ap, sym, ◌∙◌, map, length, All, Text,
  if◌then◌else◌,
}
use palaver.Json.{Value, obj, Fields, get}
use palaver.Memory.Tables.{is_some, find_memory}
use palaver.Memory.Write.{EvidenceAnchor, Outcome, returned, raised, supersede_memory}
use palaver.Memory.Superseding.{Supersedes, supersede_memory_lem}
use palaver.Integers.{pos}
use palaver.Socket.Connection.{
  Database, Connection, ErrorName, Attempt, done, failed, Reply, refused, corrected, recorded,
  rollback, commit, invalid_request,
}
use palaver.Socket.Correct.{
  Arguments, arguments, bad_arguments, user_correction, after_supersede, supersede_with,
  check_correction, correct_checked, correct,
}
use palaver.Socket.Query.{
  Query, Checked, valid, invalid, check_query, max_event_id, event_row, with_event, count_fits,
  insert_query, record_checked, record_query, fromkeys,
}
use palaver.Socket.Ids.{has_id, has_id-fromkeys, NoneTwice, fromkeys-NoneTwice}
use palaver.Socket.Recorded.{Inserts, recorded_rows, insert_all-Inserts}
use palaver.Socket.Protocol.{
  Operation, unhashable, unsupported, correct_op, query_op, operation, perform, reply_to,
  apply_request,
}

-- A query's event, with the memories that it retrieved, each once and each stored.
pub record Records (event_id count : ℕ) (q : Query) (before after : Database) : Type 0 where
  pub ids : List ℕ
  pub covers : (k : ℕ) → has_id (pos k) (map pos ids) ≡ has_id (pos k) q.memory_ids
  pub once : NoneTwice (map pos ids)
  pub stored : All (λ k. is_some (find_memory k before.store.memories) ≡ true) ids
  pub counted : count ≡ length (map pos ids)
  pub fresh : event_id ≡ suc (max_event_id before.query_events)
  pub tables : after ≡ record {
    store = before.store;
    query_events = event_row event_id q ∷ before.query_events;
    query_event_memories = recorded_rows event_id ids before.query_event_memories;
  }

-- A memory's correction: the new row and its evidence, and no other table.
pub record Corrects (memory_id k : ℕ) (s : Text) (now : ℕ) (before after : Database) : Type 0 where
  pub supersedes : Supersedes memory_id k (user_correction s now) before.store after.store
  pub events : after.query_events ≡ before.query_events
  pub retrieved : after.query_event_memories ≡ before.query_event_memories

-- What a reply promises of the database before the request and after it.
abbrev pub Promise : ℕ → Fields → Reply → Database → Database → Type 0
Promise now payload (refused e) before after = after ≡ before
Promise now payload (corrected k memory_id) before after =
    (s : Text) × (check_correction payload ≡ arguments memory_id s)
    × Corrects memory_id k s now before after
Promise now payload (recorded event_id count) before after =
    (q : Query) × (check_query payload ≡ valid q) × Records event_id count q before after

abbrev pub Promised : ℕ → Value → Reply → Database → Database → Type 0
Promised now (obj payload) r before after = Promise now payload r before after
Promised now _ r before after = (r ≡ refused invalid_request) × (after ≡ before)

-- What a handler leaves, before a refusal is rolled back.
unfoldable Performs : ℕ → Fields → Connection → Attempt → Type 0
Performs now payload c (done r d) =
    (d.current ≡ d.committed) × Promise now payload r c.current d.current
Performs now payload c (failed e d) = d.committed ≡ c.committed

failed-Performs :
    (now : ℕ) (payload : Fields) (e : ErrorName) (c d : Connection)
    → d.committed ≡ c.committed
    → Performs now payload c (failed e d)
unfolding Performs
failed-Performs now payload e c d same = same

after_supersede-Performs :
    (commits : Bool) (now : ℕ) (payload : Fields) (c : Connection) (k : ℕ) (s : Text)
    (l : List EvidenceAnchor) (o : Outcome)
    → check_correction payload ≡ arguments k s
    → supersede_memory k (user_correction s now) l c.current.store ≡ o
    → Performs now payload c (after_supersede commits k c o)
unfolding after_supersede commit Performs
after_supersede-Performs true now payload c k s l (returned j db) asked e = (
  refl,
  (
    s,
    asked,
    record {
      supersedes = supersede_memory_lem k (user_correction s now) l c.current.store j db e;
      events = refl;
      retrieved = refl;
    },
  ),
)
after_supersede-Performs false now payload c k s l (returned j db) asked e = refl
after_supersede-Performs commits now payload c k s l (raised w db) asked e = refl

supersede_with-Performs :
    (commits : Bool) (now : ℕ) (payload : Fields) (c : Connection) (k : ℕ) (s : Text)
    (l : List EvidenceAnchor)
    → check_correction payload ≡ arguments k s
    → Performs now payload c (supersede_with commits now k s l c)
unfolding supersede_with
supersede_with-Performs commits now payload c k s [] asked = failed-Performs now payload _ c c refl
supersede_with-Performs commits now payload c k s (a ∷ l) asked =
    after_supersede-Performs commits now payload c k s (a ∷ l) _ asked refl

correct-Performs :
    (commits : Bool) (now : ℕ) (payload : Fields) (c : Connection) (a : Arguments)
    → check_correction payload ≡ a
    → Performs now payload c (correct_checked commits now c a)
unfolding correct_checked
correct-Performs commits now payload c (bad_arguments e) asked =
    failed-Performs now payload e c c refl
correct-Performs commits now payload c (arguments k s) asked =
    supersede_with-Performs commits now payload c k s _ asked

Inserts-Performs :
    (now : ℕ) (payload : Fields) (c : Connection) (q : Query) (a : Attempt)
    → check_query payload ≡ valid q
    → Inserts
        (suc (max_event_id c.current.query_events))
        (length (fromkeys q.memory_ids))
        (fromkeys q.memory_ids)
        (with_event q c)
        a
    → Performs now payload c a
unfolding with_event Performs
Inserts-Performs now payload c q (done (recorded j n) d) asked
      (e, e', same, (ks, cover, all, rows)) =
    (
      same,
      (
        q,
        asked,
        record {
          ids = ks;
          covers = λ k. rw cover (has_id-fromkeys (pos k) q.memory_ids);
          once = rw cover (fromkeys-NoneTwice q.memory_ids);
          stored = all;
          counted = e' ∙ ap length (sym cover);
          fresh = e;
          tables = rw e rows;
        },
      ),
    )
Inserts-Performs now payload c q (done (corrected j n) d) asked h = absurd h
Inserts-Performs now payload c q (done (refused w) d) asked h = absurd h
Inserts-Performs now payload c q (failed w d) asked h = h

if-Performs :
    (now : ℕ) (payload : Fields) (b : Bool) (c : Connection) (x y : Attempt)
    → Performs now payload c x
    → Performs now payload c y
    → Performs now payload c (if b then x else y)
if-Performs now payload true c x y p q = p
if-Performs now payload false c x y p q = q

record-Performs :
    (commits : Bool) (now : ℕ) (payload : Fields) (c : Connection) (k : Checked)
    → check_query payload ≡ k
    → Performs now payload c (record_checked commits c k)
unfolding record_checked insert_query
record-Performs commits now payload c (invalid e) asked = failed-Performs now payload e c c refl
record-Performs commits now payload c (valid q) asked =
    if-Performs now payload (count_fits q.result_count) c _ _
      (Inserts-Performs now payload c q _ asked (
        insert_all-Inserts commits (suc (max_event_id c.current.query_events))
          (length (fromkeys q.memory_ids)) (fromkeys q.memory_ids) (with_event q c)))
      (failed-Performs now payload _ c c refl)

perform-Performs :
    (commits : Bool) (now : ℕ) (payload : Fields) (c : Connection) (o : Operation)
    → Performs now payload c (perform commits now payload c o)
unfolding perform correct record_query
perform-Performs commits now payload c unhashable = failed-Performs now payload _ c c refl
perform-Performs commits now payload c unsupported = failed-Performs now payload _ c c refl
perform-Performs commits now payload c correct_op =
    correct-Performs commits now payload c (check_correction payload) refl
perform-Performs commits now payload c query_op =
    record-Performs commits now payload c (check_query payload) refl

abbrev Replies : ℕ → Fields → Connection → Reply × Connection → Type 0
Replies now payload c (r, d) =
    (d.current ≡ d.committed) × Promise now payload r c.committed d.committed

reply_to-Replies :
    (now : ℕ) (payload : Fields) (a : Attempt) (c : Connection)
    → c.current ≡ c.committed
    → Performs now payload c a
    → Replies now payload c (reply_to a)
unfolding reply_to rollback Performs
reply_to-Replies now payload (done r d) c clean (same, kept) = (same, rw (← clean, ← same) kept)
reply_to-Replies now payload (failed e d) c clean same = (refl, same)

-- A request that finds no open transaction leaves none, where the rollback of a refusal does not
-- fail itself, and the database keeps what the reply says:
-- after a refusal, whatever its reason, a failing commit included, and after any payload that is not
-- an object, it is as it was; after an
-- accepted correction the memory that the payload names is superseded, by the row whose id the
-- reply gives, with the stripped statement at the tier of a user's instruction, and the query
-- tables are as they were; after an accepted query there is one new event, with the arguments that
-- passed the checks, and a row for each memory that the payload lists, one for an id that it lists
-- twice, each of a stored memory, as many as the reply says, and no other change.
pub apply_request_refines :
    (commits : Bool) (now : ℕ) (payload : Value) (c : Connection)
    → c.current ≡ c.committed
    → ((apply_request commits now payload c).1.current
        ≡ (apply_request commits now payload c).1.committed)
      × Promised now payload
          (apply_request commits now payload c).0
          c.committed
          (apply_request commits now payload c).1.committed
unfolding apply_request
apply_request_refines commits now (obj payload) c clean =
    reply_to-Replies now payload _ c clean
      (perform-Performs commits now payload c (operation (get payload "op")))
apply_request_refines commits now _ c clean = (clean, (refl, refl))
