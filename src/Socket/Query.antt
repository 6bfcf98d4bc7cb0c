-- ===== src/Socket/Query.antt =====
-- `_record_query` of palaver/observer/socket/protocol.py, with the constraints of
-- palaver/store/schema.py on the two tables that it writes.
use palaver.Prelude.{
  ℕ, suc, Bool, true, false, not, ◌&&◌, ◌||◌, Option, none, some, List, [], ◌∷◌, ◌==◌, max,
  if◌then◌else◌, length, Text, strip, is_blank,
}
use palaver.Json.{Value, null, int, str, arr, Items, nil, cons, Fields, lookup, get, member}
use palaver.Memory.Tables.{is_some, find_memory}
use palaver.Memory.Write.{value_error, integrity_error}
use palaver.Integers.{ℤ, pos, negsuc, integer, fits_int64}
use palaver.Socket.Connection.{
  QueryEvent, QueryEventMemory, Database, Connection, ErrorName, Attempt, failed, type_error,
  write_refused, overflow_error, recorded, commit,
}

unfoldable pub integer_eq : ℤ → ℤ → Bool
integer_eq (pos a) (pos b) = a == b
integer_eq (negsuc a) (negsuc b) = a == b
integer_eq _ _ = false

-- `dict.fromkeys`: the first of equal ids stays.
unfoldable pub without : ℤ → List ℤ → List ℤ
unfolding integer_eq
without a [] = []
without a (b ∷ bs) = let rest = without a bs in if integer_eq a b then rest else b ∷ rest

unfoldable pub fromkeys : List ℤ → List ℤ
unfolding without
fromkeys [] = []
fromkeys (a ∷ ids) = a ∷ without a (fromkeys ids)

-- The list of integers, or `none` where an element is not one.
unfoldable pub integers : Items → Option (List ℤ)
unfolding integer
integers nil = some []
integers (cons v vs) =
    let rest = integers vs in
    elim (integer v) [
      | none ↦ none
      | some a ↦ elim rest [ none ↦ none | some ids ↦ some (a ∷ ids) ]
    ]

-- `payload.get("memory_ids", [])`.
unfoldable pub memory_ids_of : Fields → Option (List ℤ)
unfolding integers lookup
memory_ids_of payload = elim (lookup payload "memory_ids") [
  | none ↦ some []
  | some (arr vs) ↦ integers vs
  | some _ ↦ none
]

-- `result_count`, where it passes its check.
unfoldable pub result_count_of : Value → Option (Option ℕ)
result_count_of null = some none
result_count_of (int n) = some (some n)
result_count_of _ = none

unfoldable pub stripped : Value → Option Text
stripped (str s) = if is_blank s then none else some (strip s)
stripped _ = none

-- What is left of the payload when every check has passed.
pub record Query : Type 0 where
  pub tool : Text
  pub scope_kind : Text
  pub scope_value : Text
  pub result_count : Option ℕ
  pub memory_ids : List ℤ

-- The checks, in their order; the first that fails decides what is raised.
pub data Checked : Type 0 where
  valid : Query → Checked
  invalid : ErrorName → Checked

unfoldable pub text_of : Value → Text
text_of (str s) = s
text_of _ = []

-- `scope_kind not in {"project", "session"}`.
unfoldable pub check_scope : Fields → Text → Checked
unfolding stripped result_count_of memory_ids_of text_of member get
check_scope payload tool = elim (member (get payload "scope_kind") ("project" ∷ "session" ∷ [])) [
  | none ↦ invalid type_error
  | some false ↦ invalid (write_refused value_error)
  | some true ↦ elim (stripped (get payload "scope_value")) [
    | none ↦ invalid (write_refused value_error)
    | some scope_value ↦ elim (result_count_of (get payload "result_count")) [
      | none ↦ invalid (write_refused value_error)
      | some result_count ↦ elim (memory_ids_of payload) [
        | none ↦ invalid (write_refused value_error)
        | some memory_ids ↦ valid (record {
          tool = tool;
          scope_kind = text_of (get payload "scope_kind");
          scope_value = scope_value;
          result_count = result_count;
          memory_ids = memory_ids;
        })
      ]
    ]
  ]
]

unfoldable pub check_query : Fields → Checked
unfolding check_scope
check_query payload = elim (stripped (get payload "tool")) [
  | none ↦ invalid (write_refused value_error)
  | some tool ↦ check_scope payload tool
]

unfoldable pub max_event_id : List QueryEvent → ℕ
max_event_id [] = 0
max_event_id (e ∷ es) = max e.id (max_event_id es)

-- `PRIMARY KEY (query_event_id, memory_id)`.
unfoldable pub is_recorded : ℕ → ℕ → List QueryEventMemory → Bool
is_recorded event_id memory_id [] = false
is_recorded event_id memory_id (r ∷ rs) =
    (r.query_event_id == event_id && r.memory_id == memory_id) || is_recorded event_id memory_id rs

-- One row of the `executemany`: what it raises, or the tables with the row.
unfoldable pub insert_recorded : ℕ → ℤ → Database → Option Database
unfolding is_recorded
insert_recorded event_id (negsuc k) db = none
insert_recorded event_id (pos k) db =
    if is_some (find_memory k db.store.memories)
      && not (is_recorded event_id k db.query_event_memories)
    then some (record db {
      query_event_memories =
          record { query_event_id = event_id; memory_id = k } ∷ db.query_event_memories;
    })
    else none

-- The `executemany`, the commit and the reply; `count` is `len(set(memory_ids))`.
unfoldable pub insert_all : Bool → ℕ → ℕ → List ℤ → Connection → Attempt
unfolding insert_recorded fits_int64 commit
insert_all commits event_id count [] c = commit commits (recorded event_id count) c
insert_all commits event_id count (k ∷ ids) c = elim (fits_int64 k) [
  | false ↦ failed overflow_error c
  | true ↦ elim (insert_recorded event_id k c.current) [
    | none ↦ failed (write_refused integrity_error) c
    | some db ↦ insert_all commits event_id count ids (record c { current = db })
  ]
]

unfoldable pub event_row : ℕ → Query → QueryEvent
event_row event_id q = record {
  id = event_id;
  tool = q.tool;
  scope_kind = q.scope_kind;
  scope_value = q.scope_value;
  result_count = q.result_count;
}

unfoldable pub with_event : Query → Connection → Connection
unfolding event_row max_event_id
with_event q c = record c {
  current = record c.current {
    query_events = event_row (suc (max_event_id c.current.query_events)) q ∷ c.current.query_events;
  };
}

unfoldable pub count_fits : Option ℕ → Bool
unfolding fits_int64
count_fits none = true
count_fits (some n) = fits_int64 (pos n)

unfoldable pub insert_query : Bool → Query → Connection → Attempt
unfolding insert_all with_event fromkeys count_fits
insert_query commits q c =
    if count_fits q.result_count
    then insert_all commits (suc (max_event_id c.current.query_events))
        (length (fromkeys q.memory_ids)) (fromkeys q.memory_ids) (with_event q c)
    else failed overflow_error c

-- `_record_query`.
unfoldable pub record_checked : Bool → Connection → Checked → Attempt
unfolding insert_query
record_checked commits c (invalid e) = failed e c
record_checked commits c (valid q) = insert_query commits q c

unfoldable pub record_query : Bool → Fields → Connection → Attempt
unfolding record_checked check_query
record_query commits payload c = record_checked commits c (check_query payload)
