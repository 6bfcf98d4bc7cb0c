-- ===== src/Socket/Connection.antt =====
-- The connection that palaver/observer/socket/protocol.py writes through: its tables as last
-- committed and as the open transaction has left them, and what a handler ends with.
use palaver.Prelude.{ℕ, Bool, true, false, Option, List, Text}
use palaver.Memory.Tables.{Store}
use palaver.Memory.Write.{WriteError}

-- `query_events` and `query_event_memories`.
pub record QueryEvent : Type 0 where
  pub id : ℕ
  pub tool : Text
  pub scope_kind : Text
  pub scope_value : Text
  pub result_count : Option ℕ

pub record QueryEventMemory : Type 0 where
  pub query_event_id : ℕ
  pub memory_id : ℕ

pub record Database : Type 0 where
  pub store : Store
  pub query_events : List QueryEvent
  pub query_event_memories : List QueryEventMemory

pub record Connection : Type 0 where
  pub committed : Database
  pub current : Database

-- `type(exc).__name__` of what a request is refused with, and `InvalidRequest`.
pub data ErrorName : Type 0 where
  invalid_request unsupported_operation type_error : ErrorName
  write_refused : WriteError → ErrorName
  overflow_error operational_error : ErrorName

-- The replies of `apply_request`: of a correction its id and what it supersedes, of a query its
-- event's id and the number of memories.
pub data Reply : Type 0 where
  corrected recorded : ℕ → ℕ → Reply
  refused : ErrorName → Reply

-- A handler returns its reply, or raises; either way it leaves the connection somewhere.
pub data Attempt : Type 0 where
  done : Reply → Connection → Attempt
  failed : ErrorName → Connection → Attempt

-- `conn.rollback()`. Where it fails itself `_rollback` logs that and keeps the open transaction, which
-- is not modelled.
unfoldable pub rollback : Connection → Connection
rollback c = record { committed = c.committed; current = c.committed }

-- `conn.commit()`, then the reply; a commit may fail, and then raises.
unfoldable pub commit : Bool → Reply → Connection → Attempt
commit true r c = done r (record { committed = c.current; current = c.current })
commit false r c = failed operational_error c
