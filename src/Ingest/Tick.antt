-- ===== src/Ingest/Tick.antt =====
-- One pass of the observer: `plan_tick` of palaver/observer/scheduler.py, `ObserverDaemon.tick` of
-- palaver/observer/daemon.py, and the cursor and back-off stores of palaver/ingest/cursors.py.
-- Times are whole seconds. What an adapter discovers and what its `tail` returns, the extractor
-- and the connection's rollback are parameters; the database is one value of any type. Status
-- messages are not modelled.
use palaver.Prelude.{
  ℕ, suc, ◌+◌, ◌*◌, ◌^◌, min, ltb, ◌==◌, Bool, true, false, List, [], ◌∷◌, ◌++◌, Option, none, some,
  if◌then◌else◌, Text, text_eq, codes,
}
use palaver.Json.{Value}
use palaver.Ingest.Keyed.{Key, find_entry, put_entry, remove_entry}

-- `Event` and the parts of `SessionRef` that a tick reads.
pub record Event : Type 0 where
  pub session_key : Text
  pub kind : Text
  pub payload : Value

pub record SessionRef : Type 0 where
  pub source : Text
  pub session_key : Text
  pub path : Text

-- `SessionWork`, its cursors by their offsets.
pub record SessionWork : Type 0 where
  pub ref : SessionRef
  pub events : List Event
  pub cursor_before : ℕ
  pub cursor_after : ℕ

-- An adapter at one tick: the sessions that it discovers, and `tail`, from a path and an offset
-- to the events and the new offset.
pub record Adapter : Type 0 where
  pub discovered : List SessionRef
  pub tail : Text → ℕ → List Event × ℕ

-- `TickPlan`.
pub record TickPlan : Type 0 where
  pub scheduled : List SessionWork
  pub skipped : List SessionRef

-- `CursorStore`: the entries, and the entries of earlier versions, kept without a source.
pub record CursorStore : Type 0 where
  pub entries : List (Key × ℕ)
  pub legacy_entries : List (Key × ℕ)

-- An entry of `FailureBackoffStore`.
pub record Backoff : Type 0 where
  pub attempts : ℕ
  pub retry_at : ℕ

abbrev pub claude_code_source : Text
claude_code_source = codes "claude-code"

unfoldable pub key_of : SessionRef → Key
key_of r = (r.source, r.session_key)

-- The offset of an entry, or else of the earlier version's entry, or else 0.
unfoldable pub offset_from : Option ℕ → Option ℕ → ℕ
offset_from (some offset) legacy = offset
offset_from none (some offset) = offset
offset_from none none = 0

unfoldable pub legacy_entry : CursorStore → Key → Option ℕ
legacy_entry s k =
    if text_eq k.0 claude_code_source then find_entry ([], k.1) s.legacy_entries else none

-- `CursorStore.load` and `CursorStore.save`.
unfoldable pub load_cursor : CursorStore → Key → ℕ
load_cursor s k = offset_from (find_entry k s.entries) (legacy_entry s k)

unfoldable pub save_cursor : CursorStore → Key → ℕ → CursorStore
save_cursor s k offset = record s { entries = put_entry k offset s.entries }

unfoldable pub time_of : Option Backoff → Option ℕ
time_of none = none
time_of (some b) = some b.retry_at

unfoldable pub count_of : Option Backoff → ℕ
count_of none = 0
count_of (some b) = b.attempts

-- `FailureBackoffStore.retry_at`.
unfoldable pub retry_at : List (Key × Backoff) → Key → Option ℕ
retry_at es k = time_of (find_entry k es)

-- `previous.get("attempts", 0)`.
unfoldable pub attempts_of : List (Key × Backoff) → Key → ℕ
attempts_of es k = count_of (find_entry k es)

abbrev pub initial_failure_backoff_seconds : ℕ
initial_failure_backoff_seconds = 30

abbrev pub max_failure_backoff_seconds : ℕ
max_failure_backoff_seconds = 900

-- The exponents from which `2 ** n` is no float: the product with a float raises OverflowError.
abbrev pub float_exponent_limit : ℕ
float_exponent_limit = 1024

-- The entry that `record_failure` writes.
unfoldable pub failure_entry : ℕ → ℕ → Backoff
failure_entry previous now =
    let delay = min (initial_failure_backoff_seconds * 2 ^ previous) max_failure_backoff_seconds in
    record { attempts = suc previous; retry_at = now + delay }

-- `FailureBackoffStore.record_failure`; none where it raises.
unfoldable pub record_failure : List (Key × Backoff) → Key → ℕ → Option (List (Key × Backoff))
record_failure es k now =
    let previous = attempts_of es k in
    if ltb previous float_exponent_limit
    then some (put_entry k (failure_entry previous now) es)
    else none

-- What became of a scheduled session; at `raised` the exception leaves the tick.
pub data Verdict : Type 0 where
  deferred : Verdict
  failed : Text → Verdict
  extracted : Verdict
  raised : Verdict

-- What the observer keeps between ticks.
pub record Observer (Db : Type 0) : Type 0 where
  pub ticks : ℕ
  pub cursors : CursorStore
  pub backoff : List (Key × Backoff)
  pub db : Db

-- The outcome of `plan_tick` for one adapter's sessions.
unfoldable pub plan_refs : Adapter → CursorStore → List SessionRef → TickPlan
plan_refs adapter cursors [] = record { scheduled = []; skipped = [] }
plan_refs adapter cursors (ref ∷ refs) =
    let rest = plan_refs adapter cursors refs in
    let before = load_cursor cursors (key_of ref) in
    let result = adapter.tail (ref.path) before in
    if result.1 == before then record rest { skipped = ref ∷ rest.skipped } else record {
      scheduled =
          record { ref = ref; events = result.0; cursor_before = before; cursor_after = result.1 }
          ∷ rest.scheduled;
      skipped = rest.skipped;
    }

-- `plan_tick`.
unfoldable pub plan_tick : List Adapter → CursorStore → TickPlan
plan_tick [] cursors = record { scheduled = []; skipped = [] }
plan_tick (adapter ∷ adapters) cursors =
    let rest = plan_tick adapters cursors in
    let plan = plan_refs adapter cursors (adapter.discovered) in
    record { scheduled = plan.scheduled ++ rest.scheduled; skipped = plan.skipped ++ rest.skipped }

-- `retry_at is not None and now_epoch < retry_at`.
unfoldable pub must_wait : ℕ → List (Key × Backoff) → Key → Bool
must_wait now es k = elim (retry_at es k) [ none ↦ false | some t ↦ ltb now t ]

unfoldable pub goes_on : Verdict → Bool
goes_on raised = false
goes_on _ = true

module _ {Db : Type 0} (extractor : SessionWork → Db → Option Text × Db) (rollback : Db → Db)
    (now : ℕ) where
  -- The handler of an extraction that raised, from what `record_failure` left.
  unfoldable pub after_failure :
      Text → Db → Observer Db → Option (List (Key × Backoff)) → Observer Db × Verdict
  after_failure error db s none = (record s { db = rollback db }, raised)
  after_failure error db s (some es) = (record s { backoff = es; db = rollback db }, failed error)

  -- What follows the extraction of one session.
  unfoldable pub after_extraction :
      SessionWork → Observer Db → Option Text × Db → Observer Db × Verdict
  after_extraction work s (some error, db) =
      after_failure error db s (record_failure s.backoff (key_of work.ref) now)
  after_extraction work s (none, db) = (
    record s {
      cursors = save_cursor s.cursors (key_of work.ref) work.cursor_after;
      backoff = remove_entry (key_of work.ref) s.backoff;
      db = db;
    },
    extracted,
  )

  -- One scheduled session.
  unfoldable pub tick_work : SessionWork → Observer Db → Observer Db × Verdict
  tick_work work s =
      if must_wait now s.backoff (key_of work.ref)
      then (s, deferred)
      else after_extraction work s (extractor work s.db)

  -- The loop over the scheduled sessions, with the verdict on each session that it reached.
  unfoldable pub tick_works :
      List SessionWork → Observer Db → Observer Db × List (SessionWork × Verdict)
  tick_works [] s = (s, [])
  tick_works (work ∷ works) s =
      let (s', verdict) = tick_work work s in
      let (s'', verdicts) = tick_works works s' in
      if goes_on verdict then (s'', (work, verdict) ∷ verdicts) else (s', (work, verdict) ∷ [])

  -- `ObserverDaemon.tick`.
  unfoldable pub tick : List Adapter → Observer Db → Observer Db × List (SessionWork × Verdict)
  tick adapters s =
      tick_works (plan_tick adapters s.cursors).scheduled (record s { ticks = suc s.ticks })
