-- ===== src/TurnBoundary/Reading.antt =====
-- The signal window and the Phase 1 reading of palaver/observer/turn_boundary.py, from decoded
-- records and from adapter events.
use palaver.Prelude.{
  ℕ, ltb, Bool, true, false, Option, none, some, List, [], ◌∷◌, reverse, map, length, drop,
  if◌then◌else◌, Text,
}
use palaver.Json.{Value, Fields, get, truthy}
use palaver.Signals.{Tri, yea, nay, unsure}
use palaver.Transcript.{Record}
use palaver.TurnBoundary.Walk.{
  ◌>>=◌, TurnBoundary, SessionObservation, Basis, no_conversational_record, source_unreadable,
  event_turn_boundary, event_message_pending, blocks_of_type, is_nonempty, is_human_turn, settle,
}
use palaver.TurnBoundary.Corroboration.{corroborate}

-- Whether any record is an undecodable line.
unfoldable pub any_hole : List (Option Record) → Bool
any_hole [] = false
any_hole (none ∷ rs) = true
any_hole (some r ∷ rs) = any_hole rs

-- `any(block.get("is_error") for block in results)`.
unfoldable pub any_error : List Fields → Bool
any_error [] = false
any_error (b ∷ bs) = if truthy (get b "is_error") then true else any_error bs

-- `_unresolved_tool_error`, over the records newest first; the index of the first of them is the
-- length of what follows it.
unfoldable pub tool_error : ℕ → List (Option Record) → Tri
unfolding any_error
tool_error window_start [] = nay
tool_error window_start (r ∷ older) =
    let rest = tool_error window_start older in
    if ltb (length older) window_start then nay else elim r [
      | none ↦ unsure
      | some record' ↦
          let results = blocks_of_type record' "tool_result" in
          if is_nonempty results then (if any_error results then yea else nay) else rest
    ]

module _ (str_of : Value → Text) where
  -- `_window_start`, over the records newest first.
  unfoldable pub window_start : List (Option Record) → ℕ
  window_start [] = 0
  window_start (none ∷ older) = length older
  window_start (some r ∷ older) =
      let rest = window_start older in if is_human_turn str_of r then length older else rest

  -- `derive_turn_boundary`.
  unfoldable pub derive_turn_boundary :
      List (Option Record) → Option ℕ → ℕ → ℕ → Option TurnBoundary
  derive_turn_boundary records mtime now within = do
    (ended, basis, index) ← settle str_of records
    agreement ← corroborate ended records index mtime now within
    some (record { ended = ended; basis = basis; corroboration = agreement })

  -- `derive_signals`.
  unfoldable pub derive_signals :
      List (Option Record) → Option ℕ → ℕ → ℕ → Option SessionObservation
  derive_signals records mtime now within = do
    let start = window_start (reverse records)
    let parsed = if any_hole (drop start records) then nay else yea
    boundary ← derive_turn_boundary records mtime now within
    some (record {
      signals = record {
        source_readable = yea;
        signal_records_parsed = parsed;
        unresolved_tool_error = tool_error start (reverse records);
        agent_turn_ended = boundary.ended;
      };
      boundary = boundary;
    })

-- The event kinds that `derive_signals_from_events` tells apart.
pub data Kind : Type 0 where
  message turn_boundary error_kind other : Kind

-- Its two walks, over the kinds newest first.
unfoldable pub event_boundary : List Kind → Tri × Basis
event_boundary [] = (unsure, no_conversational_record)
event_boundary (turn_boundary ∷ ks) = (yea, event_turn_boundary)
event_boundary (message ∷ ks) = (nay, event_message_pending)
event_boundary (k ∷ ks) = event_boundary ks

unfoldable pub event_error : List Kind → Tri
event_error [] = nay
event_error (turn_boundary ∷ ks) = nay
event_error (error_kind ∷ ks) = yea
event_error (k ∷ ks) = event_error ks

-- `derive_signals_from_events`.
unfoldable pub derive_signals_from_events : List Kind → Tri → SessionObservation
derive_signals_from_events kinds parsed =
    let (ended, basis) = event_boundary (reverse kinds) in
    record {
      signals = record {
        source_readable = yea;
        signal_records_parsed = parsed;
        unresolved_tool_error = if is_nonempty kinds then event_error (reverse kinds) else unsure;
        agent_turn_ended = ended;
      };
      boundary = record { ended = ended; basis = basis; corroboration = unsure };
    }

-- `observe_session`: what the reads give, or `none` for the `OSError` of a store that is missing or
-- unreadable. The decoding of each line is `json.loads`, an argument.
unfoldable pub observe_session :
    {Line : Type 0}
    → (Value → Text)
    → (Line → Option Record)
    → Option (List Line × ℕ)
    → ℕ
    → ℕ
    → Option SessionObservation
observe_session str_of decode none now within = some (record {
  signals = record {
    source_readable = nay;
    signal_records_parsed = unsure;
    unresolved_tool_error = unsure;
    agent_turn_ended = unsure;
  };
  boundary = record { ended = unsure; basis = source_unreadable; corroboration = unsure };
})
observe_session str_of decode (some (lines, mtime)) now within =
    derive_signals str_of (map decode lines) (some mtime) now within
