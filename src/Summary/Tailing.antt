-- ===== src/Summary/Tailing.antt =====
-- palaver/ingest/adapters/claude_code.py: the events of a session's file; and the part of
-- palaver/ui/companion_update.py that tails it and feeds the panel's reducer. `loads` is `json.loads`
-- of a line, with `none` for a decoding error.
use palaver.Prelude.{
  ℕ, suc, String, true, false, Option, none, some, List, [], ◌∷◌, ◌++◌, ltb, if◌then◌else◌, Text,
  codes,
}
use palaver.Json.{
  Value, str, arr, obj, Fields, end, field, get, equals, truthy, dicts, hashable, member,
}
use palaver.Transcript.{Record, message_content, message_record_types, blocks_of}
use palaver.Ingest.Tail.{read_complete_records}
use palaver.Summary.ClaudeCode.{Event}
use palaver.Summary.CodexReduce.{Runtime}
use palaver.Summary.Reducer.{SummaryReducer, feed}

-- The blocks that report an error.
error_blocks : List Fields → List Fields
error_blocks [] = []
error_blocks (b ∷ bs) =
    let rest = error_blocks bs in if truthy (get b "is_error") then b ∷ rest else rest

-- `_tool_result_errors`.
unfoldable pub tool_result_errors : Record → List Fields
unfolding message_content blocks_of error_blocks
tool_result_errors r = elim (message_content r) [
  | arr content ↦ error_blocks (blocks_of (dicts content) "tool_result")
  | _ ↦ []
]

-- The subtypes that are kinds of their own.
kinds : List String
kinds =
    "stop_hook_summary" ∷ "turn_duration" ∷ "scheduled_task_fire" ∷ "informational" ∷ "away_summary"
    ∷ "agents_killed" ∷ "bridge_status" ∷ "local_command" ∷ []

own_kind : Value → List String → Text
unfolding equals
own_kind v [] = codes "system"
own_kind v (k ∷ ks) = let rest = own_kind v ks in if equals v k then codes k else rest

-- `SYSTEM_SUBTYPE_KINDS.get(subtype, "system")`; `none` is the `TypeError`.
system_kind : Value → Option Text
unfolding own_kind kinds
system_kind v =
    if hashable v
    then some (if equals v "compact_boundary" then codes "compaction" else own_kind v kinds)
    else none

-- The kind of a record of another type.
other_kind : Value → Text
other_kind (str (c ∷ s)) = c ∷ s
other_kind _ = codes "unknown"

-- `_parse_record`.
unfoldable pub parse_record : (Text → Option Value) → Text → Option Record
parse_record loads raw = elim (loads raw) [ some (obj r) ↦ some r | _ ↦ none ]

-- A line's events before those of the further lines.
unfoldable pub after_line :
    Option (Option (List Event)) → Option (List Event × ℕ) → Option (List Event × ℕ)
after_line none none = none
after_line none (some (es, n)) = some (es, suc n)
after_line (some none) later = none
after_line (some (some found)) none = none
after_line (some (some found)) (some (es, n)) = some (found ++ es, n)

module _ (key : Text) where
  one_event : Text → Value → Event
  one_event kind payload = record { session_key = key; kind = kind; payload = payload }

  -- The events of an error block each.
  error_events : Record → List Fields → List Event
  unfolding one_event
  error_events r [] = []
  error_events r (b ∷ bs) =
      one_event (codes "error")
        (obj (field (codes "record") (obj r) (field (codes "tool_result") (obj b) end)))
      ∷ error_events r bs

  -- A record that is no message.
  other_events : Record → Option (List Event)
  unfolding one_event system_kind other_kind
  other_events r =
      if equals (get r "type") "system"
      then elim (system_kind (get r "subtype")) [
        | none ↦ none
        | some kind ↦ some (one_event kind (obj r) ∷ [])
      ]
      else some (one_event (other_kind (get r "type")) (obj r) ∷ [])

  -- `_events_for_record`; `none` is a `TypeError`.
  unfoldable pub events_for_record : Record → Option (List Event)
  unfolding one_event error_events other_events tool_result_errors
  events_for_record r = elim (member (get r "type") message_record_types) [
    | none ↦ none
    | some true ↦ some (
        one_event (codes "message") (obj r)
        ∷ (if equals (get r "type") "user" then error_events r (tool_result_errors r) else []))
    | some false ↦ other_events r
  ]

  module _ (loads : Text → Option Value) where
    -- The events of a line: `none` if it is malformed.
    unfoldable pub line_events : Text → Option (Option (List Event))
    unfolding parse_record events_for_record
    line_events raw = elim (parse_record loads raw) [
      | none ↦ none
      | some r ↦ some (events_for_record r)
    ]

    -- The loop of `tail`: the events and the malformed records.
    unfoldable pub tail_records : List Text → Option (List Event × ℕ)
    unfolding line_events after_line
    tail_records [] = some ([], 0)
    tail_records (raw ∷ rest) = after_line (line_events raw) (tail_records rest)

-- `TailResult`.
pub record TailResult : Type 0 where
  pub events : List Event
  pub offset : ℕ
  pub malformed_records : ℕ

-- `ClaudeCodeAdapter.tail`.
unfoldable pub tail : Text → (Text → Option Value) → Text → ℕ → Option TailResult
unfolding tail_records read_complete_records
tail key loads file start =
    let (records, new_offset) = read_complete_records file start in
    elim (tail_records key loads records) [
      | none ↦ none
      | some (es, n) ↦ some (record { events = es; offset = new_offset; malformed_records = n })
    ]

-- The reducer and the cursor of `_Runtime`.
pub record Followed : Type 0 where
  pub reducer : SummaryReducer
  pub offset : ℕ

unfoldable pub with_offset : ℕ → Option SummaryReducer → Option Followed
with_offset n none = none
with_offset n (some r) = some (record { reducer = r; offset = n })

-- What `refresh_once` does for a session that it has joined: tail the file, and feed the reducer,
-- which starts over if the offset has gone back.
unfoldable pub refresh :
    Runtime → (Text → ℕ → Option TailResult) → Followed → Text → Option Followed
unfolding feed with_offset
refresh run_time adapter_tail f file = elim (adapter_tail file f.offset) [
  | none ↦ none
  | some t ↦ with_offset t.offset (
      feed run_time f.reducer (record {
        events = t.events;
        malformed = t.malformed_records;
        replaces = ltb t.offset f.offset;
      }))
]

unfoldable pub refresh_all :
    Runtime → (Text → ℕ → Option TailResult) → Followed → List Text → Option Followed
unfolding refresh
refresh_all run_time adapter_tail f [] = some f
refresh_all run_time adapter_tail f (file ∷ files) = elim (refresh run_time adapter_tail f file) [
  | none ↦ none
  | some g ↦ refresh_all run_time adapter_tail g files
]
