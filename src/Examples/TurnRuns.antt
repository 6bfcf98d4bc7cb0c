-- ===== src/Examples/TurnRuns.antt =====
-- palaver/observer/turn_boundary.py, run on a transcript of a few records.
use palaver.Prelude.{
  ℕ, true, false, List, [], ◌∷◌, ◌++◌, Option, none, some, ◌≡◌, ◌≢◌, ◌↔◌, ◌<◌, refl, codes, Text,
  reverse, arith,
}
use palaver.Json.{Value, str, arr, obj, nil, cons, Fields, end, field}
use palaver.Transcript.{Record}
use palaver.Signals.{yea, nay, unsure}
use palaver.TurnBoundary.Walk.{
  assistant_final, human_message_pending, TurnBoundary, SessionObservation, settle, is_busy,
  is_human_turn,
}
use palaver.TurnBoundary.Corroboration.{corroborate}
use palaver.TurnBoundary.Reading.{
  derive_signals, derive_signals_from_events, Kind, message, turn_boundary, error_kind,
}
use palaver.TurnBoundary.Settling.{settle_iff, SettledAt}
use palaver.TurnBoundary.Injection.{injection_transparent, IsInjection, LeavesTasks}
use palaver.TurnBoundary.Window.{window_local}
use palaver.TurnBoundary.Evidence.{disagreement_sound, events_local, HookAt}

-- No value of the records below is printed by `str()`.
abbrev no_text : Value → Text
no_text v = []

abbrev user_says : Text → Record
user_says t =
    field (codes "type") (str (codes "user"))
      (field (codes "message") (obj (field (codes "content") (str t) end)) end)

abbrev answer : Record
answer = field (codes "type") (str (codes "assistant")) (
    field (codes "message")
      (obj (
        field (codes "content")
          (arr (cons (obj (field (codes "type") (str (codes "text")) end)) nil)) end))
      end)

abbrev stop_hook : Record
stop_hook =
    field (codes "type") (str (codes "system"))
      (field (codes "subtype") (str (codes "stop_hook_summary")) end)

abbrev request : Record
request = user_says (codes "please release")

abbrev reminder : Record
reminder = user_says (codes "<system-reminder>be brief")

abbrev transcript : List (Option Record)
transcript = some request ∷ some answer ∷ []

transcript_settles : settle no_text transcript ≡ some (yea, assistant_final, some 1)
unfolding settle palaver.TurnBoundary.Walk.judge palaver.Json.member palaver.Json.get
    palaver.Prelude.text_eq palaver.TurnBoundary.Walk.blocks_of_type
    palaver.Transcript.message_content palaver.Transcript.blocks_of palaver.Json.dicts
    palaver.Transcript.active_background_task_ids palaver.Transcript.background_task_notification
    palaver.Transcript.background_task_id
transcript_settles = refl

settle_iff_example :
    (settle no_text transcript ≡ some (yea, assistant_final, some 1))
    ↔ SettledAt no_text (is_busy no_text transcript) (reverse transcript) yea assistant_final 1
settle_iff_example = settle_iff no_text transcript yea assistant_final 1

reminder-IsInjection : IsInjection no_text reminder
unfolding palaver.Json.equals palaver.Json.get palaver.Prelude.text_eq
    palaver.TurnBoundary.Walk.blocks_of_type palaver.Transcript.message_content
    palaver.Transcript.classify_channel palaver.Json.truthy palaver.Prelude.starts_with
reminder-IsInjection = (refl, refl, refl)

reminder-LeavesTasks : LeavesTasks reminder
unfolding palaver.Transcript.background_task_id palaver.Json.get palaver.Prelude.text_eq
    palaver.Transcript.background_task_notification palaver.Json.equals
reminder-LeavesTasks = (refl, refl)

injection_transparent_example :
    derive_signals no_text (transcript ++ some reminder ∷ []) (some 70) 100 60
    ≡ derive_signals no_text transcript (some 70) 100 60
injection_transparent_example =
    injection_transparent no_text transcript reminder (some 70) 100 60 reminder-IsInjection
      reminder-LeavesTasks

request_is_human : is_human_turn no_text request ≡ true
unfolding is_human_turn palaver.Json.equals palaver.Json.get palaver.Prelude.text_eq
    palaver.TurnBoundary.Walk.blocks_of_type palaver.Transcript.message_content
    palaver.Transcript.classify_channel palaver.Json.truthy palaver.Prelude.starts_with
request_is_human = refl

abbrev observed : SessionObservation
observed = record {
  signals = record {
    source_readable = yea;
    signal_records_parsed = yea;
    unresolved_tool_error = nay;
    agent_turn_ended = yea;
  };
  boundary = record { ended = yea; basis = assistant_final; corroboration = unsure };
}

abbrev after_request : List (Option Record)
after_request = some answer ∷ []

observed_after_hole :
    derive_signals no_text (none ∷ some request ∷ after_request) none 100 60 ≡ some observed
unfolding corroborate derive_signals is_busy is_human_turn palaver.Json.dicts palaver.Json.equals
    palaver.Json.equals_any palaver.Json.get palaver.Json.hashable palaver.Json.lookup
    palaver.Json.member palaver.Json.truthy palaver.Prelude.contains palaver.Prelude.find
    palaver.Prelude.is_blank palaver.Prelude.starts_with palaver.Prelude.text_eq
    palaver.Transcript.active_background_task_ids palaver.Transcript.background_task_id
    palaver.Transcript.background_task_notification palaver.Transcript.blocks_of
    palaver.Transcript.classify_channel palaver.Transcript.message_content
    palaver.Transcript.message_text palaver.TurnBoundary.Reading.any_error
    palaver.TurnBoundary.Reading.any_hole palaver.TurnBoundary.Reading.derive_turn_boundary
    palaver.TurnBoundary.Reading.tool_error palaver.TurnBoundary.Reading.window_start
    palaver.TurnBoundary.Walk.any_blocking palaver.TurnBoundary.Walk.blocks_of_type
    palaver.TurnBoundary.Walk.judge palaver.TurnBoundary.Walk.walk settle
observed_after_hole = refl

observed_alone : derive_signals no_text (some request ∷ after_request) none 100 60 ≡ some observed
unfolding corroborate derive_signals is_busy is_human_turn palaver.Json.dicts palaver.Json.equals
    palaver.Json.equals_any palaver.Json.get palaver.Json.hashable palaver.Json.lookup
    palaver.Json.member palaver.Json.truthy palaver.Prelude.contains palaver.Prelude.find
    palaver.Prelude.is_blank palaver.Prelude.starts_with palaver.Prelude.text_eq
    palaver.Transcript.active_background_task_ids palaver.Transcript.background_task_id
    palaver.Transcript.background_task_notification palaver.Transcript.blocks_of
    palaver.Transcript.classify_channel palaver.Transcript.message_content
    palaver.Transcript.message_text palaver.TurnBoundary.Reading.any_error
    palaver.TurnBoundary.Reading.any_hole palaver.TurnBoundary.Reading.derive_turn_boundary
    palaver.TurnBoundary.Reading.tool_error palaver.TurnBoundary.Reading.window_start
    palaver.TurnBoundary.Walk.any_blocking palaver.TurnBoundary.Walk.blocks_of_type
    palaver.TurnBoundary.Walk.judge palaver.TurnBoundary.Walk.walk settle
observed_alone = refl

same_tasks :
    is_busy no_text (none ∷ some request ∷ after_request)
    ≡ is_busy no_text (some request ∷ after_request)
unfolding is_busy palaver.Transcript.active_background_task_ids
same_tasks = refl

window_local_example : observed.signals ≡ observed.signals
window_local_example =
    window_local no_text request request_is_human (none ∷ []) [] after_request none 100 60
      same_tasks observed_after_hole observed_alone

abbrev hooked : List (Option Record)
hooked = some request ∷ some stop_hook ∷ []

hook_disagrees : corroborate nay hooked (some 0) none 100 60 ≡ some nay
unfolding corroborate palaver.Json.equals palaver.Json.get palaver.Prelude.text_eq
    palaver.Json.member
hook_disagrees = refl

disagreement_sound_example :
    (nay ≡ nay) × ((i : ℕ) × (h : ℕ) × (some 0 ≡ some i) × (i < h) × HookAt hooked 0 h)
disagreement_sound_example = disagreement_sound nay hooked (some 0) none 100 60 hook_disagrees

events_local_example :
    derive_signals_from_events (error_kind ∷ message ∷ turn_boundary ∷ message ∷ []) yea
    ≡ derive_signals_from_events (turn_boundary ∷ message ∷ []) yea
events_local_example = events_local (error_kind ∷ message ∷ []) (message ∷ []) yea
