-- ===== src/Examples/StatusRuns.antt =====
-- The rules of palaver/observer/signals, run on a session whose turn has ended.
use palaver.Prelude.{none, some, ◌≡◌, ◌↔◌, refl, All, codes, Text, is_blank}
use palaver.Json.{str, obj, Fields, end, field, get}
use palaver.Signals.{
  yea, nay, unsure, working, blocked, Signals, Extraction, read, derive_status,
  derive_status_with_provenance, SourceCoverage, Liveness,
}
use palaver.Signals.Payload.{names_status, payload_text, extraction_from_model_payload, ok}
use palaver.Signals.Accepted.{IsFree, keys, Says, extraction_iff}

abbrev ended_turn : Signals
ended_turn = record {
  source_readable = yea;
  signal_records_parsed = yea;
  unresolved_tool_error = nay;
  agent_turn_ended = yea;
}

abbrev running_turn : Signals
running_turn = record {
  source_readable = yea;
  signal_records_parsed = yea;
  unresolved_tool_error = unsure;
  agent_turn_ended = nay;
}

abbrev blocked_extraction : Extraction
blocked_extraction = record {
  current_task = none;
  remaining_work = some (codes "release");
  blockers_now = some (codes "no token");
  open_questions = none;
}

ended_turn_is_blocked : derive_status ended_turn (some blocked_extraction) ≡ blocked
unfolding derive_status is_blank
ended_turn_is_blocked = refl

running_turn_is_working : derive_status running_turn (some blocked_extraction) ≡ working
unfolding derive_status
running_turn_is_working = refl

-- A source that cannot be read: the other signals do not matter.
abbrev unreadable : Signals
unreadable = record {
  source_readable = unsure;
  signal_records_parsed = yea;
  unresolved_tool_error = nay;
  agent_turn_ended = yea;
}

abbrev unreadable_and_silent : Signals
unreadable_and_silent = record {
  source_readable = unsure;
  signal_records_parsed = nay;
  unresolved_tool_error = unsure;
  agent_turn_ended = unsure;
}

same_consulted :
    All
      (λ n. read unreadable n ≡ read unreadable_and_silent n)
      (derive_status_with_provenance unreadable none).consulted
unfolding derive_status_with_provenance read
same_consulted = (refl, tt)

abbrev full_coverage : SourceCoverage
full_coverage name = some 100

abbrev stopped : Liveness
stopped = record { process_alive = yea; cursor_advanced_recently = nay }

-- A lower-casing that is right for the keys below.
abbrev keep : Text → Text
keep t = t

abbrev payload : Fields
payload =
    field (codes "remaining_work") (str (codes "release"))
      (field (codes "blockers_now") (str (codes "no token")) end)

extraction_iff_example :
    (extraction_from_model_payload keep (obj payload) ≡ ok blocked_extraction) ↔ (
      All (IsFree keep) (keys payload)
      × Says (get payload "current_task") blocked_extraction.current_task
      × Says (get payload "remaining_work") blocked_extraction.remaining_work
      × Says (get payload "blockers_now") blocked_extraction.blockers_now
      × Says (get payload "open_questions") blocked_extraction.open_questions)
extraction_iff_example = extraction_iff keep payload blocked_extraction

payload_accepted : extraction_from_model_payload keep (obj payload) ≡ ok blocked_extraction
unfolding extraction_from_model_payload names_status payload_text get
payload_accepted = refl
