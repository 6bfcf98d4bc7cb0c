-- ===== src/Summary/Reduce.antt =====
-- palaver/summary/claude_code.py: the loop of `reduce_claude_events`, one event after the other.
use palaver.Prelude.{
  Bool, true, false, Option, none, some, List, [], ◌∷◌, if◌then◌else◌, Text, codes, text_eq,
}
use palaver.Json.{Value, null, obj, Fields, get, equals, member}
use palaver.Transcript.{Record, background_task_id, blocks_of}
use palaver.Summary.Model.{
  exact, is_unknown, Claim, CollectionClaim, textless_claim, SummarySnapshot, new_snapshot,
  with_unknown, unknown_collection, collection,
}
use palaver.Summary.Collections.{Pending, flatten, pending_questions}
use palaver.Summary.Records.{
  apply_started, apply_user, apply_calls, turn_of_calls, apply_final, record_text,
}
use palaver.Summary.ClaudeCode.{
  Event, Progress, blocks, text_blocks, apply_background_notification, compacted,
}

module _ (dumps : Fields → Text) where
  -- An `assistant` record: its text and its tool calls.
  unfoldable pub apply_assistant : Progress → Text → List Fields → Progress
  unfolding apply_calls turn_of_calls apply_final record_text
  apply_assistant p text [] = record p { snapshot = apply_final (record_text p.snapshot text) text }
  apply_assistant p text (b ∷ bs) =
      let said : Progress = record p { snapshot = record_text p.snapshot text } in
      let called = apply_calls dumps said (b ∷ bs) in
      record called { snapshot = record called.snapshot { turn = turn_of_calls (b ∷ bs) } }

module _ (str_of : Value → Text) (dumps : Fields → Text) where
  -- A record by whether its `type` is known and which it is.
  unfoldable pub apply_typed : Progress → Record → Option Bool → Bool → Option Progress
  unfolding apply_started apply_user apply_assistant text_blocks blocks blocks_of
  apply_typed p r none is_user = none
  apply_typed p r (some false) is_user = some p
  apply_typed p r (some true) true =
      some (apply_user str_of (apply_started p (background_task_id r)) r)
  apply_typed p r (some true) false =
      some (apply_assistant dumps p (text_blocks str_of r) (blocks_of (blocks r) "tool_use"))

  -- A record that is no compaction and no queue operation; `none` is the `TypeError` of a `type`
  -- that is a list or a dictionary.
  unfoldable pub apply_message : Progress → Record → Option Progress
  unfolding member apply_typed
  apply_message p r =
      apply_typed p r (member (get r "type") ("user" ∷ "assistant" ∷ []))
        (equals (get r "type") "user")

  -- One round of the loop, by the event's kind and payload.
  unfoldable pub apply_payload : Progress → Text → Value → Option Progress
  unfolding compacted apply_background_notification apply_message with_unknown
  apply_payload p kind (obj r) =
      if text_eq kind (codes "compaction")
      then some (record p { snapshot = compacted p.snapshot })
      else if equals (get r "type") "queue-operation"
      then some (record p { snapshot = apply_background_notification p.snapshot r })
      else apply_message p r
  apply_payload p kind _ = some (record p {
    snapshot = with_unknown p.snapshot (codes "Claude event payload is unsupported");
  })

  unfoldable pub apply_event : Progress → Event → Option Progress
  unfolding apply_payload
  apply_event p e = apply_payload p e.kind e.payload

  unfoldable pub apply_events : Progress → List Event → Option Progress
  unfolding apply_event
  apply_events p [] = some p
  apply_events p (e ∷ es) = elim (apply_event p e) [ none ↦ none | some q ↦ apply_events q es ]

-- The snapshot that the loop starts from.
unfoldable pub initial_snapshot : Text → Option SummarySnapshot → SummarySnapshot
unfolding new_snapshot textless_claim
initial_snapshot key none = record (new_snapshot (codes "claude-code") key) {
  command_result = textless_claim "event_stream" null;
}
initial_snapshot key (some s) = s

unfoldable pub start : SummarySnapshot → Progress
unfolding pending_questions is_unknown
start s = record {
  snapshot = s;
  pending = pending_questions s;
  questions_unknown = is_unknown s.questions.provenance;
}

-- The last reason, which is recorded again.
unfoldable pub last_reason : List Text → Text
last_reason [] = codes "unknown source"
last_reason (why ∷ []) = why
last_reason (_ ∷ why ∷ later) = last_reason (why ∷ later)

-- The questions that the snapshot lists in the end.
unfoldable pub listed_questions : Pending → Bool → CollectionClaim Claim
unfolding unknown_collection collection flatten
listed_questions pending true =
    unknown_collection (codes "AskUserQuestion structure is unsupported")
listed_questions pending false = collection (flatten pending) exact "AskUserQuestion"

-- What follows the loop.
unfoldable pub finish : Progress → SummarySnapshot
unfolding with_unknown last_reason listed_questions is_unknown
finish p =
    let closed : SummarySnapshot = record p.snapshot {
      questions = listed_questions p.pending p.questions_unknown;
    } in
    if is_unknown closed.source_integrity
    then with_unknown closed (last_reason closed.unknown_reasons)
    else closed

unfoldable pub finished : Option Progress → Option SummarySnapshot
unfolding finish
finished none = none
finished (some p) = some (finish p)

-- `reduce_claude_events`.
unfoldable pub reduce_claude_events :
    (Value → Text)
    → (Fields → Text)
    → Text
    → List Event
    → Option SummarySnapshot
    → Option SummarySnapshot
unfolding apply_events start initial_snapshot finished
reduce_claude_events str_of dumps key events initial =
    finished (apply_events str_of dumps (start (initial_snapshot key initial)) events)
