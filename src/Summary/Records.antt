-- ===== src/Summary/Records.antt =====
-- palaver/summary/claude_code.py: what the loop of `reduce_claude_events` does with the blocks of a record.
use palaver.Prelude.{
  ◌+◌, Bool, true, false, Option, none, some, List, [], ◌∷◌, ◌++◌, any, length, ltb, if◌then◌else◌,
  Text, codes, text_eq,
}
use palaver.Json.{Value, null, str, Fields, get, equals, truthy}
use palaver.Transcript.{Record, Channel, human, injected, classify_channel, blocks_of}
use palaver.Summary.Model.{
  exact, Claim, exact_claim, structural_claim, textless_claim, SummarySnapshot, with_unknown,
  max_collection_items,
}
use palaver.Summary.Recent.{append_recent, fold_recent_result}
use palaver.Summary.Collections.{Pending, insert, pop, open_count}
use palaver.Summary.ClaudeCode.{
  Progress, blocks, text_blocks, tool_result_text, register_background_task, task_snapshot,
  asked_claims, tool_activity, string_id, id_or_none,
}

unfoldable pub answered_by : Option Text → Pending → Pending
unfolding pop
answered_by none pending = pending
answered_by (some t) pending = pop t pending

-- `pending.pop(tool_id, None)` if the identifier is a string.
unfoldable pub answer_pending : Value → Pending → Pending
unfolding answered_by string_id
answer_pending id pending = answered_by (string_id id) pending

-- The claim on one tool result.
result_claim : Bool → Text → Value → Claim
unfolding exact_claim textless_claim
result_claim false text id = textless_claim "tool_result" id
result_claim true [] id = exact_claim (str (codes "Tool failed this turn")) "tool_result" id
result_claim true (c ∷ s) id = exact_claim (str (c ∷ s)) "tool_result" id

-- The start of a background task that a `user` record reports, by its identifier.
unfoldable pub apply_started : Progress → Option Text → Progress
unfolding register_background_task
apply_started p none = p
apply_started p (some id) = record p { snapshot = register_background_task p.snapshot id }

module _ (str_of : Value → Text) where
  -- One tool result of a `user` record.
  unfoldable pub apply_result : Progress → Fields → Progress
  unfolding answer_pending result_claim fold_recent_result tool_result_text structural_claim
      string_id
  apply_result p block =
      let id = get block "tool_use_id" in
      let text = tool_result_text str_of block in
      let failed = truthy (get block "is_error") in
      record p {
        pending = answer_pending id p.pending;
        snapshot = record p.snapshot {
          command_result = result_claim failed text id;
          recent =
              fold_recent_result p.snapshot.recent (str text)
                (if failed then "tool_error" else "tool_result") (string_id id);
          turn = structural_claim (codes "Agent turn open") "tool_result" null;
        };
      }

  unfoldable pub apply_results : Progress → List Fields → Progress
  unfolding apply_result
  apply_results p [] = p
  apply_results p (b ∷ bs) = apply_results (apply_result p b) bs

  -- What a human says.
  unfoldable pub apply_human_message : SummarySnapshot → Record → SummarySnapshot
  unfolding exact_claim textless_claim structural_claim append_recent text_blocks
  apply_human_message s r =
      let text = text_blocks str_of r in
      record s {
        command_result = textless_claim "human_message" null;
        request = exact_claim (str text) "human_message" null;
        recent =
            append_recent s.recent (str (codes "Human: " ++ text)) exact (codes "human_message")
              null;
        turn = structural_claim (codes "Agent turn open") "human_message" null;
      }

  -- A `user` record by its tool results and its channel.
  unfoldable pub apply_user_by : Progress → Record → List Fields → Channel → Progress
  unfolding apply_results apply_human_message
  apply_user_by p r (b ∷ bs) c = apply_results p (b ∷ bs)
  apply_user_by p r [] injected = p
  apply_user_by p r [] human = record p { snapshot = apply_human_message p.snapshot r }

  -- A `user` record, after the background task that it may start.
  unfoldable pub apply_user : Progress → Record → Progress
  unfolding apply_user_by blocks_of blocks
  apply_user p r =
      apply_user_by p r (blocks_of (blocks r) "tool_result") (classify_channel str_of r)

-- The claims of a call of `AskUserQuestion`, when they could be read.
unfoldable pub apply_asked : Progress → Option (Text × List Claim) → Progress
unfolding open_count insert
apply_asked p none = record p { questions_unknown = true }
apply_asked p (some (id, claims)) =
    if ltb max_collection_items (open_count p.pending + length claims)
    then record p { questions_unknown = true }
    else record p { pending = insert id claims p.pending }

-- A call of `AskUserQuestion`.
unfoldable pub apply_question : Progress → Fields → Progress
unfolding asked_claims apply_asked
apply_question p block = apply_asked p (asked_claims block)

-- What the tool is called for, by its name.
unfoldable pub apply_named : Progress → Text → Fields → Progress
unfolding apply_question task_snapshot
apply_named p name block =
    if text_eq name (codes "TodoWrite")
    then record p { snapshot = record p.snapshot { tasks = task_snapshot (get block "input") } }
    else if text_eq name (codes "AskUserQuestion")
    then apply_question p block
    else p

-- The turn after the calls of an `assistant` record.
unfoldable pub turn_of_calls : List Fields → Claim
unfolding structural_claim
turn_of_calls calls =
    if any (λ block. equals (get block "name") "AskUserQuestion") calls
    then structural_claim (codes "Awaiting explicit answer") "tool_use" null
    else structural_claim (codes "Agent turn open") "tool_use" null

-- The turn after a record without a call: it returns with a text and no background task.
unfoldable pub apply_final : SummarySnapshot → Text → SummarySnapshot
unfolding structural_claim
apply_final s [] = s
apply_final s (c ∷ text) = elim s.background_tasks [
  | [] ↦ record s {
    turn = structural_claim (codes "Turn returned to human") "assistant_final" null;
  }
  | _ ∷ _ ↦ s
]

-- What the agent says.
unfoldable pub record_text : SummarySnapshot → Text → SummarySnapshot
unfolding append_recent
record_text s [] = s
record_text s (c ∷ text) = record s {
  recent =
      append_recent s.recent (str (codes "Agent: " ++ c ∷ text)) exact (codes "agent_message") null;
}

module _ (dumps : Fields → Text) where
  -- The activity of one tool call.
  unfoldable pub record_call : SummarySnapshot → Text → Fields → SummarySnapshot
  unfolding append_recent tool_activity string_id id_or_none
  record_call s name block = record s {
    recent =
        append_recent s.recent (str (tool_activity dumps name (get block "input"))) exact
          (codes "tool_use") (id_or_none (string_id (get block "id")));
  }

  -- One tool call by its name.
  unfoldable pub apply_call_by : Progress → Fields → Value → Progress
  unfolding apply_named record_call with_unknown
  apply_call_by p block (str (c ∷ name)) =
      apply_named (record p { snapshot = record_call p.snapshot (c ∷ name) block }) (c ∷ name) block
  apply_call_by p block _ = record p {
    snapshot = with_unknown p.snapshot (codes "Claude tool call has no supported name");
  }

  -- One tool call of an `assistant` record.
  unfoldable pub apply_call : Progress → Fields → Progress
  unfolding apply_call_by
  apply_call p block = apply_call_by p block (get block "name")

  unfoldable pub apply_calls : Progress → List Fields → Progress
  unfolding apply_call
  apply_calls p [] = p
  apply_calls p (b ∷ bs) = apply_calls (apply_call p b) bs
