-- ===== src/Summary/Codex.antt =====
-- palaver/summary/codex.py: one event's effect on the snapshot. `loads` is `json.loads` of a text,
-- with `none` for a decoding error, and `dumps_value` is `json.dumps(_, sort_keys=True)`.
use palaver.Prelude.{
  zero, suc, ◌+◌, Bool, true, false, not, ◌&&◌, Option, none, some, List, [], ◌∷◌, ◌++◌, any,
  length, ltb, ◌==◌, if◌then◌else◌, Text, codes, text_eq,
}
use palaver.Json.{Value, null, bool, int, neg, str, Fields, get, equals, truthy}
use palaver.Summary.Model.{
  exact, structural, unknown, is_unknown, Claim, exact_claim, structural_claim, textless_claim,
  SummarySnapshot, append_unknown_reason, decimal, TaskItem, CollectionClaim, max_collection_items,
}
use palaver.Summary.Recent.{append_recent, fold_recent_result}
use palaver.Summary.Collections.{task_collection, question_claims, insert, open_count}
use palaver.Summary.ClaudeCode.{Progress, asked_with, string_id}
use palaver.Summary.Records.{answer_pending}

-- `_base_tool_name`.
unfoldable pub base_tool_name : Text → Text
base_tool_name [] = []
base_tool_name (c ∷ s) = if any (λ d. d == b'.') (c ∷ s) then after_dot (c ∷ s) else c ∷ s
  where
    after_dot : Text → Text
    after_dot [] = []
    after_dot (c ∷ s) =
        let rest = after_dot s in
        if any (λ d. d == b'.') s then rest else if c == b'.' then s else c ∷ s

-- `_task_snapshot`.
unfoldable pub plan_snapshot : Option Fields → CollectionClaim TaskItem
unfolding task_collection
plan_snapshot arguments =
    let plan : Value = elim arguments [ none ↦ null | some fs ↦ get fs "plan" ] in
    task_collection plan "update_plan" "step" (codes "update_plan arguments are unsupported")

-- `_question_claims`; `none` where the code's identifier or its claims are `None`.
unfoldable pub requested_claims : Value → Option Fields → Option (Text × List Claim)
unfolding question_claims asked_with
requested_claims (str (c ∷ id)) (some arguments) =
    asked_with (c ∷ id) (question_claims (get arguments "questions") "request_user_input" (c ∷ id))
requested_claims _ _ = none

-- `isinstance(code, int) and not isinstance(code, bool) and code != 0`, as the digits of the code.
nonzero_code : Value → Option Text
unfolding decimal
nonzero_code (int zero) = none
nonzero_code (int (suc n)) = some (decimal (suc n))
nonzero_code (neg n) = some (b'-' ∷ decimal (suc n))
nonzero_code _ = none

-- `_command_failure`.
unfoldable pub command_failure : Fields → Option Claim
unfolding nonzero_code structural_claim
command_failure payload =
    if not (equals (get payload "type") "exec_command_end")
    then none
    else elim (nonzero_code (get payload "exit_code")) [
      | some code ↦ some (
          structural_claim (codes "Command exited " ++ code ++ codes " this turn")
            "exec_command_end" null)
      | none ↦
          if equals (get payload "status") "failed"
          then some
              (structural_claim (codes "Command status failed this turn") "exec_command_end" null)
          else none
    ]

is_false : Value → Bool
is_false (bool b) = not b
is_false _ = false

-- `a or b`.
or_else : Value → Value → Value
or_else a b = if truthy a then a else b

-- The claim on an event of kind `error`.
unfoldable pub event_failure : Fields → Claim
unfolding command_failure exact_claim structural_claim is_false or_else
event_failure payload = elim (command_failure payload) [
  | some failure ↦ failure
  | none ↦
      if equals (get payload "type") "patch_apply_end" && is_false (get payload "success")
      then structural_claim (codes "Patch failed this turn") "patch_apply_end" null
      else let detail = or_else (get payload "message") (get payload "codex_error_info") in
        if truthy detail
        then exact_claim detail "error" null
        else structural_claim (codes "Source error this turn") "error" null
]

-- `failure.evidence_kind or "error"`.
kind_or_error : Option Text → Text
kind_or_error (some (c ∷ s)) = c ∷ s
kind_or_error _ = codes "error"

text_or_none : Option Text → Value
text_or_none none = null
text_or_none (some t) = str t

-- An event of kind `error`.
unfoldable pub apply_failure : SummarySnapshot → Claim → SummarySnapshot
unfolding append_recent kind_or_error text_or_none
apply_failure s failure = record s {
  command_result = failure;
  recent =
      append_recent s.recent (text_or_none failure.text) failure.provenance
        (kind_or_error failure.evidence_kind) null;
}

-- An event of kind `unknown`.
unfoldable pub unsupported_event : SummarySnapshot → SummarySnapshot
unfolding append_recent append_unknown_reason
unsupported_event s = record s {
  recent =
      append_recent s.recent (str (codes "Unsupported source event")) unknown (codes "unknown")
        null;
  unknown_reasons = append_unknown_reason s.unknown_reasons (codes "unsupported Codex event");
}

-- An event of kind `turn_boundary`.
unfoldable pub apply_boundary : Progress → Fields → Progress
unfolding append_recent textless_claim structural_claim
apply_boundary p payload =
    let boundary =
      if equals (get payload "type") "turn_aborted"
      then codes "Turn aborted"
      else codes "Turn returned to human" in
    record {
      pending = [];
      questions_unknown = false;
      snapshot = record p.snapshot {
        recent =
            append_recent p.snapshot.recent (str boundary) structural (codes "turn_boundary") null;
        command_result = textless_claim "turn_boundary" null;
        turn = structural_claim boundary "turn_boundary" null;
      };
    }

-- The output of a call.
unfoldable pub apply_output : Progress → Fields → Progress
unfolding answer_pending or_else fold_recent_result structural_claim string_id
apply_output p payload =
    let id = get payload "call_id" in
    record p {
      pending = answer_pending id p.pending;
      snapshot = record p.snapshot {
        recent =
            fold_recent_result p.snapshot.recent (or_else (get payload "output") (str []))
              "function_call_output" (string_id id);
        turn = structural_claim (codes "Agent turn open") "function_call_output" null;
      };
    }

-- A call of `request_user_input`.
unfoldable pub apply_requested : Progress → Option (Text × List Claim) → Progress
unfolding open_count insert structural_claim
apply_requested p none = record p { questions_unknown = true }
apply_requested p (some (id, claims)) =
    if ltb max_collection_items (open_count p.pending + length claims)
    then record p { questions_unknown = true }
    else record p {
      pending = insert id claims p.pending;
      snapshot = record p.snapshot {
        turn = structural_claim (codes "Awaiting explicit answer") "request_user_input" null;
      };
    }

-- What the function is called for, by its base name.
unfoldable pub apply_function : Progress → Text → Value → Option Fields → Progress
unfolding base_tool_name plan_snapshot requested_claims apply_requested
apply_function p name id arguments =
    if text_eq (base_tool_name name) (codes "update_plan")
    then record p { snapshot = record p.snapshot { tasks = plan_snapshot arguments } }
    else if text_eq (base_tool_name name) (codes "request_user_input")
    then apply_requested p (requested_claims id arguments)
    else p

-- A message of the assistant.
unfoldable pub apply_agent : SummarySnapshot → Text → SummarySnapshot
unfolding append_recent
apply_agent s text = record s {
  recent =
      append_recent s.recent (str (codes "Agent: " ++ text)) exact (codes "agent_message") null;
}

-- A message of the human, by its text before and after the attachment markers are removed.
unfoldable pub apply_human : SummarySnapshot → Text → Text → SummarySnapshot
unfolding exact_claim is_unknown textless_claim structural_claim append_recent
apply_human s text request_text =
    let asked : Claim = exact_claim (str request_text) "human_message" null in
    if is_unknown asked.provenance && not (text_eq request_text text)
    then record s {
      command_result = textless_claim "human_message" null;
      turn = structural_claim (codes "Agent turn open") "human_message" null;
    }
    else record s {
      request = asked;
      recent =
          append_recent s.recent (str (codes "Human: " ++ request_text)) exact
            (codes "human_message") null;
      turn = structural_claim (codes "Agent turn open") "human_message" null;
    }
