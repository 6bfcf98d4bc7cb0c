-- ===== src/Summary/ClaudeCode.antt =====
-- palaver/summary/claude_code.py: one event's effect on the snapshot. `str_of` is Python's `str()` of
-- a decoded value that is no string, and `dumps` is `json.dumps(_, ensure_ascii=False,
-- sort_keys=True)` of a dictionary.
use palaver.Prelude.{
  String, Bool, not, Option, none, some, List, [], ◌∷◌, ◌++◌, any, length, leb, if◌then◌else◌, Text,
  codes, text_eq, reverse,
}
use palaver.Json.{Value, null, str, arr, obj, Fields, end, field, get, dicts}
use palaver.Transcript.{
  Record, background_task_notification, background_task_success_statuses, block_text, blocks_of,
  add, discard,
}
use palaver.Summary.Model.{
  structural, sanitized, Claim, structural_claim, textless_claim, RecentActivity, SummarySnapshot,
  with_unknown, TaskItem, CollectionClaim, max_background_tasks,
}
use palaver.Summary.Recent.{append_recent}
use palaver.Summary.Collections.{task_collection, question_claims, Pending}

-- `Event` of palaver/ingest/adapters/base.py.
pub record Event : Type 0 where
  pub session_key : Text
  pub kind : Text
  pub payload : Value

-- What the loop over the events carries.
pub record Progress : Type 0 where
  pub snapshot : SummarySnapshot
  pub pending : Pending
  pub questions_unknown : Bool

-- `_blocks`.
unfoldable pub blocks : Record → List Fields
unfolding dicts
blocks r = elim (get r "message") [
  | obj message ↦ elim (get message "content") [
    | str s ↦ field (codes "type") (str (codes "text")) (field (codes "text") (str s) end) ∷ []
    | arr content ↦ dicts content
    | _ ↦ []
  ]
  | _ ↦ []
]

module _ (str_of : Value → Text) where
  -- `sep.join(str(block.get("text", "")) for block in found)`.
  unfoldable pub join_texts : String → List Fields → Text
  unfolding block_text
  join_texts separator [] = []
  join_texts separator (b ∷ []) = block_text str_of b
  join_texts separator (b ∷ c ∷ bs) =
      block_text str_of b ++ codes separator ++ join_texts separator (c ∷ bs)

  -- `_text_blocks`.
  unfoldable pub text_blocks : Record → Text
  unfolding join_texts blocks blocks_of
  text_blocks r = join_texts "\n" (blocks_of (blocks r) "text")

  -- `_result_text`.
  unfoldable pub tool_result_text : Fields → Text
  unfolding join_texts
  tool_result_text block = elim (get block "content") [
    | str s ↦ s
    | arr content ↦ join_texts " " (dicts content)
    | _ ↦ []
  ]

-- `_register_background_task`.
unfoldable pub register_background_task : SummarySnapshot → Text → SummarySnapshot
unfolding structural_claim with_unknown add
register_background_task s id =
    if any (text_eq id) s.background_tasks
    then record s { turn = structural_claim (codes "Agent turn open") "background_task" (str id) }
    else if leb max_background_tasks (length s.background_tasks)
    then with_unknown s (codes "too many active Claude background tasks")
    else record s {
      background_tasks = add id s.background_tasks;
      turn = structural_claim (codes "Agent turn open") "background_task" (str id);
    }

-- The claims on a background task that ended with the status.
unfoldable pub ended_result : Text → Text → Claim
unfolding structural_claim textless_claim
ended_result id status =
    if any (text_eq status) background_task_success_statuses
    then textless_claim "background_task" (str id)
    else structural_claim (codes "Background task " ++ status) "background_task" (str id)

unfoldable pub turn_after : List Text → Text → Claim
unfolding structural_claim
turn_after [] id = structural_claim (codes "Turn returned to human") "background_task" (str id)
turn_after (t ∷ ts) id = structural_claim (codes "Agent turn open") "background_task" (str id)

-- The end of a background task, by its identifier and status.
unfoldable pub apply_ended : SummarySnapshot → Option (Text × Text) → SummarySnapshot
unfolding discard ended_result turn_after
apply_ended s none = s
apply_ended s (some (id, status)) =
    if not (any (text_eq id) s.background_tasks) then s else record s {
      background_tasks = discard id s.background_tasks;
      command_result = ended_result id status;
      turn = turn_after (discard id s.background_tasks) id;
    }

-- `_apply_background_notification`.
unfoldable pub apply_background_notification : SummarySnapshot → Record → SummarySnapshot
unfolding apply_ended
apply_background_notification s r = apply_ended s (background_task_notification r)

-- `_task_snapshot`.
unfoldable pub task_snapshot : Value → CollectionClaim TaskItem
unfolding task_collection
task_snapshot input =
    let todos : Value = elim input [ obj fs ↦ get fs "todos" | _ ↦ null ] in
    task_collection todos "TodoWrite" "content" (codes "TodoWrite input is unsupported")

-- The claims with their call's identifier, if they could be read.
unfoldable pub asked_with : Text → Option (List Claim) → Option (Text × List Claim)
asked_with id none = none
asked_with id (some claims) = some (id, claims)

-- The claims of a call with this identifier and this input.
unfoldable pub asked_by : Value → Value → Option (Text × List Claim)
unfolding asked_with question_claims
asked_by (str (c ∷ id)) (obj input) =
    asked_with (c ∷ id) (question_claims (get input "questions") "AskUserQuestion" (c ∷ id))
asked_by _ _ = none

-- `_question_claims`; `none` where the code's identifier or its claims are `None`.
unfoldable pub asked_claims : Fields → Option (Text × List Claim)
unfolding asked_by
asked_claims block = asked_by (get block "id") (get block "input")

-- `_tool_activity`.
unfoldable pub tool_activity : (Fields → Text) → Text → Value → Text
unfolding sanitized
tool_activity dumps name input =
    let detail : Value = elim input [
      | obj fs ↦
          if text_eq name (codes "Bash")
          then get fs "command"
          else if any (λ tool. text_eq name (codes tool))
              ("Read" ∷ "Write" ∷ "Edit" ∷ "NotebookEdit" ∷ [])
          then get fs "file_path"
          else str (dumps fs)
      | _ ↦ str []
    ] in
    elim (sanitized detail) [
      | [] ↦ codes "Tool " ++ name
      | c ∷ s ↦ codes "Tool " ++ name ++ codes ": " ++ c ∷ s
    ]

-- The activity after a compaction: one entry, if the last is none already.
unfoldable pub compacted_recent : List RecentActivity → List RecentActivity → List RecentActivity
unfolding append_recent
compacted_recent current [] =
    append_recent current (str (codes "Context compacted")) structural (codes "compaction") null
compacted_recent current (item ∷ _) =
    if text_eq item.evidence_kind (codes "compaction")
    then current
    else append_recent current (str (codes "Context compacted")) structural (codes "compaction")
        null

-- The branch of a compaction event.
unfoldable pub compacted : SummarySnapshot → SummarySnapshot
unfolding compacted_recent structural_claim
compacted s = record s {
  compaction = structural_claim (codes "Context compacted") "compaction" null;
  recent = compacted_recent s.recent (reverse s.recent);
}

-- An identifier only if it is a string.
unfoldable pub string_id : Value → Option Text
string_id (str s) = some s
string_id _ = none

unfoldable pub id_or_none : Option Text → Value
id_or_none none = null
id_or_none (some s) = str s
