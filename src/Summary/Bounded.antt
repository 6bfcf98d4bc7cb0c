-- ===== src/Summary/Bounded.antt =====
-- palaver/summary/claude_code.py: every snapshot that the loop leaves is within its limits.
use palaver.Prelude.{
  ◌+◌, ◌≤◌, Option, none, some, List, [], ◌∷◌, ◌++◌, any, length, leb, ltb, reverse, Text, codes,
  text_eq, inl, inr, Bool-cases, if◌then◌else◌, arith,
}
use palaver.Json.{Value, null, str, obj, Fields, get, truthy}
use palaver.Transcript.{add}
use palaver.Summary.Model.{
  exact, structural, RecentActivity, SummarySnapshot, with_unknown, recent_activity_limit,
  max_collection_items, max_background_tasks, max_unknown_reasons,
}
use palaver.Summary.Recent.{append_recent}
use palaver.Summary.Collections.{open_count}
use palaver.Summary.ClaudeCode.{
  Progress, text_blocks, tool_result_text, register_background_task, apply_ended, compacted,
  compacted_recent, asked_claims, task_snapshot, string_id, id_or_none, tool_activity,
}
use palaver.Summary.Records.{
  answer_pending, answered_by, apply_result, apply_human_message, apply_started, record_call,
  apply_question, apply_asked, apply_final, record_text,
}
use palaver.Summary.Blind.{on_snapshot}
use palaver.Summary.Preserved.{IsKept}
use palaver.Summary.Bounds.{
  append_recent-length, fold_recent_result-length, append_unknown_reason-length, discard-length,
  insert-open_count, pop-open_count, task_collection-length,
}

-- The limits of a snapshot.
unfoldable pub IsBounded : SummarySnapshot → Type 0
IsBounded s =
    (length s.recent ≤ recent_activity_limit)
    × (length s.tasks.items ≤ max_collection_items)
    × (length s.questions.items ≤ max_collection_items)
    × (length s.background_tasks ≤ max_background_tasks)
    × (length s.unknown_reasons ≤ max_unknown_reasons)

-- The limits within the loop, where the open questions are those of the dictionary.
unfoldable pub IsWithin : Progress → Type 0
IsWithin p =
    (length p.snapshot.recent ≤ recent_activity_limit)
    × (length p.snapshot.tasks.items ≤ max_collection_items)
    × (open_count p.pending ≤ max_collection_items)
    × (length p.snapshot.background_tasks ≤ max_background_tasks)
    × (length p.snapshot.unknown_reasons ≤ max_unknown_reasons)

unknown-IsWithin :
    (why : Text) (p : Progress) → IsWithin p → IsWithin (on_snapshot (λ s. with_unknown s why) p)
unfolding IsWithin with_unknown
unknown-IsWithin why p (recent, tasks, questions, background, reasons) = (
  recent,
  omega arith,
  questions,
  background,
  append_unknown_reason-length p.snapshot.unknown_reasons why reasons,
)

started-IsWithin : (id : Option Text) (p : Progress) → IsWithin p → IsWithin (apply_started p id)
unfolding apply_started register_background_task IsWithin add
started-IsWithin none p h = h
started-IsWithin (some id) p h = elim (Bool-cases (any (text_eq id) p.snapshot.background_tasks)) [
  | inl e ↦ rw e h
  | inr e ↦ elim (Bool-cases (leb max_background_tasks (length p.snapshot.background_tasks))) [
    | inl full ↦
        rw (e, full) (unknown-IsWithin (codes "too many active Claude background tasks") p h)
    | inr room ↦
        let (recent, tasks, questions, background, reasons) = h in
        rw (e, room) (recent, tasks, questions, ground arith, reasons)
  ]
]

ended-IsWithin :
    (end_of : Option (Text × Text)) (p : Progress)
    → IsWithin p
    → IsWithin (on_snapshot (λ s. apply_ended s end_of) p)
unfolding apply_ended IsWithin
ended-IsWithin none p h = h
ended-IsWithin (some (id, status)) p h =
    elim (Bool-cases (any (text_eq id) p.snapshot.background_tasks)) [
      | inl e ↦
          let (recent, tasks, questions, background, reasons) = h in
          rw e (
            recent,
            tasks,
            questions,
            omega (arith, discard-length id p.snapshot.background_tasks),
            reasons,
          )
      | inr e ↦ rw e h
    ]

final-IsWithin :
    (text : Text) (p : Progress) → IsWithin p → IsWithin (on_snapshot (λ s. apply_final s text) p)
unfolding apply_final IsWithin
final-IsWithin [] p h = h
final-IsWithin (c ∷ text) p h = at p.snapshot.background_tasks h
  where
    at :
        (ids : List Text)
        → let r = record p { snapshot = record p.snapshot { background_tasks = ids } } in
          IsWithin r → IsWithin (on_snapshot (λ s. apply_final s (c ∷ text)) r)
    at [] h = h
    at (_ ∷ _) h = h

answer_pending-open_count :
    (v : Value) (p : Progress) → open_count (answer_pending v p.pending) ≤ open_count p.pending
unfolding answer_pending
answer_pending-open_count v p = at (string_id v)
  where
    at : (id : Option Text) → open_count (answered_by id p.pending) ≤ open_count p.pending
    at none = omega arith
    at (some t) = pop-open_count t p.pending

asked-IsWithin : (block : Fields) (p : Progress) → IsWithin p → IsWithin (apply_question p block)
unfolding apply_question apply_asked IsWithin
asked-IsWithin block p h = at (asked_claims block)
  where
    at : (asked : Option _) → IsWithin (apply_asked p asked)
    at none = h
    at (some (id, claims)) =
        elim (Bool-cases (ltb max_collection_items (open_count p.pending + length claims))) [
          | inl e ↦ rw e h
          | inr e ↦
              let (recent, tasks, questions, background, reasons) = h in
              rw e (
                recent,
                tasks,
                ground (arith, insert-open_count id claims p.pending),
                background,
                reasons,
              )
        ]

task_snapshot-length : (input : Value) → length (task_snapshot input).items ≤ max_collection_items
unfolding task_snapshot
task_snapshot-length input = at input
  where
    todo_reason : Text
    todo_reason = codes "TodoWrite input is unsupported"

    at : (v : Value) → length (task_snapshot v).items ≤ max_collection_items
    at (obj fs) = task_collection-length (get fs "todos") "TodoWrite" "content" todo_reason
    at _ = task_collection-length null "TodoWrite" "content" todo_reason

compacted-IsWithin : (p : Progress) → IsWithin p → IsWithin (on_snapshot compacted p)
unfolding compacted compacted_recent IsWithin
compacted-IsWithin p (recent, tasks, questions, background, reasons) =
    (at (reverse p.snapshot.recent), tasks, questions, background, reasons)
  where
    appended :
        length (
          append_recent p.snapshot.recent
            (str (codes "Context compacted"))
            structural
            (codes "compaction")
            null)
        ≤ recent_activity_limit
    appended =
        append_recent-length p.snapshot.recent (str (codes "Context compacted")) structural
          (codes "compaction") null recent

    at :
        (rs : List RecentActivity)
        → length (compacted_recent p.snapshot.recent rs) ≤ recent_activity_limit
    at [] = appended
    at (r ∷ rs) = elim (Bool-cases (text_eq r.evidence_kind (codes "compaction"))) [
      | inl e ↦ rw e recent
      | inr e ↦ rw e appended
    ]

said-IsWithin :
    (text : Text) (p : Progress) → IsWithin p → IsWithin (on_snapshot (λ s. record_text s text) p)
unfolding record_text IsWithin
said-IsWithin [] p h = h
said-IsWithin (c ∷ text) p (recent, tasks, questions, background, reasons) = (
  append_recent-length p.snapshot.recent (str (codes "Agent: " ++ c ∷ text)) exact
      (codes "agent_message") null recent,
  tasks,
  questions,
  background,
  reasons,
)

module _ (str_of : Value → Text) (dumps : Fields → Text) where
  result-IsWithin :
      (block : Fields) (p : Progress) → IsWithin p → IsWithin (apply_result str_of p block)
  unfolding apply_result IsWithin
  result-IsWithin block p (recent, tasks, questions, background, reasons) = (
    fold_recent_result-length p.snapshot.recent (str (tool_result_text str_of block))
        (if truthy (get block "is_error") then "tool_error" else "tool_result")
        (string_id (get block "tool_use_id")) recent,
    tasks,
    omega (arith, answer_pending-open_count (get block "tool_use_id") p),
    background,
    reasons,
  )

  -- Every step of the loop keeps the limits.
  pub IsWithin-kept : IsKept str_of dumps (λ b. Unit) IsWithin
  unfolding apply_human_message record_call IsWithin
  IsWithin-kept = record {
    compaction = compacted-IsWithin;
    unknown = unknown-IsWithin;
    started = started-IsWithin;
    ended = ended-IsWithin;
    result = result-IsWithin;
    request = λ r p (recent, tasks, questions, background, reasons). (
      append_recent-length p.snapshot.recent (str (codes "Human: " ++ text_blocks str_of r)) exact
          (codes "human_message") null recent,
      tasks,
      questions,
      background,
      reasons,
    );
    call = λ name b p (recent, tasks, questions, background, reasons). (
      append_recent-length p.snapshot.recent (str (tool_activity dumps name (get b "input"))) exact
          (codes "tool_use") (id_or_none (string_id (get b "id"))) recent,
      tasks,
      questions,
      background,
      reasons,
    );
    said = said-IsWithin;
    final = final-IsWithin;
    turn = λ c p h. h;
    tasks = λ input p (recent, tasks, questions, background, reasons).
        (recent, task_snapshot-length input, questions, background, reasons);
    question = λ b p asks h. asked-IsWithin b p h;
  }
