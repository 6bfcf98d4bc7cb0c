-- ===== src/Summary/Preserved.antt =====
-- palaver/summary/claude_code.py: what each step of the loop keeps, all events together keep.
use palaver.Prelude.{
  Bool, true, false, Option, none, some, List, [], ◌∷◌, All, Text, codes, text_eq, ◌≡◌, inl, inr,
  Bool-cases,
}
use palaver.Json.{Value, str, obj, Fields, get, equals, member}
use palaver.Transcript.{
  Record, Channel, human, injected, classify_channel, background_task_id,
  background_task_notification, blocks_of,
}
use palaver.Summary.Model.{Claim, with_unknown}
use palaver.Summary.ClaudeCode.{
  Event, Progress, blocks, text_blocks, apply_ended, apply_background_notification, compacted,
  task_snapshot,
}
use palaver.Summary.Records.{
  apply_result, apply_results, apply_human_message, apply_started, apply_user, apply_user_by,
  apply_named, apply_call, apply_call_by, apply_calls, record_call, apply_question, turn_of_calls,
  apply_final, record_text,
}
use palaver.Summary.Reduce.{
  apply_assistant, apply_typed, apply_message, apply_payload, apply_event, apply_events,
}
use palaver.Summary.Blind.{on_snapshot}

module _ (str_of : Value → Text) (dumps : Fields → Text) where
  -- A property that each step keeps; `Asked` is what a call of `AskUserQuestion` has to meet.
  pub record IsKept (Asked : Fields → Type 0) (P : Progress → Type 0) : Type 0 where
    pub compaction : (p : Progress) → P p → P (on_snapshot compacted p)
    pub unknown : (why : Text) (p : Progress) → P p → P (on_snapshot (λ s. with_unknown s why) p)
    pub started : (id : Option Text) (p : Progress) → P p → P (apply_started p id)
    pub ended :
        (end_of : Option (Text × Text)) (p : Progress)
        → P p
        → P (on_snapshot (λ s. apply_ended s end_of) p)
    pub result : (block : Fields) (p : Progress) → P p → P (apply_result str_of p block)
    pub request :
        (r : Record) (p : Progress) → P p → P (on_snapshot (λ s. apply_human_message str_of s r) p)
    pub call :
        (name : Text) (block : Fields) (p : Progress)
        → P p
        → P (on_snapshot (λ s. record_call dumps s name block) p)
    pub said : (text : Text) (p : Progress) → P p → P (on_snapshot (λ s. record_text s text) p)
    pub final : (text : Text) (p : Progress) → P p → P (on_snapshot (λ s. apply_final s text) p)
    pub turn : (c : Claim) (p : Progress) → P p → P (on_snapshot (λ s. record s { turn = c }) p)
    pub tasks :
        (input : Value) (p : Progress)
        → P p
        → P (on_snapshot (λ s. record s { tasks = task_snapshot input }) p)
    pub question : (block : Fields) (p : Progress) → Asked block → P p → P (apply_question p block)

-- Each call of `AskUserQuestion` in the event meets the condition.
unfoldable pub Asking : (Fields → Type 0) → Event → Type 0
Asking Asked e = elim e.payload [
  | obj r ↦
      All (λ b. equals (get b "name") "AskUserQuestion" ≡ true → Asked b)
        (blocks_of (blocks r) "tool_use")
  | _ ↦ Unit
]

-- What holds of the state if the loop does not raise.
unfoldable pub IfReturned : (Progress → Type 0) → Option Progress → Type 0
IfReturned P none = Unit
IfReturned P (some p) = P p

module _ {str_of : Value → Text} {dumps : Fields → Text} {Asked : Fields → Type 0}
    {P : Progress → Type 0} (kept : IsKept str_of dumps Asked P) where
  results_kept : (bs : List Fields) (p : Progress) → P p → P (apply_results str_of p bs)
  unfolding apply_results
  results_kept [] p h = h
  results_kept (b ∷ bs) p h = results_kept bs _ (kept.result b p h)

  user_kept : (r : Record) (p : Progress) → P p → P (apply_user str_of p r)
  unfolding apply_user apply_user_by
  user_kept r p h = at (blocks_of (blocks r) "tool_result") (classify_channel str_of r)
    where
      at : (bs : List Fields) (c : Channel) → P (apply_user_by str_of p r bs c)
      at (b ∷ bs) c = results_kept (b ∷ bs) p h
      at [] injected = h
      at [] human = kept.request r p h

  call_kept :
      (b : Fields) (p : Progress)
      → (equals (get b "name") "AskUserQuestion" ≡ true → Asked b)
      → P p
      → P (apply_call dumps p b)
  unfolding apply_call apply_call_by apply_named equals
  call_kept b p asked h = at (get b "name") asked
    where
      at :
          (v : Value)
          → (equals v "AskUserQuestion" ≡ true → Asked b)
          → P (apply_call_by dumps p b v)
      at (str (c ∷ name)) asked = elim (Bool-cases (text_eq (c ∷ name) (codes "TodoWrite"))) [
        | inl e ↦ rw e (kept.tasks (get b "input") _ (kept.call (c ∷ name) b p h))
        | inr e ↦ elim (Bool-cases (text_eq (c ∷ name) (codes "AskUserQuestion"))) [
          | inl f ↦ rw (e, f) (kept.question b _ (asked f) (kept.call (c ∷ name) b p h))
          | inr f ↦ rw (e, f) (kept.call (c ∷ name) b p h)
        ]
      ]
      at (str []) asked = kept.unknown (codes "Claude tool call has no supported name") p h
      at _ asked = kept.unknown (codes "Claude tool call has no supported name") p h

  calls_kept :
      (bs : List Fields) (p : Progress)
      → All (λ b. equals (get b "name") "AskUserQuestion" ≡ true → Asked b) bs
      → P p
      → P (apply_calls dumps p bs)
  unfolding apply_calls
  calls_kept [] p asked h = h
  calls_kept (b ∷ bs) p (a, asked) h = calls_kept bs _ asked (call_kept b p a h)

  assistant_kept :
      (text : Text) (bs : List Fields) (p : Progress)
      → All (λ b. equals (get b "name") "AskUserQuestion" ≡ true → Asked b) bs
      → P p
      → P (apply_assistant dumps p text bs)
  unfolding apply_assistant
  assistant_kept text [] p asked h = kept.final text _ (kept.said text p h)
  assistant_kept text (b ∷ bs) p asked h =
      kept.turn (turn_of_calls (b ∷ bs)) _ (calls_kept (b ∷ bs) _ asked (kept.said text p h))

  message_kept :
      (r : Record) (p : Progress)
      → All
          (λ b. equals (get b "name") "AskUserQuestion" ≡ true → Asked b)
          (blocks_of (blocks r) "tool_use")
      → P p
      → IfReturned P (apply_message str_of dumps p r)
  unfolding apply_message apply_typed IfReturned
  message_kept r p asked h =
      at (member (get r "type") ("user" ∷ "assistant" ∷ [])) (equals (get r "type") "user")
    where
      at :
          (known : Option Bool) (is_user : Bool)
          → IfReturned P (apply_typed str_of dumps p r known is_user)
      at none is_user = tt
      at (some false) is_user = h
      at (some true) true = user_kept r _ (kept.started (background_task_id r) p h)
      at (some true) false =
          assistant_kept (text_blocks str_of r) (blocks_of (blocks r) "tool_use") p asked h

  event_kept :
      (e : Event) (p : Progress)
      → Asking Asked e
      → P p
      → IfReturned P (apply_event str_of dumps p e)
  unfolding apply_event apply_payload Asking apply_background_notification IfReturned
  event_kept e p asked h = at e.payload asked
    where
      at :
          (v : Value)
          → Asking Asked (record e { payload = v })
          → IfReturned P (apply_payload str_of dumps p e.kind v)
      at (obj r) asked = elim (Bool-cases (text_eq e.kind (codes "compaction"))) [
        | inl c ↦ rw c (kept.compaction p h)
        | inr c ↦ elim (Bool-cases (equals (get r "type") "queue-operation")) [
          | inl o ↦ rw (c, o) (kept.ended (background_task_notification r) p h)
          | inr o ↦ rw (c, o) (message_kept r p asked h)
        ]
      ]
      at _ asked = kept.unknown (codes "Claude event payload is unsupported") p h

  on_returned :
      (next : Progress → Option Progress)
      → ((p : Progress) → P p → IfReturned P (next p))
      → (a : Option Progress) → IfReturned P a
      → IfReturned P (elim a [ none ↦ none | some q ↦ next q ])
  unfolding IfReturned
  on_returned next f none h = tt
  on_returned next f (some p) h = f p h

  pub events_kept :
      (es : List Event) (p : Progress)
      → All (Asking Asked) es
      → P p
      → IfReturned P (apply_events str_of dumps p es)
  unfolding apply_events IfReturned
  events_kept [] p asked h = h
  events_kept (e ∷ es) p (a, asked) h =
      on_returned (λ q. apply_events str_of dumps q es) (λ q k. events_kept es q asked k)
        (apply_event str_of dumps p e) (event_kept e p a h)
