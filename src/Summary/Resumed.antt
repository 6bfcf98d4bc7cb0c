-- ===== src/Summary/Resumed.antt =====
-- palaver/summary/claude_code.py: two states of the loop that show the same go through any events
-- alike.
use palaver.Prelude.{
  Bool, true, false, Option, none, some, List, [], ◌∷◌, Text, codes, text_eq, ◌≡◌, inl, inr,
  Bool-cases,
}
use palaver.Json.{Value, null, str, obj, Fields, get, equals, member}
use palaver.Transcript.{
  Record, Channel, human, injected, classify_channel, background_task_id,
  background_task_notification, blocks_of,
}
use palaver.Summary.ClaudeCode.{
  Event, Progress, blocks, text_blocks, apply_background_notification, compacted, asked_claims,
  task_snapshot,
}
use palaver.Summary.Records.{
  apply_result, apply_results, apply_human_message, apply_user, apply_user_by, apply_named,
  apply_call_by, apply_call, apply_calls, apply_question, turn_of_calls, apply_final, record_text,
}
use palaver.Summary.Reduce.{
  apply_assistant, apply_typed, apply_message, apply_payload, apply_event, apply_events,
}
use palaver.Summary.Likeness.{shown, respects}
use palaver.Summary.Blind.{
  on_snapshot, compacted-IsBlind, with_unknown-IsBlind, turn-IsBlind, tasks-IsBlind,
  apply_human_message-IsBlind, apply_result-IsBlind, record_call-IsBlind, apply_asked-IsBlind,
  apply_started-IsBlind, apply_ended-IsBlind, record_text-IsBlind, apply_final-IsBlind,
}

-- Two outcomes of the loop that show the same.
unfoldable pub Alike : Option Progress → Option Progress → Type 0
Alike none none = Unit
Alike (some p) (some q) = shown p ≡ shown q
Alike _ _ = ⊥

module _ (str_of : Value → Text) where
  results_alike :
      (bs : List Fields) (p q : Progress)
      → shown p ≡ shown q
      → shown (apply_results str_of p bs) ≡ shown (apply_results str_of q bs)
  unfolding apply_results
  results_alike [] p q h = h
  results_alike (b ∷ bs) p q h =
      results_alike bs _ _
        (respects (λ r. apply_result str_of r b) (apply_result-IsBlind str_of b) p q h)

  user_alike :
      (r : Record) (p q : Progress)
      → shown p ≡ shown q
      → shown (apply_user str_of p r) ≡ shown (apply_user str_of q r)
  unfolding apply_user
  user_alike r p q h = at (blocks_of (blocks r) "tool_result") (classify_channel str_of r)
    where
      at :
          (bs : List Fields) (c : Channel)
          → shown (apply_user_by str_of p r bs c) ≡ shown (apply_user_by str_of q r bs c)
      at (b ∷ bs) c = results_alike (b ∷ bs) p q h
      at [] injected = h
      at [] human =
          respects (on_snapshot (λ s. apply_human_message str_of s r))
            (apply_human_message-IsBlind str_of r) p q h

named_alike :
    (name : Text) (block : Fields) (p q : Progress)
    → shown p ≡ shown q
    → shown (apply_named p name block) ≡ shown (apply_named q name block)
unfolding apply_named apply_question
named_alike name block p q h = elim (Bool-cases (text_eq name (codes "TodoWrite"))) [
  | inl e ↦ rw e (respects _ (tasks-IsBlind (task_snapshot (get block "input"))) p q h)
  | inr e ↦ elim (Bool-cases (text_eq name (codes "AskUserQuestion"))) [
    | inl f ↦ rw (e, f) (respects _ (apply_asked-IsBlind (asked_claims block)) p q h)
    | inr f ↦ rw (e, f) h
  ]
]

module _ (dumps : Fields → Text) where
  call_alike :
      (block : Fields) (p q : Progress)
      → shown p ≡ shown q
      → shown (apply_call dumps p block) ≡ shown (apply_call dumps q block)
  unfolding apply_call
  call_alike block p q h = at (get block "name")
    where
      nameless : shown (apply_call_by dumps p block null) ≡ shown (apply_call_by dumps q block null)
      nameless =
          respects _ (with_unknown-IsBlind (codes "Claude tool call has no supported name")) p q h

      at :
          (v : Value)
          → shown (apply_call_by dumps p block v) ≡ shown (apply_call_by dumps q block v)
      at (str (c ∷ name)) =
          named_alike (c ∷ name) block _ _
            (respects _ (record_call-IsBlind dumps (c ∷ name) block) p q h)
      at _ = nameless

  calls_alike :
      (bs : List Fields) (p q : Progress)
      → shown p ≡ shown q
      → shown (apply_calls dumps p bs) ≡ shown (apply_calls dumps q bs)
  unfolding apply_calls
  calls_alike [] p q h = h
  calls_alike (b ∷ bs) p q h = calls_alike bs _ _ (call_alike b p q h)

  assistant_alike :
      (text : Text) (calls : List Fields) (p q : Progress)
      → shown p ≡ shown q
      → shown (apply_assistant dumps p text calls) ≡ shown (apply_assistant dumps q text calls)
  unfolding apply_assistant
  assistant_alike text [] p q h =
      respects (on_snapshot (λ s. apply_final s text)) (apply_final-IsBlind text) _ _
        (respects (on_snapshot (λ s. record_text s text)) (record_text-IsBlind text) p q h)
  assistant_alike text (b ∷ bs) p q h = respects _ (turn-IsBlind (turn_of_calls (b ∷ bs))) _ _ (
      calls_alike (b ∷ bs) _ _
        (respects (on_snapshot (λ s. record_text s text)) (record_text-IsBlind text) p q h))

module _ (str_of : Value → Text) (dumps : Fields → Text) where
  message-Alike :
      (r : Record) (p q : Progress)
      → shown p ≡ shown q
      → Alike (apply_message str_of dumps p r) (apply_message str_of dumps q r)
  unfolding apply_message apply_typed Alike
  message-Alike r p q h =
      at (member (get r "type") ("user" ∷ "assistant" ∷ [])) (equals (get r "type") "user")
    where
      at :
          (known : Option Bool) (is_user : Bool)
          → Alike
              (apply_typed str_of dumps p r known is_user)
              (apply_typed str_of dumps q r known is_user)
      at none is_user = tt
      at (some false) is_user = h
      at (some true) true =
          user_alike str_of r _ _ (respects _ (apply_started-IsBlind (background_task_id r)) p q h)
      at (some true) false =
          assistant_alike dumps (text_blocks str_of r) (blocks_of (blocks r) "tool_use") p q h

  event-Alike :
      (e : Event) (p q : Progress)
      → shown p ≡ shown q
      → Alike (apply_event str_of dumps p e) (apply_event str_of dumps q e)
  unfolding apply_event apply_payload Alike apply_background_notification
  event-Alike e p q h = at e.payload
    where
      odd :
          Alike
            (apply_payload str_of dumps p e.kind null)
            (apply_payload str_of dumps q e.kind null)
      odd = respects _ (with_unknown-IsBlind (codes "Claude event payload is unsupported")) p q h

      at :
          (v : Value)
          → Alike (apply_payload str_of dumps p e.kind v) (apply_payload str_of dumps q e.kind v)
      at (obj r) = elim (Bool-cases (text_eq e.kind (codes "compaction"))) [
        | inl c ↦ rw c (respects (on_snapshot compacted) compacted-IsBlind p q h)
        | inr c ↦ elim (Bool-cases (equals (get r "type") "queue-operation")) [
          | inl o ↦
              rw (c, o) (respects _ (apply_ended-IsBlind (background_task_notification r)) p q h)
          | inr o ↦ rw (c, o) (message-Alike r p q h)
        ]
      ]
      at _ = odd

  on_Alike :
      (next : Progress → Option Progress)
      → ((p q : Progress) → shown p ≡ shown q → Alike (next p) (next q))
      → (a b : Option Progress) → Alike a b
      → Alike (elim a [ none ↦ none | some q ↦ next q ]) (elim b [ none ↦ none | some q ↦ next q ])
  unfolding Alike
  on_Alike next alike none none h = tt
  on_Alike next alike (some p) (some q) h = alike p q h
  on_Alike next alike none (some q) h = elim h [ ]
  on_Alike next alike (some p) none h = elim h [ ]

  pub events-Alike :
      (es : List Event) (p q : Progress)
      → shown p ≡ shown q
      → Alike (apply_events str_of dumps p es) (apply_events str_of dumps q es)
  unfolding apply_events Alike
  events-Alike [] p q h = h
  events-Alike (e ∷ es) p q h =
      on_Alike (λ r. apply_events str_of dumps r es) (λ r s. events-Alike es r s)
        (apply_event str_of dumps p e) (apply_event str_of dumps q e) (event-Alike e p q h)
