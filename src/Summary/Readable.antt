-- ===== src/Summary/Readable.antt =====
-- palaver/summary/claude_code.py: the events from which `reduce_claude_events` returns a snapshot.
use palaver.Prelude.{
  Bool, true, false, none, some, List, [], ◌∷◌, All, Text, codes, text_eq, ◌≡◌, refl, ap, inl, inr,
  Bool-cases,
}
use palaver.Json.{Value, obj, Fields, get, hashable, member, equals, equals_any}
use palaver.Summary.Model.{SummarySnapshot}
use palaver.Summary.ClaudeCode.{Event, Progress}
use palaver.Summary.Reduce.{
  apply_typed, apply_message, apply_payload, apply_event, apply_events, start, initial_snapshot,
  finish, finished, reduce_claude_events,
}
use palaver.Summary.Preserved.{Asking}
use palaver.Summary.Sound.{AsksSomething}

-- A record's `type` is no list and no dictionary.
unfoldable pub IsTyped : Event → Type 0
IsTyped e = elim e.payload [ obj r ↦ hashable (get r "type") ≡ true | _ ↦ Unit ]

-- An event that can be reduced, and each of whose readable questions asks something.
abbrev pub IsReadable : Event → Type 0
IsReadable e = IsTyped e × Asking AsksSomething e

module _ (str_of : Value → Text) (dumps : Fields → Text) where
  typed_returns :
      (r : Fields) (p : Progress)
      → hashable (get r "type") ≡ true
      → (q : Progress) × (apply_message str_of dumps p r ≡ some q)
  unfolding apply_message apply_typed member
  typed_returns r p h =
      rw h
        (at (equals_any (get r "type") ("user" ∷ "assistant" ∷ [])) (equals (get r "type") "user"))
    where
      at :
          (known is_user : Bool)
          → (q : Progress) × (apply_typed str_of dumps p r (some known) is_user ≡ some q)
      at false is_user = (_, refl)
      at true true = (_, refl)
      at true false = (_, refl)

  event_returns :
      (e : Event) (p : Progress)
      → IsTyped e
      → (q : Progress) × (apply_event str_of dumps p e ≡ some q)
  unfolding apply_event apply_payload IsTyped
  event_returns e p typed = at e.payload typed
    where
      at :
          (v : Value)
          → IsTyped (record e { payload = v })
          → (q : Progress) × (apply_payload str_of dumps p e.kind v ≡ some q)
      at (obj r) typed = elim (Bool-cases (text_eq e.kind (codes "compaction"))) [
        | inl c ↦ rw c (_, refl)
        | inr c ↦ elim (Bool-cases (equals (get r "type") "queue-operation")) [
          | inl o ↦ rw (c, o) (_, refl)
          | inr o ↦ rw (c, o) (typed_returns r p typed)
        ]
      ]
      at _ typed = (_, refl)

  events_return :
      (es : List Event) (p : Progress)
      → All IsReadable es
      → (q : Progress) × (apply_events str_of dumps p es ≡ some q)
  unfolding apply_events
  events_return [] p h = (p, refl)
  events_return (e ∷ es) p ((typed, _), h) =
      let (q, e1) = event_returns e p typed in rw (e1, apply_events) (events_return es q h)

  pub reduction_returns :
      (key : Text) (es : List Event)
      → All IsReadable es
      → (s : SummarySnapshot) × (reduce_claude_events str_of dumps key es none ≡ some s)
  unfolding reduce_claude_events finished
  reduction_returns key es h =
      let (q, e) = events_return es (start (initial_snapshot key none)) h in
      (finish q, ap finished e)
