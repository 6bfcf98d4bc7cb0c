-- ===== src/Summary/Resume.antt =====
-- palaver/summary/claude_code.py: `reduce_claude_events` from the snapshot that it has returned.
use palaver.Prelude.{
  Bool, true, false, Option, none, some, List, [], ◌∷◌, ◌++◌, All, Text, codes, text_eq, length,
  leb, any, ◌≡◌, refl, sym, ap, ◌∙◌, inl, inr, Bool-cases, Option-cases,
}
use mathlib.Core.Option.{some-injective}
use palaver.Json.{Value, Fields, get}
use palaver.Summary.Model.{
  Provenance, exact, structural, unknown, is_unknown, SummarySnapshot, with_unknown,
  max_background_tasks,
}
use palaver.Summary.Collections.{pending_questions}
use palaver.Summary.ClaudeCode.{
  Event, Progress, register_background_task, apply_ended, compacted, asked_claims, string_id,
}
use palaver.Summary.Records.{
  answer_pending, answered_by, apply_result, apply_human_message, apply_started, record_call,
  apply_question, apply_final, record_text,
}
use palaver.Summary.Reduce.{
  start, finish, apply_event, apply_events, initial_snapshot, finished, reduce_claude_events,
}
use palaver.Summary.Filed.{Filed, pop-Filed, file_claims-flatten_all}
use palaver.Summary.Reasons.{append_unknown_reason-nonempty, append_unknown_reason-last}
use palaver.Summary.Likeness.{mask, hide, shown, finish-shown}
use palaver.Summary.Blind.{on_snapshot}
use palaver.Summary.Preserved.{IsKept, Asking, IfReturned, events_kept}
use palaver.Summary.Resumed.{Alike, events-Alike}
use palaver.Summary.Sound.{IsSound, AsksSomething, asked_claims-Own, apply_asked-IsSound}

unknown-IsSound :
    (why : Text) (p : Progress) → IsSound p → IsSound (on_snapshot (λ s. with_unknown s why) p)
unfolding IsSound with_unknown
unknown-IsSound why p (filed, _) =
    (filed, λ _. append_unknown_reason-nonempty p.snapshot.unknown_reasons why)

started-IsSound : (id : Option Text) (p : Progress) → IsSound p → IsSound (apply_started p id)
unfolding apply_started register_background_task IsSound
started-IsSound none p h = h
started-IsSound (some id) p h = elim (Bool-cases (any (text_eq id) p.snapshot.background_tasks)) [
  | inl e ↦ rw e h
  | inr e ↦ elim (Bool-cases (leb max_background_tasks (length p.snapshot.background_tasks))) [
    | inl full ↦
        rw (e, full) (unknown-IsSound (codes "too many active Claude background tasks") p h)
    | inr room ↦ rw (e, room) h
  ]
]

ended-IsSound :
    (end_of : Option (Text × Text)) (p : Progress)
    → IsSound p
    → IsSound (on_snapshot (λ s. apply_ended s end_of) p)
unfolding apply_ended IsSound
ended-IsSound none p h = h
ended-IsSound (some (id, status)) p h =
    elim (Bool-cases (any (text_eq id) p.snapshot.background_tasks)) [
      | inl e ↦ rw e h
      | inr e ↦ rw e h
    ]

final-IsSound :
    (text : Text) (p : Progress) → IsSound p → IsSound (on_snapshot (λ s. apply_final s text) p)
unfolding apply_final IsSound
final-IsSound [] p h = h
final-IsSound (c ∷ text) p h = at p.snapshot.background_tasks
  where
    at :
        (ids : List Text)
        → let r = record p { snapshot = record p.snapshot { background_tasks = ids } } in
          IsSound (on_snapshot (λ s. apply_final s (c ∷ text)) r)
    at [] = h
    at (_ ∷ _) = h

answer_pending-Filed :
    (v : Value) (p : Progress) → Filed p.pending → Filed (answer_pending v p.pending)
unfolding answer_pending
answer_pending-Filed v p h = at (string_id v)
  where
    at : (id : Option Text) → Filed (answered_by id p.pending)
    at none = h
    at (some t) = pop-Filed t p.pending h

said-IsSound :
    (text : Text) (p : Progress) → IsSound p → IsSound (on_snapshot (λ s. record_text s text) p)
unfolding record_text IsSound
said-IsSound [] p h = h
said-IsSound (c ∷ text) p h = h

module _ (str_of : Value → Text) (dumps : Fields → Text) where
  -- Every step of the loop keeps a state from which the snapshot can be resumed.
  IsSound-kept : IsKept str_of dumps AsksSomething IsSound
  unfolding IsSound compacted apply_result apply_human_message record_call apply_question
      AsksSomething
  IsSound-kept = record {
    compaction = λ p h. h;
    unknown = unknown-IsSound;
    started = started-IsSound;
    ended = ended-IsSound;
    result = λ b p (filed, reason). (answer_pending-Filed (get b "tool_use_id") p filed, reason);
    request = λ r p h. h;
    call = λ name b p h. h;
    said = said-IsSound;
    final = final-IsSound;
    turn = λ c p h. h;
    tasks = λ c p h. h;
    question = λ b p asks h. apply_asked-IsSound (asked_claims b) p (asked_claims-Own b) asks h;
  }

-- The loop that starts from a snapshot goes on where the loop before it ended.
start-finish : (p : Progress) → IsSound p → shown (start (finish p)) ≡ shown p
unfolding IsSound start finish shown mask hide is_unknown with_unknown pending_questions
start-finish p h = at p.snapshot.source_integrity p.questions_unknown h
  where
    at :
        (i : Provenance) (q : Bool)
        → let r = record p {
          snapshot = record p.snapshot { source_integrity = i };
          questions_unknown = q;
        } in
          IsSound r → shown (start (finish r)) ≡ shown r
    at exact true h = refl
    at exact false h =
        ap
          (λ d. shown (record {
            snapshot = record p.snapshot { source_integrity = exact };
            pending = d;
            questions_unknown = false;
          }))
          (file_claims-flatten_all p.pending h.0)
    at structural true h = refl
    at structural false h =
        ap
          (λ d. shown (record {
            snapshot = record p.snapshot { source_integrity = structural };
            pending = d;
            questions_unknown = false;
          }))
          (file_claims-flatten_all p.pending h.0)
    at unknown q h =
        ap
          (λ reasons. shown (record {
            snapshot = record p.snapshot { source_integrity = unknown; unknown_reasons = reasons };
            pending = p.pending;
            questions_unknown = q;
          }))
          (append_unknown_reason-last p.snapshot.unknown_reasons (h.1 refl))

start-IsSound : (key : Text) → IsSound (start (initial_snapshot key none))
unfolding IsSound start initial_snapshot Filed
start-IsSound key = (tt, λ e. cc)

apply_events-append :
    (str_of : Value → Text) (dumps : Fields → Text) (es fs : List Event) (p q : Progress)
    → apply_events str_of dumps p es ≡ some q
    → apply_events str_of dumps p (es ++ fs) ≡ apply_events str_of dumps q fs
unfolding apply_events
apply_events-append str_of dumps [] fs p q h =
    ap (λ r. apply_events str_of dumps r fs) (some-injective p q h)
apply_events-append str_of dumps (e ∷ es) fs p q h =
    elim (Option-cases (apply_event str_of dumps p e)) [
      | inl n ↦ let raised : none ≡ some q = rw (n, apply_events) at h in cc
      | inr (r, s) ↦
          rw (s, apply_events)
            (apply_events-append str_of dumps es fs r q (rw (s, apply_events) at h))
    ]

finished-Alike : (a b : Option Progress) → Alike a b → finished a ≡ finished b
unfolding Alike finished
finished-Alike none none h = refl
finished-Alike none (some q) h = elim h [ ]
finished-Alike (some p) none h = elim h [ ]
finished-Alike (some p) (some q) h = ap some (finish-shown p ∙ (ap finish h ∙ sym (finish-shown q)))

module _ (str_of : Value → Text) (dumps : Fields → Text) where
  -- The snapshot is what the events leave, in a state that can be read back from it.
  abbrev pub Tracks : Text → List Event → SummarySnapshot → Type 0
  Tracks key es s =
      (p : Progress) × (apply_events str_of dumps (start (initial_snapshot key none)) es ≡ some p)
      × IsSound p
      × (s ≡ finish p)

  -- Events reduced from the snapshot of earlier events are reduced as all of them at once.
  pub reduce_claude_events-append :
      (key : Text) (es fs : List Event) (s : SummarySnapshot)
      → Tracks key es s
      → reduce_claude_events str_of dumps key fs (some s)
        ≡ reduce_claude_events str_of dumps key (es ++ fs) none
  unfolding reduce_claude_events initial_snapshot
  reduce_claude_events-append key es fs s (p, done, sound, e) = finished-Alike _ _ (
      rw (e, apply_events-append str_of dumps es fs _ p done)
        (events-Alike str_of dumps fs (start (finish p)) p (start-finish p sound)))

  -- What the reduction of all events together returns tracks them.
  pub reduce_claude_events-Tracks :
      (key : Text) (es : List Event) (s : SummarySnapshot)
      → All (Asking AsksSomething) es
      → reduce_claude_events str_of dumps key es none ≡ some s
      → Tracks key es s
  unfolding reduce_claude_events IfReturned finished
  reduce_claude_events-Tracks key es s asks h =
      on (apply_events str_of dumps (start (initial_snapshot key none)) es)
        (events_kept (IsSound-kept str_of dumps) es _ asks (start-IsSound key)) h
    where
      on :
          (a : Option Progress)
          → IfReturned IsSound a
          → finished a ≡ some s
          → (p : Progress) × (a ≡ some p) × IsSound p × (s ≡ finish p)
      on none k h = cc
      on (some p) k h = (p, refl, k, sym (some-injective (finish p) s h))
