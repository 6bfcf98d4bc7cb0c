-- ===== src/Summary/Limits.antt =====
-- palaver/summary/claude_code.py: whatever the events are, the snapshot is within its limits.
use palaver.Prelude.{
  ◌≤◌, Bool, true, false, Option, none, some, List, [], ◌∷◌, All, length, Text, ◌≡◌, refl, sym,
  arith,
}
use mathlib.Core.Option.{some-injective}
use palaver.Json.{Value, obj, Fields, get, equals}
use palaver.Summary.Model.{
  collection, unknown_collection, Provenance, exact, structural, unknown, SummarySnapshot,
  with_unknown, max_collection_items,
}
use palaver.Summary.Collections.{open_count, pending_questions}
use palaver.Summary.ClaudeCode.{Event, Progress}
use palaver.Summary.Reduce.{
  start, finish, listed_questions, apply_events, initial_snapshot, finished, reduce_claude_events,
}
use palaver.Summary.Preserved.{Asking, IfReturned, events_kept}
use palaver.Summary.Bounds.{append_unknown_reason-length, file_claims-open_count, flatten-length}
use palaver.Summary.Bounded.{IsBounded, IsWithin, IsWithin-kept}

start-IsWithin : (s : SummarySnapshot) → IsBounded s → IsWithin (start s)
unfolding start pending_questions IsBounded IsWithin open_count
start-IsWithin s (recent, tasks, questions, background, reasons) =
    (recent, tasks, omega (arith, file_claims-open_count [] s.questions.items), background, reasons)

listed :
    (p : Progress) (q : Bool)
    → open_count p.pending ≤ max_collection_items
    → length (listed_questions p.pending q).items ≤ max_collection_items
unfolding listed_questions collection unknown_collection
listed p true h = omega arith
listed p false h = omega (arith, flatten-length p.pending)

finish-IsBounded : (p : Progress) → IsWithin p → IsBounded (finish p)
unfolding finish IsBounded IsWithin with_unknown
finish-IsBounded p h = at p.snapshot.source_integrity p.questions_unknown h
  where
    at :
        (i : Provenance) (q : Bool)
        → let r = record p {
          snapshot = record p.snapshot { source_integrity = i };
          questions_unknown = q;
        } in
          IsWithin r → IsBounded (finish r)
    at unknown q (recent, tasks, questions, background, reasons) = (
      recent,
      omega arith,
      omega arith,
      background,
      append_unknown_reason-length p.snapshot.unknown_reasons _ reasons,
    )
    at exact q (recent, tasks, questions, background, reasons) =
        (recent, tasks, listed p q questions, background, reasons)
    at structural q (recent, tasks, questions, background, reasons) =
        (recent, tasks, listed p q questions, background, reasons)

new-IsBounded : (key : Text) → IsBounded (initial_snapshot key none)
unfolding IsBounded initial_snapshot
new-IsBounded key = (omega arith, omega arith, omega arith, omega arith, omega arith)

unasked : (es : List Event) → All (Asking (λ b. Unit)) es
unfolding Asking
unasked [] = tt
unasked (e ∷ es) = (at e.payload, unasked es)
  where
    calls :
        (bs : List Fields) → All (λ b. equals (get b "name") "AskUserQuestion" ≡ true → Unit {0}) bs
    calls [] = tt
    calls (b ∷ bs) = (λ e. tt, calls bs)

    at : (v : Value) → Asking (λ b. Unit) (record e { payload = v })
    at (obj r) = calls _
    at _ = tt

-- A snapshot that is within its limits, as a new one is, leads to a snapshot within its limits: at
-- most 8 recent activities, 32 tasks, 32 open questions, 32 background tasks and 8 reasons, whatever
-- the events are and however many.
pub reduce_claude_events-IsBounded :
    (str_of : Value → Text) (dumps : Fields → Text) (key : Text) (es : List Event)
    (initial : Option SummarySnapshot) (s : SummarySnapshot)
    → ((t : SummarySnapshot) → initial ≡ some t → IsBounded t)
    → reduce_claude_events str_of dumps key es initial ≡ some s
    → IsBounded s
unfolding reduce_claude_events finished IfReturned
reduce_claude_events-IsBounded str_of dumps key es initial s bounded h =
    on (apply_events str_of dumps (start (initial_snapshot key initial)) es)
      (events_kept (IsWithin-kept str_of dumps) es _ (unasked es) (from initial bounded)) h
  where
    from :
        (o : Option SummarySnapshot)
        → ((t : SummarySnapshot) → o ≡ some t → IsBounded t)
        → IsWithin (start (initial_snapshot key o))
    from none bounded = start-IsWithin (initial_snapshot key none) (new-IsBounded key)
    from (some t) bounded = start-IsWithin t (bounded t refl)

    on : (a : Option Progress) → IfReturned IsWithin a → finished a ≡ some s → IsBounded s
    on none k e = cc
    on (some p) k e = rw (sym (some-injective (finish p) s e)) (finish-IsBounded p k)
