-- ===== src/Ingest/Delivery.antt =====
-- What a tick hands to the extractor, against what a session's file holds.
use palaver.Prelude.{
  ℕ, suc, ◌≤◌, ◌==◌, List, [], ◌∷◌, ◌++◌, ◌≡◌, refl, sym, length, Option, if◌then◌else◌, Text,
  Bool-cases, inl, inr,
}
use mathlib.Core.List.{append-nil, append_assoc}
use palaver.Ingest.Tail.{read_complete_records}
use palaver.Ingest.Resume.{read_resume}
use palaver.Ingest.Keyed.{key_eq_refl}
use palaver.Ingest.Tick.{
  Event, SessionRef, SessionWork, Adapter, Observer, Verdict, deferred, failed, extracted, raised,
  key_of, load_cursor, goes_on, plan_refs, plan_tick, tick_work, tick_works, tick,
}
use palaver.Ingest.Verdicts.{cursor_by, extracts, tick_works-cursor}

-- The events of the sessions that were extracted.
unfoldable pub delivered : List (SessionWork × Verdict) → List Event
delivered [] = []
delivered ((work, extracted) ∷ vs) = work.events ++ delivered vs
delivered ((work, _) ∷ vs) = delivered vs

-- The loop of an adapter over the raw records that it has read: each adds the events that it makes.
unfoldable pub concat_map : {A : Type 0} → (Text → List A) → List Text → List A
concat_map parse [] = []
concat_map parse (raw ∷ records) = parse raw ++ concat_map parse records

concat_map-append :
    {A : Type 0} (parse : Text → List A) (records more : List Text)
    → concat_map parse (records ++ more) ≡ concat_map parse records ++ concat_map parse more
unfolding concat_map
concat_map-append parse [] more = refl
concat_map-append parse (raw ∷ records) more =
    rw (concat_map-append parse records more)
      (sym (append_assoc (parse raw) (concat_map parse records) (concat_map parse more)))

-- An adapter that finds one session and whose `tail` is that of
-- palaver/ingest/adapters/claude_code.py: it reads the complete records and makes of each, by
-- itself, some events, of a malformed one none and of a message with failed tools several. `parse`
-- is that making, with the session's key. The adapters of Codex, which puts a batch in order first,
-- and of opencode, which reads a database, are not of this form.
abbrev pub tailing : (Text → List Event) → Text → SessionRef → Adapter
tailing parse file ref = record {
  discovered = ref ∷ [];
  tail = λ path offset. (
    concat_map parse (read_complete_records file offset).0,
    (read_complete_records file offset).1,
  );
}

module _ (parse : Text → List Event) (file more : Text) (ref : SessionRef) where
  -- The events that a read of the grown file from an offset gives.
  abbrev pending : ℕ → List Event
  pending offset = concat_map parse (read_complete_records (file ++ more) offset).0

  abbrev work_from : ℕ → SessionWork
  work_from before = record {
    ref = ref;
    events = concat_map parse (read_complete_records file before).0;
    cursor_before = before;
    cursor_after = (read_complete_records file before).1;
  }

  verdict_conserves :
      (v : Verdict) (before : ℕ)
      → before ≤ length file
      → pending before
        ≡ delivered ((work_from before, v) ∷ [])
          ++ pending (cursor_by (key_of ref) ((work_from before, v) ∷ []) before)
  unfolding delivered cursor_by extracts
  verdict_conserves extracted before h =
      rw
        (
          key_eq_refl (key_of ref),
          append-nil (concat_map parse (read_complete_records file before).0),
          read_resume file more before h,
        )
        (concat_map-append parse (read_complete_records file before).0
          (read_complete_records (file ++ more) (read_complete_records file before).1).0)
  verdict_conserves deferred before h = refl
  verdict_conserves (failed e) before h = refl
  verdict_conserves raised before h = refl

  module _ {Db : Type 0} (extractor : SessionWork → Db → Option Text × Db) (rollback : Db → Db)
      (now : ℕ) where
    one_work :
        (work : SessionWork) (s : Observer Db)
        → (tick_works extractor rollback now (work ∷ []) s).1
          ≡ (work, (tick_work extractor rollback now work s).1) ∷ []
    unfolding tick_works
    one_work work s = elim (Bool-cases (goes_on (tick_work extractor rollback now work s).1)) [
      | inl e ↦ rw e refl
      | inr e ↦ rw e refl
    ]

    work_conserves :
        (s : Observer Db) (before : ℕ)
        → load_cursor s.cursors (key_of ref) ≡ before
        → before ≤ length file
        → let after = tick_works extractor rollback now (work_from before ∷ []) s in
          pending before ≡ delivered after.1 ++ pending (load_cursor after.0.cursors (key_of ref))
    work_conserves s before e h =
        rw
          (
            tick_works-cursor extractor rollback now (key_of ref) (work_from before ∷ []) s,
            one_work (work_from before) s,
            e,
          )
          (verdict_conserves (tick_work extractor rollback now (work_from before) s).1 before h)

    plan_one :
        (s : Observer Db)
        → let before = load_cursor s.cursors (key_of ref) in
          (plan_tick (tailing parse file ref ∷ []) s.cursors).scheduled
          ≡ (if (read_complete_records file before).1 == before then [] else work_from before ∷ [])
    unfolding plan_tick plan_refs
    plan_one s =
        let before = load_cursor s.cursors (key_of ref) in
        elim (Bool-cases ((read_complete_records file before).1 == before)) [
          | inl e ↦ rw e refl
          | inr e ↦ rw e refl
        ]

    none_conserves :
        (s : Observer Db)
        → let after = tick_works extractor rollback now [] s in
          pending (load_cursor s.cursors (key_of ref))
          ≡ delivered after.1 ++ pending (load_cursor after.0.cursors (key_of ref))
    unfolding tick_works delivered
    none_conserves s = refl

    -- Let the adapter find one session, read its file with `read_complete_records` and make of each
    -- record by itself a list of events, as Claude Code's does, and let the session's cursor stand
    -- inside the file. What a tick delivers is the events of the extractions that return. Then
    -- nothing is lost and nothing delivered twice: whatever is appended to the file later, the events that were still to be read before the tick are those
    -- delivered and then those still to be read after it, be the session extracted, failed, deferred
    -- or skipped, and also if the tick raises.
    pub tick_conserves :
        (s : Observer Db)
        → load_cursor s.cursors (key_of ref) ≤ length file
        → let after = tick extractor rollback now (tailing parse file ref ∷ []) s in
          concat_map parse
            (read_complete_records (file ++ more) (load_cursor s.cursors (key_of ref))).0
          ≡ delivered after.1
            ++ concat_map parse
                (read_complete_records (file ++ more) (load_cursor after.0.cursors (key_of ref))).0
    unfolding tick
    tick_conserves s h =
        let before = load_cursor s.cursors (key_of ref) in
        elim (Bool-cases ((read_complete_records file before).1 == before)) [
          | inl e ↦ rw (plan_one s, e) (none_conserves (record s { ticks = suc s.ticks }))
          | inr e ↦
              rw (plan_one s, e) (work_conserves (record s { ticks = suc s.ticks }) before refl h)
        ]
