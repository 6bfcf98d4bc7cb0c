-- ===== src/Ingest/Verdicts.antt =====
-- What a tick leaves behind: the cursors, by the verdicts, and which sessions it reaches.
use palaver.Prelude.{
  ℕ, suc, ◌+◌, ◌≤◌, ◌<◌, ltb, Bool, true, false, List, [], ◌∷◌, map, ◌≡◌, refl, ap, ◌∙◌, arith,
  length, if◌then◌else◌, Text, Option, none, some, Bool-cases, inl, inr, lt→ltb,
}
use palaver.Ingest.Keyed.{
  Key, key_eq, find_entry, put_entry, find_entry-put_entry, find_entry-put_entry_ne, eq_of_key_eq,
}
use palaver.Ingest.Tick.{
  SessionWork, CursorStore, Observer, Backoff, Verdict, extracted, offset_from, legacy_entry,
  load_cursor, save_cursor, key_of, record_failure, attempts_of, after_failure, after_extraction,
  must_wait, tick_work, tick_works, goes_on,
}
use palaver.Ingest.Backoff.{attempts_of-remove_entry, attempts_of-put_failure}

-- Whether a verdict is `extracted`, on a session with the key.
unfoldable pub extracts : Key → SessionWork × Verdict → Bool
extracts k (work, extracted) = key_eq k (key_of work.ref)
extracts k (work, _) = false

-- The cursor of a key after a log of verdicts: that of its last extraction.
unfoldable pub cursor_by : Key → List (SessionWork × Verdict) → ℕ → ℕ
cursor_by k [] before = before
cursor_by k (v ∷ vs) before = cursor_by k vs (if extracts k v then v.0.cursor_after else before)

offset_from-some : (n : ℕ) (legacy : Option ℕ) → offset_from (some n) legacy ≡ n
unfolding offset_from
offset_from-some n legacy = refl

load_cursor-save_cursor :
    (s : CursorStore) (j k : Key) (offset : ℕ)
    → load_cursor (save_cursor s k offset) j ≡ (if key_eq j k then offset else load_cursor s j)
unfolding load_cursor save_cursor legacy_entry
load_cursor-save_cursor s j k offset = elim (Bool-cases (key_eq j k)) [
  | inl e ↦
      let same : find_entry j (put_entry k offset s.entries) ≡ some offset =
        ap (λ i. find_entry i (put_entry k offset s.entries)) (eq_of_key_eq j k e)
        ∙ find_entry-put_entry k offset s.entries in
      rw e (
        ap (λ o. offset_from o (legacy_entry s j)) same
        ∙ offset_from-some offset (legacy_entry s j))
  | inr e ↦
      rw e (
        ap (λ o. offset_from o (legacy_entry s j)) (find_entry-put_entry_ne j k offset s.entries e))
]

module _ {Db : Type 0} (extractor : SessionWork → Db → Option Text × Db) (rollback : Db → Db)
    (now : ℕ) where
  -- The cursors after one session carry what its verdict says.
  after_failure-cursor :
      (k : Key) (work : SessionWork) (error : Text) (db : Db) (s : Observer Db)
      (es : Option (List (Key × Backoff)))
      → let after = after_failure extractor rollback now error db s es in
        load_cursor after.0.cursors k ≡ cursor_by k ((work, after.1) ∷ []) (load_cursor s.cursors k)
  unfolding after_failure cursor_by extracts
  after_failure-cursor k work error db s none = refl
  after_failure-cursor k work error db s (some es) = refl

  after_extraction-cursor :
      (k : Key) (work : SessionWork) (s : Observer Db) (r : Option Text × Db)
      → let after = after_extraction extractor rollback now work s r in
        load_cursor after.0.cursors k ≡ cursor_by k ((work, after.1) ∷ []) (load_cursor s.cursors k)
  unfolding after_extraction cursor_by extracts
  after_extraction-cursor k work s (some error, db) =
      after_failure-cursor k work error db s (record_failure s.backoff (key_of work.ref) now)
  after_extraction-cursor k work s (none, db) =
      load_cursor-save_cursor s.cursors k (key_of work.ref) work.cursor_after

  tick_work-cursor :
      (k : Key) (work : SessionWork) (s : Observer Db)
      → let after = tick_work extractor rollback now work s in
        load_cursor after.0.cursors k ≡ cursor_by k ((work, after.1) ∷ []) (load_cursor s.cursors k)
  unfolding tick_work cursor_by extracts
  tick_work-cursor k work s = elim (Bool-cases (must_wait now s.backoff (key_of work.ref))) [
    | inl e ↦ rw e refl
    | inr e ↦ rw e (after_extraction-cursor k work s (extractor work s.db))
  ]

  -- After the loop over the scheduled sessions, the cursor of a session is the one that its last
  -- extraction carries, and the cursor from before where none of its extractions succeeded: a
  -- deferred or failed session is read again from the same place.
  pub tick_works-cursor :
      (k : Key) (works : List SessionWork) (s : Observer Db)
      → let after = tick_works extractor rollback now works s in
        load_cursor after.0.cursors k ≡ cursor_by k after.1 (load_cursor s.cursors k)
  unfolding tick_works cursor_by
  tick_works-cursor k [] s = refl
  tick_works-cursor k (work ∷ works) s =
      let (s', verdict) = tick_work extractor rollback now work s in
      let one : load_cursor s'.cursors k
          ≡ cursor_by k ((work, verdict) ∷ []) (load_cursor s.cursors k) =
        tick_work-cursor k work s in
      elim (Bool-cases (goes_on verdict)) [
        | inl e ↦ rw e (
            tick_works-cursor k works s'
            ∙ ap (cursor_by k (tick_works extractor rollback now works s').1) one)
        | inr e ↦ rw e one
      ]

  attempts_grow_failure :
      (k j : Key) (error : Text) (db : Db) (s : Observer Db)
      → let after =
          after_failure extractor rollback now error db s (record_failure s.backoff j now) in
        attempts_of after.0.backoff k ≤ suc (attempts_of s.backoff k)
  unfolding after_failure record_failure
  attempts_grow_failure k j error db s = elim (Bool-cases (ltb (attempts_of s.backoff j) 1024)) [
    | inl e ↦ rw e (attempts_of-put_failure s.backoff k j now)
    | inr e ↦ rw e (omega arith)
  ]

  attempts_grow_extraction :
      (k : Key) (work : SessionWork) (s : Observer Db) (r : Option Text × Db)
      → attempts_of (after_extraction extractor rollback now work s r).0.backoff k
        ≤ suc (attempts_of s.backoff k)
  unfolding after_extraction
  attempts_grow_extraction k work s (some error, db) =
      attempts_grow_failure k (key_of work.ref) error db s
  attempts_grow_extraction k work s (none, db) =
      omega (arith, attempts_of-remove_entry s.backoff k (key_of work.ref))

  attempts_grow :
      (k : Key) (work : SessionWork) (s : Observer Db)
      → attempts_of (tick_work extractor rollback now work s).0.backoff k
        ≤ suc (attempts_of s.backoff k)
  unfolding tick_work
  attempts_grow k work s = elim (Bool-cases (must_wait now s.backoff (key_of work.ref))) [
    | inl e ↦ rw e (omega arith)
    | inr e ↦ rw e (attempts_grow_extraction k work s (extractor work s.db))
  ]

  failure_goes_on :
      (j : Key) (error : Text) (db : Db) (s : Observer Db)
      → attempts_of s.backoff j < 1024
      → goes_on (after_failure extractor rollback now error db s (record_failure s.backoff j now)).1
        ≡ true
  unfolding after_failure record_failure goes_on
  failure_goes_on j error db s h = rw (lt→ltb (attempts_of s.backoff j) 1024 h) refl

  extraction_goes_on :
      (work : SessionWork) (s : Observer Db) (r : Option Text × Db)
      → attempts_of s.backoff (key_of work.ref) < 1024
      → goes_on (after_extraction extractor rollback now work s r).1 ≡ true
  unfolding after_extraction goes_on
  extraction_goes_on work s (some error, db) h = failure_goes_on (key_of work.ref) error db s h
  extraction_goes_on work s (none, db) h = refl

  work_goes_on :
      (work : SessionWork) (s : Observer Db)
      → attempts_of s.backoff (key_of work.ref) < 1024
      → goes_on (tick_work extractor rollback now work s).1 ≡ true
  unfolding tick_work goes_on
  work_goes_on work s h = elim (Bool-cases (must_wait now s.backoff (key_of work.ref))) [
    | inl e ↦ rw e refl
    | inr e ↦ rw e (extraction_goes_on work s (extractor work s.db) h)
  ]

  -- If every session's recorded failures leave room for one more per scheduled session below
  -- 1025, the loop reaches every scheduled session, whatever the extractions do: no failure of one
  -- session stops the others.
  pub tick_works_reaches_all :
      (works : List SessionWork) (s : Observer Db)
      → ((k : Key) → attempts_of s.backoff k + length works ≤ 1024)
      → map (λ v. v.0) (tick_works extractor rollback now works s).1 ≡ works
  unfolding tick_works
  tick_works_reaches_all [] s h = refl
  tick_works_reaches_all (work ∷ works) s h =
      let s' = (tick_work extractor rollback now work s).0 in
      let below : (k : Key) → attempts_of s'.backoff k + length works ≤ 1024 =
        λ k. omega (arith, attempts_grow k work s, h k) in
      rw (work_goes_on work s (omega (arith, h (key_of work.ref))))
        (ap (λ l. work ∷ l) (tick_works_reaches_all works s' below))
