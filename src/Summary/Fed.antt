-- ===== src/Summary/Fed.antt =====
-- palaver/summary/reducer.py: the reducer that is fed piece by piece against the reduction of the
-- whole.
use palaver.Prelude.{
  ℕ, ◌+◌, Bool, true, false, Option, none, some, List, [], ◌∷◌, ◌++◌, All, if◌then◌else◌, Text,
  codes, ◌≡◌, refl, ◌∙◌,
}
use palaver.Summary.Model.{SummarySnapshot}
use palaver.Summary.ClaudeCode.{Event}
use palaver.Summary.Reduce.{reduce_claude_events}
use palaver.Summary.CodexReduce.{Runtime}
use palaver.Summary.Reducer.{
  SummaryReducer, Batch, apply_source_events, reduce_events, new_reducer, current_snapshot, feed,
  feed_all,
}
use palaver.Summary.Reduce.{start, finish, initial_snapshot}
use palaver.Summary.Preserved.{Asking}
use palaver.Summary.Sound.{AsksSomething}
use palaver.Summary.Readable.{IsReadable, reduction_returns}
use palaver.Summary.Resume.{reduce_claude_events-append, reduce_claude_events-Tracks}

-- The events that a reducer stands for: those of the last batch that replaces, and after it.
abbrev pub events_fed : List Event → List Batch → List Event
events_fed es [] = es
events_fed es (b ∷ bs) = events_fed (if b.replaces then b.events else es ++ b.events) bs

-- The malformed records since then.
abbrev pub malformed_fed : ℕ → List Batch → ℕ
malformed_fed n [] = n
malformed_fed n (b ∷ bs) = malformed_fed (if b.replaces then b.malformed else n + b.malformed) bs

module _ (run_time : Runtime) (key : Text) where
  unfoldable pub whole : List Event → Option SummarySnapshot
  whole es = reduce_claude_events run_time.str_of run_time.dumps key es none

  abbrev pub reducer_at : SummarySnapshot → ℕ → SummaryReducer
  reducer_at s n = record {
    source = codes "claude-code";
    session_key = key;
    snapshot = s;
    malformed_records = n;
  }

  -- A feed returns what the source's reduction returns.
  feed-some :
      (r : SummaryReducer) (b : Batch) (t : SummarySnapshot)
      → apply_source_events run_time r.source r.session_key b.events
          (if b.replaces then none else some r.snapshot)
        ≡ some t
      → feed run_time r b
        ≡ some (record r {
          snapshot = t;
          malformed_records = if b.replaces then b.malformed else r.malformed_records + b.malformed;
        })
  unfolding feed
  feed-some r b t h = rw (h, feed) refl

  claude_source :
      (es : List Event) (initial : Option SummarySnapshot)
      → apply_source_events run_time (codes "claude-code") key es initial
        ≡ reduce_claude_events run_time.str_of run_time.dumps key es initial
  unfolding apply_source_events
  claude_source es initial = refl

  asking : (es : List Event) → All IsReadable es → All (Asking AsksSomething) es
  asking [] h = tt
  asking (e ∷ es) ((_, asks), h) = (asks, asking es h)

  All-append :
      (es fs : List Event) → All IsReadable es → All IsReadable fs → All IsReadable (es ++ fs)
  All-append [] fs h k = k
  All-append (e ∷ es) fs (x, h) k = (x, All-append es fs h k)

  -- The reducer that stands for the events does after a batch.
  pub feed-whole :
      (es : List Event) (n : ℕ) (s : SummarySnapshot) (b : Batch)
      → All IsReadable es
      → All IsReadable b.events
      → whole es ≡ some s
      → let after = if b.replaces then b.events else es ++ b.events in
        All IsReadable after
        × ((t : SummarySnapshot) × (whole after ≡ some t)
            × (feed run_time (reducer_at s n) b
                ≡ some (reducer_at t (if b.replaces then b.malformed else n + b.malformed))))
  unfolding whole
  feed-whole es n s b old new h = at b.replaces
    where
      at :
          (replaces : Bool)
          → let c : Batch = record b { replaces = replaces } in
            let after = if replaces then b.events else es ++ b.events in
            All IsReadable after
            × ((t : SummarySnapshot) × (whole after ≡ some t)
                × (feed run_time (reducer_at s n) c
                    ≡ some (reducer_at t (if replaces then b.malformed else n + b.malformed))))
      at true =
          let (t, e) = reduction_returns run_time.str_of run_time.dumps key b.events new in
          (
            new,
            (
              t,
              e,
              feed-some (reducer_at s n) (record b { replaces = true }) t
                  (claude_source b.events none ∙ e),
            ),
          )
      at false =
          let readable = All-append es b.events old new in
          let (t, e) =
            reduction_returns run_time.str_of run_time.dumps key (es ++ b.events) readable in
          let tracked =
            reduce_claude_events-Tracks run_time.str_of run_time.dumps key es s (asking es old) h in
          let same =
            reduce_claude_events-append run_time.str_of run_time.dumps key es b.events s tracked in
          (
            readable,
            (
              t,
              e,
              feed-some (reducer_at s n) (record b { replaces = false }) t
                  (claude_source b.events (some s) ∙ (same ∙ e)),
            ),
          )

  feeds_whole :
      (bs : List Batch) (es : List Event) (n : ℕ) (s : SummarySnapshot)
      → All IsReadable es
      → All (λ b. All IsReadable b.events) bs
      → whole es ≡ some s
      → (t : SummarySnapshot) × (whole (events_fed es bs) ≡ some t)
        × (feed_all run_time (reducer_at s n) bs ≡ some (reducer_at t (malformed_fed n bs)))
  unfolding feed_all
  feeds_whole [] es n s old new h = (s, h, refl)
  feeds_whole (b ∷ bs) es n s old (fresh, new) h =
      let (readable, (t, e, fed)) = feed-whole es n s b old fresh h in
      rw (fed, feed_all)
        (feeds_whole bs (if b.replaces then b.events else es ++ b.events)
          (if b.replaces then b.malformed else n + b.malformed) t readable new e)

-- A reducer for Claude Code that is fed any batches, whether they append to the events before them
-- or replace them, raises nowhere and shows the same snapshot as one reduction of all events since
-- the last replacement, with the malformed records since then, provided that the `type` of each
-- record is no list and no dictionary and that every call of `AskUserQuestion` that can be read has
-- a question.
pub feed_all-reduce_events :
    (run_time : Runtime) (key : Text) (bs : List Batch)
    → All (λ b. All IsReadable b.events) bs
    → (r s : SummaryReducer) × (new_reducer run_time (codes "claude-code") key ≡ some r)
      × (feed_all run_time r bs ≡ some s)
      × (reduce_events run_time (codes "claude-code") key (events_fed [] bs) (malformed_fed 0 bs)
          ≡ some (current_snapshot s))
unfolding new_reducer reduce_events current_snapshot apply_source_events whole reduce_claude_events
feed_all-reduce_events run_time key bs h =
    let (t, e, fed) = feeds_whole run_time key bs [] 0 empty tt h started in
    (
      reducer_at run_time key empty 0,
      reducer_at run_time key t (malformed_fed 0 bs),
      refl,
      fed,
      rw (e, whole) refl,
    )
  where
    empty : SummarySnapshot
    empty = finish (start (initial_snapshot key none))

    started : whole run_time key [] ≡ some empty
    started = refl
