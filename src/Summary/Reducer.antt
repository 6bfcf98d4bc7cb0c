-- ===== src/Summary/Reducer.antt =====
-- palaver/summary/reducer.py: the reduction of a whole transcript, and the reducer that is fed with
-- what a session's file has grown by. `none` is the `TypeError` of the loop.
use palaver.Prelude.{
  ℕ, ◌+◌, Bool, not, Option, none, some, List, [], ◌∷◌, ◌++◌, ◌==◌, if◌then◌else◌, Text, codes,
  text_eq,
}
use palaver.Summary.Model.{SummarySnapshot, new_snapshot, with_unknown, malformed_reason}
use palaver.Summary.ClaudeCode.{Event}
use palaver.Summary.Reduce.{reduce_claude_events}
use palaver.Summary.CodexReduce.{Runtime, reduce_codex_events}

-- `snapshot.with_unknown(...)` if records were malformed.
unfoldable pub with_malformed : ℕ → SummarySnapshot → SummarySnapshot
unfolding with_unknown malformed_reason
with_malformed n s = if not (n == 0) then with_unknown s (malformed_reason n) else s

-- `_apply_events`.
unfoldable pub apply_source_events :
    Runtime → Text → Text → List Event → Option SummarySnapshot → Option SummarySnapshot
unfolding reduce_claude_events reduce_codex_events new_snapshot with_unknown
apply_source_events run_time source key events initial =
    if text_eq source (codes "claude-code")
    then reduce_claude_events run_time.str_of run_time.dumps key events initial
    else if text_eq source (codes "codex")
    then reduce_codex_events run_time key events initial
    else some
        (with_unknown (new_snapshot source key) (codes "unsupported summary source: " ++ source))

-- `reduce_events`. An unsupported source does not count the malformed records.
unfoldable pub reduce_events : Runtime → Text → Text → List Event → ℕ → Option SummarySnapshot
unfolding reduce_claude_events reduce_codex_events new_snapshot with_unknown with_malformed
reduce_events run_time source key events malformed =
    if text_eq source (codes "claude-code")
    then counted (reduce_claude_events run_time.str_of run_time.dumps key events none)
    else if text_eq source (codes "codex")
    then counted (reduce_codex_events run_time key events none)
    else some
        (with_unknown (new_snapshot source key) (codes "unsupported summary source: " ++ source))
  where
    counted : Option SummarySnapshot → Option SummarySnapshot
    counted none = none
    counted (some s) = some (with_malformed malformed s)

pub record SummaryReducer : Type 0 where
  pub source : Text
  pub session_key : Text
  pub snapshot : SummarySnapshot
  pub malformed_records : ℕ

-- `SummaryReducer.__init__`.
unfoldable pub new_reducer : Runtime → Text → Text → Option SummaryReducer
unfolding apply_source_events
new_reducer run_time source key = elim (apply_source_events run_time source key [] none) [
  | none ↦ none
  | some s ↦
      some (record { source = source; session_key = key; snapshot = s; malformed_records = 0 })
]

-- `SummaryReducer.snapshot`.
unfoldable pub current_snapshot : SummaryReducer → SummarySnapshot
unfolding with_malformed
current_snapshot r = with_malformed r.malformed_records r.snapshot

-- The arguments of `SummaryReducer.feed`.
pub record Batch : Type 0 where
  pub events : List Event
  pub malformed : ℕ
  pub replaces : Bool

-- `SummaryReducer.feed`: the reducer afterwards, whose `current_snapshot` is returned.
unfoldable pub feed : Runtime → SummaryReducer → Batch → Option SummaryReducer
unfolding apply_source_events
feed run_time r b =
    let initial = if b.replaces then none else some r.snapshot in
    elim (apply_source_events run_time r.source r.session_key b.events initial) [
      | none ↦ none
      | some s ↦ some (record r {
        snapshot = s;
        malformed_records = if b.replaces then b.malformed else r.malformed_records + b.malformed;
      })
    ]

unfoldable pub feed_all : Runtime → SummaryReducer → List Batch → Option SummaryReducer
unfolding feed
feed_all run_time r [] = some r
feed_all run_time r (b ∷ bs) = elim (feed run_time r b) [
  | none ↦ none
  | some after ↦ feed_all run_time after bs
]
