-- ===== src/Summary/Companion.antt =====
-- palaver/ui/companion_update.py: the readings of the panel, one after the other.
use palaver.Prelude.{ℕ, Option, none, some, List, [], ◌∷◌, Text, codes, ◌≡◌, refl, sym, inl, inr}
use mathlib.Core.Path.{subst}
use palaver.Json.{Value}
use palaver.Ingest.Tail.{read_complete_records, effective_offset, split_lines, nonempty_lines}
use palaver.Summary.Model.{SummarySnapshot}
use palaver.Summary.ClaudeCode.{Event}
use palaver.Summary.CodexReduce.{Runtime}
use palaver.Summary.Reduce.{reduce_claude_events, start, finish, initial_snapshot}
use palaver.Summary.Reducer.{
  SummaryReducer, apply_source_events, reduce_events, new_reducer, current_snapshot,
}
use palaver.Summary.Fed.{whole, reducer_at}
use palaver.Summary.Panel.{Refreshed, grown-Follows, shrunk-Follows}
use palaver.Summary.Tailing.{tail_records, tail, Followed, refresh_all}
use palaver.Summary.Following.{read_whole, IsReadableFile, Follows, Evolves}

-- The file as it is read last.
abbrev pub last_file : Text → List Text → Text
last_file file [] = file
last_file file (next ∷ files) = last_file next files

-- Each file is what the one before it may have become, and can be read.
abbrev pub AllEvolve : Text → (Text → Option Value) → Text → List Text → Type 0
AllEvolve key loads file [] = Unit
AllEvolve key loads file (next ∷ files) =
    Evolves file next × IsReadableFile key loads next × AllEvolve key loads next files

module _ (key : Text) (loads : Text → Option Value) (run_time : Runtime) where
  refreshes-Follows :
      (files : List Text) (file : Text) (f : Followed)
      → Follows key loads run_time file f
      → AllEvolve key loads file files
      → (g : Followed) × (refresh_all run_time (tail key loads) f files ≡ some g)
        × Follows key loads run_time (last_file file files) g
  unfolding refresh_all
  refreshes-Follows [] file f h all_ = (f, refl, h)
  refreshes-Follows (next ∷ files) file f h (evolves, readable, all_) =
      let (g, done, follows) = step evolves in
      rw (done, refresh_all) (refreshes-Follows files next g follows all_)
    where
      step : Evolves file next → Refreshed key loads run_time next f
      step (inl (more, e)) =
          subst (λ x. Refreshed key loads run_time x f) (sym e)
            (grown-Follows key loads run_time file more f h
              (subst (λ x. IsReadableFile key loads x) e readable))
      step (inr short) = shrunk-Follows key loads run_time file next f h readable short

-- The snapshot of an empty file.
abbrev empty_snapshot : Text → SummarySnapshot
empty_snapshot key = finish (start (initial_snapshot key none))

-- A new reducer follows the empty file.
empty-Follows :
    (key : Text) (loads : Text → Option Value) (run_time : Runtime)
    → Follows key loads run_time []
        (record { reducer = reducer_at run_time key (empty_snapshot key) 0; offset = 0 })
unfolding whole reduce_claude_events tail_records read_complete_records effective_offset split_lines
    nonempty_lines
empty-Follows key loads run_time = ([], 0, empty_snapshot key, refl, tt, refl, refl)

-- The panel of a Claude Code session, however often it is refreshed while the file grows by any
-- bytes or is replaced by one shorter than what was read, raises nowhere, and shows the same
-- snapshot as one reduction of the events and malformed records of the file as it was last, provided
-- that each of these files can be tailed, that the `type` of each event's record is no list and no
-- dictionary, and that every call of `AskUserQuestion` that can be read has a question.
pub refresh_all-reduce_events :
    (key : Text) (loads : Text → Option Value) (run_time : Runtime) (files : List Text)
    → AllEvolve key loads [] files
    → (r : SummaryReducer) × (g : Followed) × (es : List Event) × (n : ℕ) × (new_reducer run_time
          (codes "claude-code")
          key
        ≡ some r)
      × (refresh_all run_time (tail key loads) (record { reducer = r; offset = 0 }) files ≡ some g)
      × (read_whole key loads (last_file [] files) ≡ some (es, n))
      × (reduce_events run_time (codes "claude-code") key es n ≡ some (current_snapshot g.reducer))
unfolding new_reducer reduce_events current_snapshot apply_source_events whole reduce_claude_events
refresh_all-reduce_events key loads run_time files h =
    let (g, done, (es, n, s, found, readable, reduced, e)) =
      refreshes-Follows key loads run_time files [] _ (empty-Follows key loads run_time) h in
    (
      reducer_at run_time key (empty_snapshot key) 0,
      g,
      es,
      n,
      refl,
      done,
      found,
      rw (reduced, whole, e) refl,
    )
