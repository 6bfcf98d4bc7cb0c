-- ===== src/Summary/Following.antt =====
-- palaver/ui/companion_update.py: the panel's summary of a Claude Code session against one reduction
-- of its file.
use palaver.Prelude.{
  ℕ, ◌+◌, ◌<◌, Option, none, some, List, [], ◌∷◌, ◌++◌, All, length, Text, ◌≡◌, refl, sym, ap, ◌∙◌,
  ◌⊎◌, arith,
}
use mathlib.Core.List.{append_assoc}
use palaver.Json.{Value}
use palaver.Ingest.Tail.{read_complete_records}
use palaver.Summary.Model.{SummarySnapshot}
use palaver.Summary.ClaudeCode.{Event}
use palaver.Summary.CodexReduce.{Runtime}
use palaver.Summary.Readable.{IsReadable}
use palaver.Summary.Fed.{whole, reducer_at}
use palaver.Summary.Tailing.{after_line, line_events, tail_records, Followed}

-- The events and malformed records of two parts of a file.
abbrev pub joined : Option (List Event × ℕ) → Option (List Event × ℕ) → Option (List Event × ℕ)
joined none b = none
joined (some a) none = none
joined (some (es, n)) (some (fs, m)) = some (es ++ fs, n + m)

joined-none : (b : Option (List Event × ℕ)) → b ≡ joined (some ([], 0)) b
joined-none none = refl
joined-none (some (fs, m)) = ap (λ k. some (fs, k)) (omega arith)

after_line-joined :
    (line : Option (Option (List Event))) (a b : Option (List Event × ℕ))
    → after_line line (joined a b) ≡ joined (after_line line a) b
unfolding after_line
after_line-joined none none b = refl
after_line-joined none (some (es, n)) none = refl
after_line-joined none (some (es, n)) (some (fs, m)) = ap (λ k. some (es ++ fs, k)) (omega arith)
after_line-joined (some none) a b = refl
after_line-joined (some (some found)) none b = refl
after_line-joined (some (some found)) (some (es, n)) none = refl
after_line-joined (some (some found)) (some (es, n)) (some (fs, m)) =
    ap (λ gs. some (gs, n + m)) (sym (append_assoc found es fs))

-- How a file may change between two readings: it grows, or it is replaced by one that is shorter
-- than what was read.
abbrev pub Evolves : Text → Text → Type 0
Evolves file next =
    ((more : Text) × (next ≡ file ++ more)) ⊎ (length next < (read_complete_records file 0).1)

module _ (key : Text) (loads : Text → Option Value) where
  pub tail_records-append :
      (a b : List Text)
      → tail_records key loads (a ++ b)
        ≡ joined (tail_records key loads a) (tail_records key loads b)
  unfolding tail_records
  tail_records-append [] b = joined-none (tail_records key loads b)
  tail_records-append (raw ∷ a) b =
      ap (after_line (line_events key loads raw)) (tail_records-append a b)
      ∙ after_line-joined (line_events key loads raw) (tail_records key loads a)
          (tail_records key loads b)

  -- What a reading of the whole file finds.
  abbrev pub read_whole : Text → Option (List Event × ℕ)
  read_whole file = tail_records key loads (read_complete_records file 0).0

  -- The file can be read, and each of its events.
  abbrev pub IsReadableFile : Text → Type 0
  IsReadableFile file =
      (es : List Event) × (n : ℕ) × (read_whole file ≡ some (es, n)) × All IsReadable es

  module _ (run_time : Runtime) where
    -- The reducer and the offset are those of the file.
    abbrev pub Follows : Text → Followed → Type 0
    Follows file f =
        (es : List Event) × (n : ℕ) × (s : SummarySnapshot) × (read_whole file ≡ some (es, n))
        × All IsReadable es
        × (whole run_time key es ≡ some s)
        × (f ≡ record {
          reducer = reducer_at run_time key s n;
          offset = (read_complete_records file 0).1;
        })
