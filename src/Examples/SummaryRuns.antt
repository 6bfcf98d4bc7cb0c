-- ===== src/Examples/SummaryRuns.antt =====
-- Runs of palaver/summary and of the panel on small transcripts.
use palaver.Prelude.{
  ℕ, ◌≤◌, false, Option, none, some, List, [], ◌∷◌, ◌++◌, All, length, if◌then◌else◌, Text, codes,
  text_eq, ◌≡◌, ◌≢◌, refl, inl, inr, arith,
}
use palaver.Json.{Value, bool, str, arr, obj, nil, cons, Fields, end, field, get, equals}
use palaver.Summary.Sanitize.{sanitize_text}
use palaver.Summary.Displayed.{IsPlain, sanitize_text-IsPlain}
use palaver.Summary.Model.{Claim, exact_claim, SummarySnapshot, new_snapshot}
use palaver.Summary.ClaudeCode.{Event, asked_claims}
use palaver.Summary.Reduce.{reduce_claude_events}
use palaver.Summary.CodexReduce.{Runtime}
use palaver.Summary.Reducer.{
  SummaryReducer, Batch, reduce_events, new_reducer, current_snapshot, feed_all,
}
use palaver.Summary.Preserved.{Asking}
use palaver.Summary.Sound.{AsksSomething}
use palaver.Ingest.Tail.{read_complete_records}
use palaver.Summary.Readable.{IsTyped, IsReadable}
use palaver.Summary.Limits.{reduce_claude_events-IsBounded}
use palaver.Summary.Bounded.{IsBounded}
use palaver.Summary.Fed.{events_fed, malformed_fed, feed_all-reduce_events}
use palaver.Summary.Following.{read_whole}
use palaver.Summary.Tailing.{tail, tail_records, Followed, refresh_all}
use palaver.Summary.Companion.{last_file, AllEvolve, refresh_all-reduce_events}

-- A human's message, a question of the agent and the answer.
abbrev said_record : Value
said_record = obj (
    field (codes "type") (str (codes "user"))
      (field (codes "message") (obj (field (codes "content") (str (codes "Hi")) end)) end))

abbrev call_block : Fields
call_block = field (codes "type") (str (codes "tool_use")) (
    field (codes "name") (str (codes "AskUserQuestion")) (
      field (codes "id") (str (codes "q")) (
        field (codes "input")
          (obj (
            field (codes "questions")
              (arr (cons (obj (field (codes "question") (str (codes "Go?")) end)) nil)) end))
          end)))

abbrev asked_record : Value
asked_record = obj (
    field (codes "type") (str (codes "assistant")) (
      field (codes "message") (obj (field (codes "content") (arr (cons (obj call_block) nil)) end))
        end))

abbrev answer_record : Value
answer_record = obj (
    field (codes "type") (str (codes "user")) (
      field (codes "message")
        (obj (
          field (codes "content")
            (arr (
              cons
                (obj (
                  field (codes "type") (str (codes "tool_result"))
                    (field (codes "tool_use_id") (str (codes "q")) end)))
                nil))
            end))
        end))

abbrev message : Value → Event
message v = record { session_key = codes "p/s"; kind = codes "message"; payload = v }

-- `str`, `json.dumps` and `json.loads`, as far as these runs go.
abbrev plain_runtime : Runtime
plain_runtime = record {
  str_of = λ v. [];
  dumps = λ fs. [];
  loads = λ s. none;
  dumps_value = λ v. [];
  is_decimal = λ c. false;
}

abbrev batches : List Batch
batches =
    record {
      events = message said_record ∷ message asked_record ∷ [];
      malformed = 1;
      replaces = false;
    }
    ∷ record { events = message answer_record ∷ []; malformed = 0; replaces = false }
    ∷ []

said_IsReadable : IsReadable (message said_record)
unfolding Asking IsTyped palaver.Json.hashable get text_eq palaver.Transcript.blocks_of
    palaver.Summary.ClaudeCode.blocks equals
said_IsReadable = (refl, tt)

call_block_asks :
    asked_claims call_block
    ≡ some (codes "q", exact_claim (str (codes "Go?")) "AskUserQuestion" (str (codes "q")) ∷ [])
unfolding asked_claims get text_eq
call_block_asks = refl

differs :
    (id k : Text) (c : Claim) (o : Option (Text × List Claim))
    → o ≡ some (k, c ∷ [])
    → o ≢ some (id, [])
differs id k c o e h = cc

asked_IsReadable : IsReadable (message asked_record)
unfolding Asking IsTyped AsksSomething palaver.Json.hashable get text_eq
    palaver.Transcript.blocks_of palaver.Summary.ClaudeCode.blocks equals
asked_IsReadable = (
  refl,
  (
    λ e id.
        differs id (codes "q") (exact_claim (str (codes "Go?")) "AskUserQuestion" (str (codes "q")))
          (asked_claims call_block) call_block_asks,
    tt,
  ),
)

answer_IsReadable : IsReadable (message answer_record)
unfolding Asking IsTyped palaver.Json.hashable get text_eq palaver.Transcript.blocks_of
    palaver.Summary.ClaudeCode.blocks equals
answer_IsReadable = (refl, tt)

batches-IsReadable : All (λ b. All IsReadable b.events) batches
batches-IsReadable = ((said_IsReadable, (asked_IsReadable, tt)), ((answer_IsReadable, tt), tt))

feed_all-reduce_events_example :
    (r s : SummaryReducer) × (new_reducer plain_runtime (codes "claude-code") (codes "p/s")
      ≡ some r)
    × (feed_all plain_runtime r batches ≡ some s)
    × (reduce_events plain_runtime
          (codes "claude-code")
          (codes "p/s")
          (events_fed [] batches)
          (malformed_fed 0 batches)
        ≡ some (current_snapshot s))
feed_all-reduce_events_example =
    feed_all-reduce_events plain_runtime (codes "p/s") batches batches-IsReadable

abbrev escape : Text
escape = 0x1b ∷ codes "[31mhi" ++ 0x09 ∷ codes "there"

sanitize_text-IsPlain_example :
    (length (sanitize_text (str escape) 4) ≤ 4) × All IsPlain (sanitize_text (str escape) 4)
sanitize_text-IsPlain_example = sanitize_text-IsPlain (str escape) 4

sanitize_escape : sanitize_text (str escape) 4 ≡ codes "hi" ++ 0x2026 ∷ []
unfolding sanitize_text
sanitize_escape = refl

abbrev events : List Event
events = message said_record ∷ message asked_record ∷ []

abbrev snapshot_or_new : Option SummarySnapshot → SummarySnapshot
snapshot_or_new none = new_snapshot [] []
snapshot_or_new (some s) = s

abbrev reduced : Option SummarySnapshot
reduced = reduce_claude_events plain_runtime.str_of plain_runtime.dumps (codes "p/s") events none

reduced_returns : reduced ≡ some (snapshot_or_new reduced)
unfolding reduce_claude_events get
reduced_returns = refl

reduce_claude_events-IsBounded_example : IsBounded (snapshot_or_new reduced)
reduce_claude_events-IsBounded_example =
    reduce_claude_events-IsBounded plain_runtime.str_of plain_runtime.dumps (codes "p/s") events
      none (snapshot_or_new reduced) (λ t e. cc) reduced_returns

-- Lines that stand for the records: `a` for what the human says, `b` for the question.
load_line : Text → Option Value
unfolding text_eq
load_line s =
    if text_eq s (codes "a")
    then some said_record
    else if text_eq s (codes "b")
    then some asked_record
    else none

abbrev files : List Text
files = codes "a\nb" ∷ codes "a\nb\n" ∷ codes "x\n" ∷ []

files-AllEvolve : AllEvolve (codes "p/s") load_line [] files
unfolding read_complete_records tail_records load_line palaver.Ingest.Tail.nonempty_lines
    palaver.Ingest.Tail.split_lines palaver.Ingest.Tail.effective_offset
    palaver.Ingest.Tail.extend_first palaver.Json.member get
files-AllEvolve = (
  inl (codes "a\nb", refl),
  (message said_record ∷ [], 0, refl, (said_IsReadable, tt)),
  (
    inl (codes "\n", refl),
    (
      message said_record ∷ message asked_record ∷ [],
      0,
      refl,
      (said_IsReadable, (asked_IsReadable, tt)),
    ),
    (inr (omega arith), ([], 1, refl, tt), tt),
  ),
)

refresh_all-reduce_events_example :
    (r : SummaryReducer) × (g : Followed) × (es : List Event) × (n : ℕ) × (new_reducer plain_runtime
        (codes "claude-code")
        (codes "p/s")
      ≡ some r)
    × (refresh_all plain_runtime
          (tail (codes "p/s") load_line)
          (record { reducer = r; offset = 0 })
          files
        ≡ some g)
    × (read_whole (codes "p/s") load_line (last_file [] files) ≡ some (es, n))
    × (reduce_events plain_runtime (codes "claude-code") (codes "p/s") es n
        ≡ some (current_snapshot g.reducer))
refresh_all-reduce_events_example =
    refresh_all-reduce_events (codes "p/s") load_line plain_runtime files files-AllEvolve
