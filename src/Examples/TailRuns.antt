-- ===== src/Examples/TailRuns.antt =====
-- palaver/ingest and the observer's tick, run on a file of one and a half lines.
use palaver.Prelude.{
  ℕ, suc, ◌+◌, true, false, List, [], ◌∷◌, ◌++◌, Option, none, some, ◌≡◌, ◌⊎◌, ◌≤◌, ◌<◌, refl, map,
  length, codes, Text, arith, All, starts_with, if◌then◌else◌,
}
use palaver.Json.{str}
use palaver.Ingest.Tail.{read_complete_records}
use palaver.Ingest.Resume.{read_resume}
use palaver.Ingest.Keyed.{Key}
use palaver.Ingest.Tick.{
  tick, Event, SessionRef, SessionWork, Adapter, CursorStore, Backoff, Observer, Verdict, deferred,
  failed, extracted, raised, key_of, load_cursor, attempts_of, record_failure, retry_at, must_wait,
  plan_tick, tick_works,
}
use palaver.Ingest.Plan.{plan_tick_skips, TailsFiles, NothingNew}
use palaver.Ingest.Delivery.{delivered, concat_map, tailing, tick_conserves}
use palaver.Ingest.Verdicts.{cursor_by, tick_works-cursor, tick_works_reaches_all}

abbrev file : Text
file = 97 ∷ 10 ∷ 98 ∷ []

abbrev more : Text
more = 99 ∷ 10 ∷ []

from_start : 0 ≤ length file
from_start = omega arith

first_read : read_complete_records file 0 ≡ ((97 ∷ []) ∷ [], 2)
unfolding read_complete_records palaver.Ingest.Tail.nonempty_lines
    palaver.Ingest.Tail.effective_offset palaver.Ingest.Tail.split_lines
    palaver.Ingest.Tail.extend_first
first_read = refl

second_read : read_complete_records (file ++ more) 2 ≡ ((98 ∷ 99 ∷ []) ∷ [], 5)
unfolding read_complete_records palaver.Ingest.Tail.nonempty_lines
    palaver.Ingest.Tail.effective_offset palaver.Ingest.Tail.split_lines
    palaver.Ingest.Tail.extend_first
second_read = refl

read_resume_example : read_complete_records (file ++ more) 0 ≡ (
  (read_complete_records file 0).0
      ++ (read_complete_records (file ++ more) (read_complete_records file 0).1).0,
  (read_complete_records (file ++ more) (read_complete_records file 0).1).1,
)
read_resume_example = read_resume file more 0 from_start

abbrev session : Text → SessionRef
session name = record { source = codes "codex"; session_key = name; path = name }

abbrev key_a : Key
key_a = (codes "codex", codes "a")

abbrev adapter : Adapter
adapter = record {
  discovered = session (codes "a") ∷ session (codes "b") ∷ [];
  tail = λ path offset. ([], (read_complete_records file offset).1);
}

abbrev empty_cursors : CursorStore
empty_cursors = record { entries = (key_a, 2) ∷ []; legacy_entries = [] }

adapter_tails : All (TailsFiles (λ path. file)) (adapter ∷ [])
adapter_tails = ((λ path offset. refl), tt)

plan_tick_skips_example :
    All (NothingNew (λ path. file) empty_cursors) (plan_tick (adapter ∷ []) empty_cursors).skipped
plan_tick_skips_example = plan_tick_skips (λ path. file) (adapter ∷ []) empty_cursors adapter_tails

abbrev work : Text → SessionWork
work name = record { ref = session name; events = []; cursor_before = 0; cursor_after = 2 }

-- An extractor that raises for the session `a` only.
abbrev fails_on_a : SessionWork → ℕ → Option Text × ℕ
fails_on_a w db = elim w.ref.path [
  | [] ↦ (none, suc db)
  | c ∷ s ↦ elim s [ [] ↦ (some (codes "boom"), db) | _ ↦ (none, suc db) ]
]

abbrev undo : ℕ → ℕ
undo db = db

abbrev idle_observer : Observer ℕ
idle_observer = record { ticks = 0; cursors = empty_cursors; backoff = []; db = 0 }

abbrev two_works : List SessionWork
two_works = work (codes "a") ∷ work (codes "bb") ∷ []

tick_works-cursor_example :
    load_cursor (tick_works fails_on_a undo 50 two_works idle_observer).0.cursors key_a
    ≡ cursor_by key_a
        (tick_works fails_on_a undo 50 two_works idle_observer).1
        (load_cursor empty_cursors key_a)
tick_works-cursor_example = tick_works-cursor fails_on_a undo 50 key_a two_works idle_observer

room : (k : Key) → attempts_of idle_observer.backoff k + length two_works ≤ 1024
unfolding attempts_of palaver.Ingest.Tick.count_of palaver.Ingest.Keyed.find_entry
room k = omega arith

tick_works_reaches_all_example :
    map (λ v. v.0) (tick_works fails_on_a undo 50 two_works idle_observer).1 ≡ two_works
tick_works_reaches_all_example =
    tick_works_reaches_all fails_on_a undo 50 two_works idle_observer room

abbrev message : Text → Event
message line = record { session_key = codes "bb"; kind = codes "message"; payload = str line }

-- A line that starts with `b` is malformed; any other gives two events.
abbrev as_message : Text → List Event
as_message line =
    if starts_with (b'b' ∷ []) line then [] else message line ∷ message (b'!' ∷ line) ∷ []

fresh_inside : load_cursor idle_observer.cursors (key_of (session (codes "bb"))) ≤ length file
unfolding load_cursor palaver.Ingest.Tick.offset_from palaver.Ingest.Keyed.find_entry
    palaver.Ingest.Keyed.key_eq palaver.Prelude.text_eq key_of palaver.Ingest.Tick.legacy_entry
fresh_inside = omega arith

tick_delivers :
    delivered
      (tick fails_on_a undo 50
        (tailing as_message file (session (codes "bb")) ∷ [])
        idle_observer).1
    ≡ as_message (97 ∷ [])
unfolding tick tick_works plan_tick delivered read_complete_records load_cursor key_of must_wait
    retry_at palaver.Ingest.Tick.plan_refs palaver.Ingest.Tail.effective_offset
    palaver.Ingest.Tick.offset_from palaver.Ingest.Keyed.find_entry palaver.Ingest.Keyed.key_eq
    palaver.Prelude.text_eq palaver.Ingest.Tick.legacy_entry palaver.Ingest.Tail.split_lines
    palaver.Ingest.Tail.extend_first palaver.Ingest.Tick.goes_on palaver.Ingest.Tick.tick_work
    palaver.Ingest.Keyed.put_entry palaver.Ingest.Keyed.remove_entry
    palaver.Ingest.Tail.nonempty_lines palaver.Ingest.Tick.after_extraction
    palaver.Ingest.Tick.time_of palaver.Ingest.Tick.save_cursor starts_with concat_map
tick_delivers = refl

tick_conserves_example :
    concat_map as_message
      (read_complete_records
        (file ++ more)
        (load_cursor idle_observer.cursors (key_of (session (codes "bb"))))).0
    ≡ delivered
        (tick fails_on_a undo 50
          (tailing as_message file (session (codes "bb")) ∷ [])
          idle_observer).1
      ++ concat_map as_message
          (read_complete_records (file ++ more) (
            load_cursor
              (tick fails_on_a undo 50
                (tailing as_message file (session (codes "bb")) ∷ [])
                idle_observer).0.cursors
              (key_of (session (codes "bb"))))).0
tick_conserves_example =
    tick_conserves as_message file more (session (codes "bb")) fails_on_a undo 50 idle_observer
      fresh_inside
