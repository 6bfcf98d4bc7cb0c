-- ===== src/TurnBoundary/Injection.antt =====
-- Harness-injected records in palaver/observer/turn_boundary.py.
use palaver.Prelude.{
  ℕ, Bool, true, false, Option, none, some, List, [], ◌∷◌, ◌++◌, reverse, ◌≡◌, ◌∙◌, refl, arith,
  Text, inl, inr, ap, ◌≤◌, suc, length, codes, text_eq, eq_of_text_eq, if◌then◌else◌, reverse-snoc,
  length-reverse, drop-append, drop, Option-cases,
}
use palaver.Signals.{Tri, yea, nay, unsure}
use palaver.Json.{Value, str, get, equals, equals_any, member}
use palaver.Transcript.{
  Record, injected, classify_channel, active_background_task_ids, background_task_id,
  background_task_notification, track, track_all,
}
use palaver.TurnBoundary.Walk.{blocks_of_type, is_nonempty, is_human_turn, judge, is_busy, settle}
use palaver.TurnBoundary.Corroboration.{is_stop_hook, last_hook, corroborate}
use palaver.TurnBoundary.Reading.{
  window_start, any_hole, tool_error, derive_turn_boundary, derive_signals,
}

track_all-append :
    (active : List Text) (rs : List (Option Record)) (r : Option Record)
    → track_all active (rs ++ r ∷ []) ≡ track (track_all active rs) r
unfolding track_all
track_all-append active [] r = refl
track_all-append active (x ∷ rs) r = track_all-append (track active x) rs r

-- A record that neither starts nor ends a background task.
abbrev pub LeavesTasks : Record → Type 0
LeavesTasks r = (background_task_id r ≡ none) × (background_task_notification r ≡ none)

active-append :
    (rs : List (Option Record)) (r : Record)
    → LeavesTasks r
    → active_background_task_ids (rs ++ some r ∷ []) ≡ active_background_task_ids rs
unfolding active_background_task_ids track
active-append rs r (starts, ends) = track_all-append [] rs (some r) ∙ ground arith

-- A harness-injected record: a `user` record with no tool result that `classify_channel` puts in
-- the injected channel.
abbrev pub IsInjection : (Value → Text) → Record → Type 0
IsInjection str_of r =
    (equals (get r "type") "user" ≡ true)
    × (blocks_of_type r "tool_result" ≡ [])
    × (classify_channel str_of r ≡ injected)

module _ (str_of : Value → Text) where
  judge_injection :
      (busy : Bool) (r : Record) → IsInjection str_of r → judge str_of busy (some r) ≡ some none
  unfolding judge member equals_any is_human_turn
  judge_injection busy r (user, results, channel) = ground arith

  settle-append :
      (records : List (Option Record)) (r : Record)
      → judge str_of (is_busy str_of records) (some r) ≡ some none
      → LeavesTasks r
      → settle str_of (records ++ some r ∷ []) ≡ settle str_of records
  unfolding settle
  settle-append records r clear tasks = rw (same_tasks, reverse-snoc records (some r)) (rw clear)
    where
      same_tasks : is_busy str_of (records ++ some r ∷ []) ≡ is_busy str_of records
      same_tasks = ap is_nonempty (active-append records r tasks)

  not_human : (r : Record) → IsInjection str_of r → is_human_turn str_of r ≡ false
  unfolding is_human_turn
  not_human r (user, results, channel) = ground arith

  window_start-le-length : (l : List (Option Record)) → window_start str_of l ≤ length l
  unfolding window_start
  window_start-le-length [] = omega arith
  window_start-le-length (none ∷ older) = omega arith
  window_start-le-length (some r ∷ older) = ground (arith, window_start-le-length older)

  window_start-injection :
      (r : Record) (l : List (Option Record))
      → IsInjection str_of r
      → window_start str_of (some r ∷ l) ≡ window_start str_of l
  unfolding window_start
  window_start-injection r l h = rw (not_human r h)

tool_error-injection :
    (start : ℕ) (r : Record) (l : List (Option Record))
    → start ≤ length l
    → blocks_of_type r "tool_result" ≡ []
    → tool_error start (some r ∷ l) ≡ tool_error start l
unfolding tool_error
tool_error-injection start r l h results = ground arith

any_hole-snoc : (l : List (Option Record)) (r : Record) → any_hole (l ++ some r ∷ []) ≡ any_hole l
unfolding any_hole
any_hole-snoc [] r = refl
any_hole-snoc (none ∷ l) r = refl
any_hole-snoc (some x ∷ l) r = any_hole-snoc l r

not_system : (v : Value) → equals v "user" ≡ true → equals v "system" ≡ false
unfolding equals text_eq
not_system (str s) h = rw (eq_of_text_eq s (codes "user") h)
not_system v h = ground arith

last_hook-snoc :
    (i : ℕ) (found : Option ℕ) (l : List (Option Record)) (r : Record)
    → equals (get r "type") "user" ≡ true
    → last_hook i found (l ++ some r ∷ []) ≡ last_hook i found l
unfolding last_hook is_stop_hook
last_hook-snoc i found [] r user = rw (not_system (get r "type") user)
last_hook-snoc i found (x ∷ l) r user = elim (Option-cases (is_stop_hook x)) [
  | inl raised ↦ rw raised
  | inr (hook, e) ↦ rw e (last_hook-snoc (suc i) (if hook then some i else found) l r user)
]

corroborate-snoc :
    (e : Tri) (l : List (Option Record)) (index mtime : Option ℕ) (now within : ℕ) (r : Record)
    → equals (get r "type") "user" ≡ true
    → corroborate e (l ++ some r ∷ []) index mtime now within
      ≡ corroborate e l index mtime now within
unfolding corroborate
corroborate-snoc unsure l index mtime now within r user = refl
corroborate-snoc yea l none mtime now within r user = refl
corroborate-snoc yea l (some i) mtime now within r user = rw (last_hook-snoc 0 none l r user)
corroborate-snoc nay l none mtime now within r user = refl
corroborate-snoc nay l (some i) mtime now within r user = rw (last_hook-snoc 0 none l r user)

module _ (str_of : Value → Text) where
  boundary-injection :
      (records : List (Option Record)) (r : Record) (mtime : Option ℕ) (now within : ℕ)
      → IsInjection str_of r
      → LeavesTasks r
      → derive_turn_boundary str_of (records ++ some r ∷ []) mtime now within
        ≡ derive_turn_boundary str_of records mtime now within
  unfolding derive_turn_boundary
  boundary-injection records r mtime now within h tasks = simp (
    settle-append str_of records r (judge_injection str_of (is_busy str_of records) r h) tasks,
    λ (e : Tri) (i : Option ℕ). corroborate-snoc e records i mtime now within r h.0,
  )

  -- A harness-injected record at the end of a transcript changes nothing of the reading: not the
  -- turn, its basis or its corroboration, nor any signal, provided that it neither starts nor ends
  -- a background task.
  pub injection_transparent :
      (records : List (Option Record)) (r : Record) (mtime : Option ℕ) (now within : ℕ)
      → IsInjection str_of r
      → LeavesTasks r
      → derive_signals str_of (records ++ some r ∷ []) mtime now within
        ≡ derive_signals str_of records mtime now within
  unfolding derive_signals
  injection_transparent records r mtime now within h tasks =
      let start = window_start str_of (reverse records) in
      let inside : start ≤ length records =
        omega (arith, window_start-le-length str_of (reverse records), length-reverse records) in
      rw (
        boundary-injection records r mtime now within h tasks,
        reverse-snoc records (some r),
        window_start-injection str_of r (reverse records) h,
        tool_error-injection start r (reverse records)
            (omega (arith, length-reverse records, inside)) h.1,
        drop-append start records (some r ∷ []) inside,
        any_hole-snoc (drop start records) r,
      )
