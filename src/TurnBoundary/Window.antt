-- ===== src/TurnBoundary/Window.antt =====
-- The signal window of palaver/observer/turn_boundary.py.
use palaver.Prelude.{
  ℕ, ◌+◌, ◌≤◌, Bool, true, Option, none, some, List, [], ◌∷◌, ◌++◌, reverse, ◌≡◌, ◌∙◌, refl, sym,
  ap, inl, inr, arith, Text, length, drop, length-reverse, length-append, Option-cases,
  if◌then◌else◌,
}
use native.Mathlib.Nat.{add-zero, add-suc}
use mathlib.Core.List.{reverse-append, append_assoc}
use palaver.Json.{Value, equals_any, member}
use palaver.Signals.{Tri, yea, nay}
use palaver.Transcript.{Record}
use palaver.TurnBoundary.Walk.{
  Basis, human_message_pending, SessionObservation, blocks_of_type, is_human_turn, judge, walk,
  is_busy, settle,
}
use palaver.TurnBoundary.Reading.{
  window_start, any_hole, tool_error, derive_turn_boundary, derive_signals,
}

-- A settled walk without its index.
abbrev pub verdict : Option (Tri × Basis × Option ℕ) → Option Tri
verdict none = none
verdict (some (ended, basis, index)) = some ended

drop-shift {ℓ} : {A : Type ℓ} (k : ℕ) (xs ys : List A) → drop (k + length xs) (xs ++ ys) ≡ drop k ys
drop-shift k [] ys = rw (add-zero k)
drop-shift k (x ∷ xs) ys = rw add-suc (drop-shift k xs ys)

module _ (str_of : Value → Text) (r : Record) (human_turn : is_human_turn str_of r ≡ true) where
  judge_human :
      (busy : Bool) → judge str_of busy (some r) ≡ some (some (nay, human_message_pending))
  unfolding judge is_human_turn member equals_any
  judge_human busy = ground arith

  no_results : blocks_of_type r "tool_result" ≡ []
  unfolding is_human_turn
  no_results = ground arith

  walk_local :
      (busy : Bool) (n o : List (Option Record))
      → verdict (walk str_of busy (n ++ some r ∷ o)) ≡ verdict (walk str_of busy (n ++ some r ∷ []))
  unfolding walk
  walk_local busy [] o = rw (judge_human busy)
  walk_local busy (x ∷ n) o = elim (Option-cases (judge str_of busy x)) [
    | inl raised ↦ rw raised
    | inr (none, through) ↦ rw through (walk_local busy n o)
    | inr (some v, settled) ↦ rw settled
  ]

  window_start_shift :
      (n o : List (Option Record))
      → window_start str_of (n ++ some r ∷ o) ≡ window_start str_of (n ++ some r ∷ []) + length o
  unfolding window_start
  window_start_shift [] o = rw human_turn (omega arith)
  window_start_shift (none ∷ n) o =
      omega (arith, length-append {0} n (some r ∷ o), length-append {0} n (some r ∷ []))
  window_start_shift (some x ∷ n) o =
      ground
        (arith, window_start_shift n o, length-append n (some r ∷ o), length-append n (some r ∷ []))

  tool_error_outside :
      (start : ℕ) (o : List (Option Record)) → length o ≤ start → tool_error start o ≡ nay
  unfolding tool_error
  tool_error_outside start [] h = refl
  tool_error_outside start (x ∷ o) h = ground arith

  tool_error_shift :
      (k : ℕ) (n o : List (Option Record))
      → tool_error (k + length o) (n ++ some r ∷ o) ≡ tool_error k (n ++ some r ∷ [])
  unfolding tool_error
  tool_error_shift k [] o = ground (arith, no_results, tool_error_outside (k + length o) o)
  tool_error_shift k (x ∷ n) o =
      ground
        (arith, tool_error_shift k n o, length-append n (some r ∷ o), length-append n (some r ∷ []))

  hole_shift :
      (k : ℕ) (o n : List (Option Record))
      → any_hole (drop (k + length o) (o ++ some r ∷ n)) ≡ any_hole (drop k (some r ∷ n))
  hole_shift k o n = ap any_hole (drop-shift k o (some r ∷ n))

  newest_first :
      (o n : List (Option Record)) → reverse (o ++ some r ∷ n) ≡ reverse n ++ some r ∷ reverse o
  newest_first o n =
      reverse-append o (some r ∷ n)
      ∙ (ap (λ l. l ++ reverse o) (reverse-append (some r ∷ []) n)
          ∙ append_assoc (reverse n) (some r ∷ []) (reverse o))

-- What a reading's signals are, where the reading raises nothing.
signals_of :
    (str_of : Value → Text) (records : List (Option Record)) (mtime : Option ℕ) (now within : ℕ)
    {o : SessionObservation}
    → derive_signals str_of records mtime now within ≡ some o
    → (verdict (settle str_of records) ≡ some o.signals.agent_turn_ended)
      × (o.signals.source_readable ≡ yea)
      × (o.signals.signal_records_parsed
          ≡ (if any_hole (drop (window_start str_of (reverse records)) records) then nay else yea))
      × (o.signals.unresolved_tool_error
          ≡ tool_error (window_start str_of (reverse records)) (reverse records))
unfolding derive_signals derive_turn_boundary
signals_of str_of records mtime now within h = ground arith

module _ (str_of : Value → Text) (r : Record) (human_turn : is_human_turn str_of r ≡ true) where
  -- The signals of a transcript, read off what stands from its last human turn on.
  signals_local :
      (before after : List (Option Record)) (mtime : Option ℕ) (now within : ℕ)
      {o : SessionObservation}
      → derive_signals str_of (before ++ some r ∷ after) mtime now within ≡ some o
      → let start = window_start str_of (reverse after ++ some r ∷ []) in
        let busy = is_busy str_of (before ++ some r ∷ after) in
        (verdict (walk str_of busy (reverse after ++ some r ∷ []))
          ≡ some o.signals.agent_turn_ended)
        × (o.signals.source_readable ≡ yea)
        × (o.signals.signal_records_parsed
            ≡ (if any_hole (drop start (some r ∷ after)) then nay else yea))
        × (o.signals.unresolved_tool_error ≡ tool_error start (reverse after ++ some r ∷ []))
  unfolding settle
  signals_local before after mtime now within {o} h =
      let (ended, readable, parsed, error) =
        signals_of str_of (before ++ some r ∷ after) mtime now within h in
      let n = reverse after in
      let m = reverse before in
      let start = window_start str_of (n ++ some r ∷ []) in
      let shift : window_start str_of (reverse (before ++ some r ∷ after)) ≡ start + length before =
        rw (newest_first str_of r human_turn before after)
          (omega (arith, window_start_shift str_of r human_turn n m, length-reverse before)) in
      let same_error : tool_error (window_start str_of (reverse (before ++ some r ∷ after)))
            (reverse (before ++ some r ∷ after))
          ≡ tool_error start (n ++ some r ∷ []) =
        rw (newest_first str_of r human_turn before after) (
          rw (window_start_shift str_of r human_turn n m)
            (tool_error_shift str_of r human_turn start n m)) in
      (
        sym (walk_local str_of r human_turn (is_busy str_of (before ++ some r ∷ after)) n m)
            ∙ (rw (newest_first str_of r human_turn before after) at ended),
        readable,
        parsed
            ∙ ap (λ b. if b then nay else yea)
                (ap (λ k. any_hole (drop k (before ++ some r ∷ after))) shift
                  ∙ hole_shift str_of r human_turn start before after),
        error ∙ same_error,
      )

  -- Where the human has spoken, nothing before that turn reaches the signals, be it undecodable
  -- lines, tool errors or open calls: two transcripts that agree from a human turn on, and on
  -- whether a background task is active, have the same signals, if both can be read.
  pub window_local :
      (before before' after : List (Option Record)) (mtime : Option ℕ) (now within : ℕ)
      {o o' : SessionObservation}
      → is_busy str_of (before ++ some r ∷ after) ≡ is_busy str_of (before' ++ some r ∷ after)
      → derive_signals str_of (before ++ some r ∷ after) mtime now within ≡ some o
      → derive_signals str_of (before' ++ some r ∷ after) mtime now within ≡ some o'
      → o.signals ≡ o'.signals
  window_local before before' after mtime now within busy h h' =
      let a = signals_local before after mtime now within h in
      let b = signals_local before' after mtime now within h' in ground arith
