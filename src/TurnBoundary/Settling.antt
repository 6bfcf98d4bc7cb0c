-- ===== src/TurnBoundary/Settling.antt =====
-- What the backwards walk of palaver/observer/turn_boundary.py settles, told from the records alone.
use palaver.Prelude.{
  ℕ, Bool, true, false, Option, none, some, List, [], ◌∷◌, ◌++◌, reverse, ◌≡◌, ◌≢◌, ◌↔◌, ◌⊎◌, refl,
  arith, All, Text, codes, text_eq, eq_of_text_eq, length,
}
use palaver.Json.{Value, str, get, equals, equals_any, hashable, member}
use palaver.Signals.{Tri, yea, nay, unsure}
use palaver.Transcript.{Record, human, injected, classify_channel}
use palaver.TurnBoundary.Walk.{
  Basis, assistant_final, unresolved_tool_use, unresolved_human_blocking_tool_use,
  background_task_pending, tool_result_pending, human_message_pending, undecodable_record,
  blocks_of_type, is_nonempty, any_blocking, is_human_turn, judge, is_busy, settle,
}
use palaver.TurnBoundary.Settled.{settle_judged}

abbrev pub IsUser : Record → Type 0
IsUser r = equals (get r "type") "user" ≡ true

abbrev pub IsAssistant : Record → Type 0
IsAssistant r = equals (get r "type") "assistant" ≡ true

-- An assistant record settles by the tools that it calls, and without a call by whether a
-- background task is active.
abbrev pub AssistantSettles : Bool → Record → Tri → Basis → Type 0
AssistantSettles busy r ended basis =
    ((blocks_of_type r "tool_use" ≢ [])
      × (((any_blocking (blocks_of_type r "tool_use") ≡ some true)
            × (ended ≡ yea)
            × (basis ≡ unresolved_human_blocking_tool_use))
          ⊎ ((any_blocking (blocks_of_type r "tool_use") ≡ some false)
              × (ended ≡ nay)
              × (basis ≡ unresolved_tool_use))))
    ⊎ ((blocks_of_type r "tool_use" ≡ [])
        × (((busy ≡ true) × (ended ≡ nay) × (basis ≡ background_task_pending))
            ⊎ ((busy ≡ false) × (ended ≡ yea) × (basis ≡ assistant_final))))

module _ (str_of : Value → Text) where
  -- A user record settles if it brings tool results or, without any, has the human channel.
  abbrev pub UserSettles : Record → Tri → Basis → Type 0
  UserSettles r ended basis =
      (ended ≡ nay)
      × (((blocks_of_type r "tool_result" ≢ []) × (basis ≡ tool_result_pending))
          ⊎ ((blocks_of_type r "tool_result" ≡ [])
              × (classify_channel str_of r ≡ human)
              × (basis ≡ human_message_pending)))

  -- A record that settles the boundary, with the outcome; one that does not decode settles it, too.
  abbrev pub Settles : Bool → Option Record → Tri → Basis → Type 0
  Settles busy none ended basis = (ended ≡ unsure) × (basis ≡ undecodable_record)
  Settles busy (some r) ended basis =
      (IsUser r × UserSettles r ended basis) ⊎ (IsAssistant r × AssistantSettles busy r ended basis)

  -- A record that says nothing of the turn: of another type, or injected by the harness.
  abbrev pub IsPassedOver : Option Record → Type 0
  IsPassedOver none = ◌≡◌ {A = Bool} true false
  IsPassedOver (some r) =
      ((hashable (get r "type") ≡ true)
        × (equals (get r "type") "user" ≡ false)
        × (equals (get r "type") "assistant" ≡ false))
      ⊎ (IsUser r × (blocks_of_type r "tool_result" ≡ []) × (classify_channel str_of r ≡ injected))

  assistant_only :
      (v : Value) → equals v "assistant" ≡ true → (equals v "user" ≡ false) × (hashable v ≡ true)
  unfolding equals text_eq hashable
  assistant_only (str s) h = (rw (eq_of_text_eq s (codes "assistant") h), refl)
  assistant_only v h = ground arith

  user_only : (v : Value) → equals v "user" ≡ true → hashable v ≡ true
  unfolding equals hashable
  user_only (str s) h = refl
  user_only v h = ground arith

  shown_iff : {A : Type 0} (l : List A) → (is_nonempty l ≡ true) ↔ (l ≢ [])
  shown_iff [] = (λ h. cc, λ h. absurd (h refl))
  shown_iff (x ∷ l) = (λ h e. cc, λ h. refl)

  empty_iff : {A : Type 0} (l : List A) → (is_nonempty l ≡ false) ↔ (l ≡ [])
  empty_iff [] = (λ h. refl, λ h. refl)
  empty_iff (x ∷ l) = (λ h. cc, λ h. cc)

  judge-Settles :
      (busy : Bool) (r : Option Record) (e : Tri) (b : Basis)
      → (judge str_of busy r ≡ some (some (e, b))) ↔ Settles busy r e b
  unfolding judge member equals_any is_human_turn
  judge-Settles busy none e b = (λ h. ground arith, λ h. ground arith)
  judge-Settles busy (some r) e b =
      let calls = blocks_of_type r "tool_use" in
      let results = blocks_of_type r "tool_result" in
      (
        λ h. ground (arith, shown_iff calls, empty_iff calls, shown_iff results, empty_iff results),
        λ h. ground (
          arith,
          user_only (get r "type"),
          assistant_only (get r "type"),
          shown_iff calls,
          empty_iff calls,
          shown_iff results,
          empty_iff results,
        ),
      )

  judge-IsPassedOver :
      (busy : Bool) (r : Option Record) → (judge str_of busy r ≡ some none) ↔ IsPassedOver r
  unfolding judge member equals_any is_human_turn
  judge-IsPassedOver busy none = (λ h. ground arith, λ h. cc)
  judge-IsPassedOver busy (some r) =
      let results = blocks_of_type r "tool_result" in
      (
        λ h. ground (arith, shown_iff results, empty_iff results),
        λ h. ground (
          arith,
          user_only (get r "type"),
          assistant_only (get r "type"),
          shown_iff results,
          empty_iff results,
        ),
      )

  all_iff :
      (busy : Bool) (l : List (Option Record))
      → All (λ x. judge str_of busy x ≡ some none) l ↔ All IsPassedOver l
  all_iff busy [] = (λ h. h, λ h. h)
  all_iff busy (r ∷ l) = (
    λ (h, t). ((judge-IsPassedOver busy r).0 h, (all_iff busy l).0 t),
    λ (h, t). ((judge-IsPassedOver busy r).1 h, (all_iff busy l).1 t),
  )

  -- The records, newest first, are some that are passed over, then the one that settles.
  abbrev pub SettledAt : Bool → List (Option Record) → Tri → Basis → ℕ → Type 0
  SettledAt busy records ended basis index =
      (newer : List (Option Record)) × (r : Option Record) × (older : List (Option Record))
      × (records ≡ newer ++ r ∷ older)
      × (index ≡ length older)
      × Settles busy r ended basis
      × All IsPassedOver newer

  -- The walk settles a boundary at index `i` exactly where the record at index `i` settles it and
  -- every record after that one is passed over. A record settles it if it does not decode; if it is
  -- a user's with tool results, or without and of the human channel; or if it is an assistant's, with
  -- the outcome by whether it calls tools, whether one of them is only for the human to answer, and,
  -- where it calls none, whether a background task of the whole transcript is active. A record is
  -- passed over if it is neither a user's nor an assistant's, or a user's without tool results that
  -- the harness injected.
  pub settle_iff :
      (records : List (Option Record)) (e : Tri) (b : Basis) (i : ℕ)
      → (settle str_of records ≡ some (e, b, some i))
        ↔ SettledAt (is_busy str_of records) (reverse records) e b i
  settle_iff records e b i =
      let busy = is_busy str_of records in
      (
        λ h.
            let (newer, r, older, split, index, judged, through) =
              (settle_judged str_of records e b i).0 h in
            (
              newer,
              r,
              older,
              split,
              index,
              (judge-Settles busy r e b).0 judged,
              (all_iff busy newer).0 through,
            ),
        λ (newer, r, older, split, index, judged, through). (settle_judged str_of records e b i).1 (
          newer,
          r,
          older,
          split,
          index,
          (judge-Settles busy r e b).1 judged,
          (all_iff busy newer).1 through,
        ),
      )
