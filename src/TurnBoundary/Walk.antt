-- ===== src/TurnBoundary/Walk.antt =====
-- palaver/observer/turn_boundary.py: the structural turn boundary of one Claude Code transcript. A
-- record list is in file order, and `none` is a line that did not decode. A `none` result is the
-- `TypeError` that Python raises where a list or a dictionary stands for a name that is looked up
-- in a set. Instants and durations are natural numbers of one unit.
use palaver.Prelude.{
  ℕ, String, Bool, true, false, not, Option, none, some, List, [], ◌∷◌, reverse, length,
  if◌then◌else◌, Text,
}
use palaver.Json.{Value, arr, Fields, get, equals, dicts, member}
use palaver.Signals.{Tri, yea, nay, unsure, Signals}
use palaver.Transcript.{
  Record, Channel, human, injected, message_record_types, message_content, blocks_of,
  classify_channel, active_background_task_ids,
}

-- `BASIS_NAMES`.
pub data Basis : Type 0 where
  assistant_final unresolved_tool_use unresolved_human_blocking_tool_use : Basis
  background_task_pending tool_result_pending human_message_pending : Basis
  no_conversational_record undecodable_record source_unreadable : Basis
  event_turn_boundary event_message_pending : Basis

pub record TurnBoundary : Type 0 where
  pub ended : Tri
  pub basis : Basis
  pub corroboration : Tri

pub record SessionObservation : Type 0 where
  pub signals : Signals
  pub boundary : TurnBoundary

infixl 5 ◌>>=◌
abbrev pub ◌>>=◌ {ℓ κ} : {A : Type ℓ} {B : Type κ} → Option A → (A → Option B) → Option B
none >>= f = none
some a >>= f = f a

-- `HUMAN_BLOCKING_TOOL_NAMES`.
abbrev pub human_blocking_tool_names : List String
human_blocking_tool_names = "AskUserQuestion" ∷ []

-- `_content_blocks` and `_blocks_of_type`.
unfoldable pub blocks_of_type : Record → String → List Fields
blocks_of_type r t = elim (message_content r) [ arr vs ↦ blocks_of (dicts vs) t | _ ↦ [] ]

abbrev pub is_nonempty {ℓ} : {A : Type ℓ} → List A → Bool
is_nonempty [] = false
is_nonempty (x ∷ xs) = true

-- `any(block.get("name") in HUMAN_BLOCKING_TOOL_NAMES for block in blocks)`, stopping at the first.
unfoldable pub any_blocking : List Fields → Option Bool
any_blocking [] = some false
any_blocking (b ∷ bs) =
    let rest = any_blocking bs in
    do
      blocking ← member (get b "name") human_blocking_tool_names
      if blocking then some true else rest

abbrev is_injected : Channel → Bool
is_injected human = false
is_injected injected = true

module _ (str_of : Value → Text) where
  -- `_is_human_turn`.
  unfoldable pub is_human_turn : Record → Bool
  is_human_turn r =
      if not (equals (get r "type") "user")
      then false
      else if is_nonempty (blocks_of_type r "tool_result")
      then false
      else not (is_injected (classify_channel str_of r))

  -- One round of the walk in `derive_turn_boundary`: the boundary that a record settles, or
  -- `some none` where the walk looks through it. `busy` says that a background task is active.
  judge_user : Record → Option (Tri × Basis)
  judge_user r =
      if is_nonempty (blocks_of_type r "tool_result")
      then some (nay, tool_result_pending)
      else if is_human_turn r
      then some (nay, human_message_pending)
      else none

  judge_assistant : Bool → Record → Option (Tri × Basis)
  judge_assistant busy r =
      if is_nonempty (blocks_of_type r "tool_use")
      then (do
        blocking ← any_blocking (blocks_of_type r "tool_use")
        some (
            if blocking
            then (yea, unresolved_human_blocking_tool_use)
            else (nay, unresolved_tool_use)))
      else if busy
      then some (nay, background_task_pending)
      else some (yea, assistant_final)

  judge_message : Bool → Record → Bool → Option (Option (Tri × Basis))
  judge_message busy r bearing =
      if not bearing
      then some none
      else if equals (get r "type") "user"
      then some (judge_user r)
      else judge_assistant busy r >>= λ verdict. some (some verdict)

  unfoldable pub judge : Bool → Option Record → Option (Option (Tri × Basis))
  unfolding judge_user judge_assistant judge_message
  judge busy none = some (some (unsure, undecodable_record))
  judge busy (some r) = member (get r "type") message_record_types >>= judge_message busy r

  -- The walk, over the records newest first: the boundary, its basis and its index.
  unfoldable pub walk : Bool → List (Option Record) → Option (Tri × Basis × Option ℕ)
  walk busy [] = some (unsure, no_conversational_record, none)
  walk busy (r ∷ older) =
      let rest = walk busy older in
      do
        verdict ← judge busy r
        elim verdict [
          | none ↦ rest
          | some (ended, basis) ↦ some (ended, basis, some (length older))
        ]

  unfoldable pub is_busy : List (Option Record) → Bool
  is_busy records = is_nonempty (active_background_task_ids records)

  unfoldable pub settle : List (Option Record) → Option (Tri × Basis × Option ℕ)
  unfolding is_busy walk
  settle records = walk (is_busy records) (reverse records)
