-- ===== src/TurnBoundary/Ended.antt =====
-- When a turn is reported as ended: what the deciding record is.
use palaver.Prelude.{
  Bool, true, false, Option, none, some, List, [], ◌∷◌, ◌++◌, reverse, ◌≡◌, ◌⊎◌, All, Text,
}
use palaver.Json.{Value, get, equals}
use palaver.Transcript.{Record}
use palaver.TurnBoundary.Walk.{blocks_of_type, any_blocking, judge, is_busy}

-- An assistant record that leaves the turn with the human: it asks through a tool that only the
-- human can answer, or it calls no tool while no background task is active.
abbrev pub HandsBack : Bool → Record → Type 0
HandsBack busy r =
    (equals (get r "type") "assistant" ≡ true)
    × ((any_blocking (blocks_of_type r "tool_use") ≡ some true)
        ⊎ ((blocks_of_type r "tool_use" ≡ []) × (busy ≡ false)))

-- Some assistant record hands the turn back and the walk looks through every later record.
abbrev pub TurnHandedBack : (Value → Text) → List (Option Record) → Type 0
TurnHandedBack str_of records =
    (newer : List (Option Record)) × (r : Record) × (older : List (Option Record)) × (reverse
        records
      ≡ newer ++ some r ∷ older)
    × HandsBack (is_busy str_of records) r
    × All (λ x. judge str_of (is_busy str_of records) x ≡ some none) newer
