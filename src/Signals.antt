-- ===== src/Signals.antt =====
-- palaver/observer/signals: the three-valued signal set, the statuses, and the rules that derive a
-- session's status. The children hold what is proved of the rules, of liveness and of the source
-- gate, and the crossing of a raw model payload.

pub mod Rules
pub mod Gate
pub mod Live
pub mod Payload
pub mod Accepted
use palaver.Prelude.{
  ℕ, ltb, Bool, true, false, not, Option, none, some, List, [], ◌∷◌, ◌++◌, if◌then◌else◌, Text,
  is_blank,
}

-- `Tri`, in ranges.py.
pub data Tri : Type 0 where
  yea nay unsure : Tri

-- `Tri.from_optional`.
unfoldable pub from_optional : Option Bool → Tri
from_optional none = unsure
from_optional (some true) = yea
from_optional (some false) = nay

-- `Status`, in ranges.py.
pub data Status : Type 0 where
  working awaiting_human error unknown done waiting_for_user question blocked idle : Status

-- `PHASE1_STATUS_RANGE`.
unfoldable pub in_phase1_range : Status → Bool
in_phase1_range working = true
in_phase1_range awaiting_human = true
in_phase1_range error = true
in_phase1_range unknown = true
in_phase1_range _ = false

-- `REFINED_STATUS_RANGE`.
unfoldable pub in_refined_range : Status → Bool
unfolding in_phase1_range
in_refined_range done = true
in_refined_range waiting_for_user = true
in_refined_range question = true
in_refined_range blocked = true
in_refined_range s = in_phase1_range s

-- `Signals`, in signal_set.py. `__post_init__` refuses a field that is no `Tri`; the types do here.
pub record Signals : Type 0 where
  pub source_readable : Tri
  pub signal_records_parsed : Tri
  pub unresolved_tool_error : Tri
  pub agent_turn_ended : Tri

-- `SIGNAL_NAMES`: the fields' names.
pub data SignalName : Type 0 where
  source_readable signal_records_parsed unresolved_tool_error agent_turn_ended : SignalName

unfoldable pub read : Signals → SignalName → Tri
read s source_readable = s.source_readable
read s signal_records_parsed = s.signal_records_parsed
read s unresolved_tool_error = s.unresolved_tool_error
read s agent_turn_ended = s.agent_turn_ended

-- The fields of `Extraction` (palaver/extract/persist.py) that the rules read.
pub record Extraction : Type 0 where
  pub current_task : Option Text
  pub remaining_work : Option Text
  pub blockers_now : Option Text
  pub open_questions : Option Text

-- `_has_content`.
unfoldable pub has_content : Option Text → Bool
has_content none = false
has_content (some s) = not (is_blank s)

-- `_is_affirmatively_empty`.
unfoldable pub is_affirmatively_empty : Option Text → Bool
is_affirmatively_empty none = false
is_affirmatively_empty (some s) = is_blank s

-- `_refine_ended_turn`.
unfoldable pub refine_ended_turn : Option Extraction → Status
unfolding has_content is_affirmatively_empty
refine_ended_turn none = awaiting_human
refine_ended_turn (some e) =
    if has_content e.blockers_now
    then blocked
    else if has_content e.open_questions
    then question
    else if has_content e.remaining_work
    then waiting_for_user
    else if is_affirmatively_empty e.remaining_work
    then done
    else awaiting_human

-- `StatusDerivation`, in rules.py.
pub record StatusDerivation : Type 0 where
  pub status : Status
  pub consulted : List SignalName

unfoldable pub is_yea : Tri → Bool
is_yea yea = true
is_yea _ = false

unfoldable pub is_nay : Tri → Bool
is_nay nay = true
is_nay _ = false

-- `derive_status_with_provenance`: each list is `consulted` at the `return`.
unfoldable pub derive_status_with_provenance : Signals → Option Extraction → StatusDerivation
unfolding is_yea is_nay refine_ended_turn
derive_status_with_provenance s e =
    let c1 = source_readable ∷ [] in
    let c2 = c1 ++ signal_records_parsed ∷ [] in
    let c3 = c2 ++ unresolved_tool_error ∷ [] in
    let c4 = c3 ++ agent_turn_ended ∷ [] in
    if not (is_yea s.source_readable)
    then record { status = unknown; consulted = c1 }
    else if not (is_yea s.signal_records_parsed)
    then record { status = unknown; consulted = c2 }
    else if is_yea s.unresolved_tool_error
    then record { status = error; consulted = c3 }
    else if is_nay s.agent_turn_ended
    then record { status = working; consulted = c4 }
    else if is_yea s.agent_turn_ended
    then record { status = refine_ended_turn e; consulted = c4 }
    else record { status = unknown; consulted = c4 }

-- `derive_status`.
unfoldable pub derive_status : Signals → Option Extraction → Status
unfolding derive_status_with_provenance
derive_status s e = (derive_status_with_provenance s e).status

-- `SourceCoverage`: the percentage of a source's records that carry each signal, in whole units
-- of any one scale; an absent signal reads as 0.
abbrev pub SourceCoverage : Type 0
SourceCoverage = SignalName → Option ℕ

abbrev pub coverage_of : SourceCoverage → SignalName → ℕ
coverage_of coverage name = elim (coverage name) [ none ↦ 0 | some c ↦ c ]

-- `under_covered`.
unfoldable pub under_covered : List SignalName → SourceCoverage → ℕ → List SignalName
under_covered [] coverage threshold = []
under_covered (n ∷ ns) coverage threshold =
    let rest = under_covered ns coverage threshold in
    if ltb (coverage_of coverage n) threshold then n ∷ rest else rest

abbrev is_empty {ℓ} : {A : Type ℓ} → List A → Bool
is_empty [] = true
is_empty (x ∷ xs) = false

-- `derive_status_for_source`.
unfoldable pub derive_status_for_source : Signals → SourceCoverage → ℕ → Option Extraction → Status
unfolding under_covered
derive_status_for_source s coverage threshold e =
    let d = derive_status_with_provenance s e in
    if is_empty (under_covered d.consulted coverage threshold) then d.status else unknown

-- `Liveness`, in liveness.py.
pub record Liveness : Type 0 where
  pub process_alive : Tri
  pub cursor_advanced_recently : Tri

-- `apply_liveness`.
unfoldable pub apply_liveness : Status → Liveness → Status
apply_liveness working l = elim l.process_alive [ nay ↦ unknown | _ ↦ working ]
apply_liveness awaiting_human l = elim l.process_alive [
  | yea ↦ elim l.cursor_advanced_recently [ nay ↦ idle | _ ↦ awaiting_human ]
  | _ ↦ awaiting_human
]
apply_liveness status l = status

-- `derive_status_with_liveness`.
unfoldable pub derive_status_with_liveness : Signals → Liveness → Option Extraction → Status
unfolding derive_status apply_liveness
derive_status_with_liveness s l e = apply_liveness (derive_status s e) l
