-- ===== src/Signals/Rules.antt =====
-- What the status rules of palaver/observer/signals/rules.py guarantee.
use palaver.Prelude.{true, Option, none, ◌≡◌, ◌≢◌, ◌↔◌, arith, All}
use palaver.Signals.{
  yea, nay, working, awaiting_human, Signals, Extraction, read, in_phase1_range, in_refined_range,
  derive_status_with_provenance, derive_status,
}

-- With no extraction the status is one of the four Phase 1 statuses; with one it is one of the
-- eight refined statuses, and so never IDLE.
derive_status_range :
    (s : Signals) (e : Option Extraction)
    → (in_phase1_range (derive_status s none) ≡ true)
      × (in_refined_range (derive_status s e) ≡ true)
unfolding derive_status in_phase1_range in_refined_range
derive_status_range s e = (ground arith, ground arith)

-- An extraction changes the status only of a session that the signals alone leave AWAITING_HUMAN:
-- where they say WORKING, ERROR or UNKNOWN, no model payload moves the answer.
refinement_only_awaiting :
    (s : Signals) (e : Option Extraction)
    → derive_status s none ≢ awaiting_human
    → derive_status s e ≡ derive_status s none
unfolding derive_status
refinement_only_awaiting s e h = ground arith

-- WORKING is reported exactly when the source is readable, its records parsed, no tool error is
-- outstanding and the turn is known not to have ended, whatever the extraction says.
working_iff :
    (s : Signals) (e : Option Extraction)
    → (derive_status s e ≡ working) ↔ (
        (s.source_readable ≡ yea)
        × (s.signal_records_parsed ≡ yea)
        × (s.unresolved_tool_error ≢ yea)
        × (s.agent_turn_ended ≡ nay))
unfolding derive_status
working_iff s e = (λ h. ground arith, λ h. ground arith)

-- The signals named in `consulted` settle the answer: two readings that agree on every signal that
-- the first derivation consulted have the same status and the same list.
consulted_suffices :
    (s t : Signals) (e : Option Extraction)
    → All (λ n. read s n ≡ read t n) (derive_status_with_provenance s e).consulted
    → derive_status_with_provenance t e ≡ derive_status_with_provenance s e
unfolding derive_status_with_provenance read
consulted_suffices s t e h = ground arith
