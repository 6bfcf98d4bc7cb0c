-- ===== src/Signals/Live.antt =====
-- What liveness (palaver/observer/signals/liveness.py) may do to a derived status.
use palaver.Prelude.{Option, ◌≡◌, ◌⊎◌, ◌↔◌, arith}
use palaver.Signals.{
  yea, nay, Status, working, awaiting_human, unknown, idle, Signals, Extraction, Liveness,
  derive_status, apply_liveness, derive_status_with_liveness,
}

-- Liveness makes two moves and no other: a dead process turns WORKING into UNKNOWN, and a live one
-- whose cursor has stopped turns AWAITING_HUMAN into IDLE. Any other status is left alone.
apply_liveness_moves :
    (s : Status) (l : Liveness)
    → (apply_liveness s l ≡ s)
      ⊎ ((s ≡ working) × (l.process_alive ≡ nay) × (apply_liveness s l ≡ unknown))
      ⊎ ((s ≡ awaiting_human)
          × (l.process_alive ≡ yea)
          × (l.cursor_advanced_recently ≡ nay)
          × (apply_liveness s l ≡ idle))
unfolding apply_liveness
apply_liveness_moves s l = ground arith

-- With liveness applied, IDLE is reported exactly for a session that awaits its human in a process
-- known to be alive whose cursor is known not to have moved.
idle_iff :
    (s : Signals) (l : Liveness) (e : Option Extraction)
    → (derive_status_with_liveness s l e ≡ idle) ↔ (
        (derive_status s e ≡ awaiting_human)
        × (l.process_alive ≡ yea)
        × (l.cursor_advanced_recently ≡ nay))
unfolding derive_status_with_liveness
idle_iff s l e = (λ h. ground arith, λ h. ground arith)
