-- ===== src/Signals/Gate.antt =====
-- The source gate, `derive_status_for_source` of palaver/observer/signals/rules.py.
use palaver.Signals.{Signals}
