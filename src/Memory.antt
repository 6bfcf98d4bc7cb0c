-- ===== src/Memory.antt =====
-- The durable memory: the tables and triggers of palaver/store/schema.py at its last version, the
-- writer, the readers and supersession of palaver/memory, and the retention of
-- palaver/store/rollup.py. Foreign keys are left out, as on a connection that does not turn the
-- pragma on.
pub mod Tables
pub mod Statements
pub mod Rows
pub mod AppendOnly
pub mod Integrity
pub mod Write
pub mod Anchors
pub mod Storable
pub mod Written
pub mod Superseding
pub mod Resolve
pub mod Prune
pub mod Retention
pub mod Scope
pub mod Paging
