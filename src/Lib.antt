-- ===== src/Lib.antt =====
-- Palaver watches the transcripts that coding agents write, derives from them a status for each
-- session, has a local model extract a few fields, and keeps memories with evidence in SQLite.
-- This library models the parts that decide and that store. Paths are from the repository's root.
--
-- The parts and how they interact. An adapter finds session files and tails them from a durable
-- byte offset (palaver/ingest). A tick of the daemon (palaver/observer/daemon.py) plans which
-- sessions have grown and hands each to an extractor, saving the new offset only when it returned.
-- The records of a session settle who holds the turn (palaver/observer/turn_boundary.py), which
-- with three other signals becomes a status (palaver/observer/signals). What is learnt is written
-- to `memories` with its evidence (palaver/memory) under triggers that make the table append-only
-- (palaver/store/schema.py); old regeneratable rows are pruned (palaver/store/rollup.py). What the
-- model claims becomes a memory only through the quote gate (palaver/extract), what a user corrects
-- through the socket of the daemon (palaver/observer/socket), and an agent reads memories back in
-- pages (palaver/mcp). A panel beside the agent shows a summary of its session (palaver/summary), fed
-- with what the transcript has grown by. A new version migrates the database first (palaver/store/migrate.py).
--
-- Files, and the code that they model:
--   Prelude       names shared by all, tests on numbers, lists, Python text as code points
--   Json          the decoded values of `json.loads`, and reads on them
--   Signals       palaver/observer/signals; Signals/Payload is payload.py. `derive_status` and the
--                 others have the code's names; `Tri` is yea, nay, unsure for TRUE, FALSE, UNKNOWN
--   Transcript    palaver/ingest/adapters/claude_code.py: channels and background tasks
--   TurnBoundary  palaver/observer/turn_boundary.py: Walk and Corroboration are
--                 `derive_turn_boundary` and `_corroborate`, Reading is the rest
--   Memory        Tables and Statements are palaver/store/schema.py, a statement being one SQL
--                 statement under the triggers; Write is palaver/memory/write.py and supersede.py,
--                 Resolve is palaver/memory/evidence.py, Scope is palaver/memory/scope.py,
--                 Prune is palaver/store/rollup.py
--   Ingest        Tail is `read_complete_records`; Keyed and Tick are palaver/ingest/cursors.py,
--                 `plan_tick` and `ObserverDaemon.tick`
--   Extract       palaver/extract: Channels and QuoteGate are quote_gate.py with the tier cap of
--                 palaver/ingest/adapters/codex/tier_cap.py, State and Persist are persist.py
--   Integers      a Python integer, and whether SQLite can bind it
--   Socket        palaver/observer/socket: Serve is serve.py, the rest is protocol.py, where
--                 Connection is a connection with what it has committed, Correct is `_correct`,
--                 Query is `_record_query` and Protocol is `apply_request`
--   Mcp           Cursor and Pages are palaver/mcp/pagination.py, Recall is `parse_scope`,
--                 `resolve_session_id` and `recall` of palaver/mcp/tools_read.py, Describe is `describe` of
--                 palaver/mcp/query_events.py
--   Summary       palaver/summary: Sanitize, Model, Recent and Collections are model.py, ClaudeCode,
--                 Records and Reduce are claude_code.py, Codex and CodexReduce are codex.py with
--                 CodexRecords for palaver/ingest/adapters/codex, Reducer is reducer.py. Tailing is
--                 `tail` of palaver/ingest/adapters/claude_code.py and the part of `refresh_once` in
--                 palaver/ui/companion_update.py that feeds the panel's reducer
--   Migrations    palaver/store/migrate.py: Backup is the naming and the taking of a backup,
--                 Migrate the rest
--   Examples      the theorems at concrete inputs, and test runs
-- The other modules under these hold proofs and are named for what they prove.
--
-- Conventions. A record of a transcript that cannot be decoded is `none` in the list of records. A
-- function whose result is `none` where the code has a value raises there: `TypeError` in
-- TurnBoundary and Summary (an unhashable JSON value looked up in a set), `OverflowError` in
-- `record_failure`, an aborted statement in `execute`. `write_memory` returns or raises, and carries the tables of
-- the open transaction either way. A file is its list of bytes, read in one piece. Times are
-- natural numbers in one unit. Every loop is structural recursion but for the search of a free name
-- for a backup, which is on fuel, as much as there are backups; that is enough, since each name
-- that is tried and taken is one of them; and but for the digits of a number, on as much fuel as one
-- above the number, which is enough, since a digit takes at least nine tenths of it. A client that pages is allowed a number of calls, and one
-- more than there are memories is enough.
--
-- Arguments that stand for code outside the repository: `str()` of a decoded value that is no
-- string, `str.lower`, the decoding of a line, the adapters' discovery and tail, the extractor, the
-- connection's rollback in the tick, whether a commit works, `json.dumps`, `json.loads`, base64 and
-- SHA-256 (Mcp/Cursor, with what is relied on in Mcp/RoundTrip and Mcp/Fitting), and SQLite and the
-- file system under a migration. Summary takes them together, as a `Runtime`, with the class of
-- decimal digits of a pattern.
--
-- Not modelled: the command line, the user interface but for the feeding of a panel, the listener's
-- loop over requests, the MCP server but for recall, its pages and their query events, the model's
-- client and its prompts, the codex and opencode adapters but for the tier cap and for the text and
-- the role of a message, full-text search, and foreign keys but for those of the query events. Where the code also raises
-- for a foreign key, a text that cannot be encoded or a number of 2^63 and more, the results say so
-- by a condition (Memory/Storable).
-- Digests that name the cursor files are taken not to collide. A float in a cursor's version is
-- refused, though Python takes 1.0 for 1; no cursor that is handed out has one.
pub mod Prelude
pub mod Json
pub mod Signals
pub mod Transcript
pub mod Summary
pub mod TurnBoundary
pub mod Memory
pub mod Ingest
pub mod Integers
pub mod Extract
pub mod Socket
pub mod Mcp
pub mod Migrations
pub mod Examples
