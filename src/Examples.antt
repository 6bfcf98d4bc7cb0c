-- ===== src/Examples.antt =====
-- The theorems at concrete inputs.
mod StatusRuns
mod TurnRuns
mod StoreRuns
mod TailRuns
mod ExtractRuns
mod SocketRuns
mod PagingRuns
mod MigrationRuns
mod SummaryRuns
mod ReplayRuns
