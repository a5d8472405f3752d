-- ===== src/Examples.antt =====
-- Runs of the model at concrete inputs.
pub mod Data
mod QueueRuns
mod WorkerRuns
mod OtherRuns
mod ScanRuns
mod ServerRuns
mod LyricsRuns
mod ToolRuns
