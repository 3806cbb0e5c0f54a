-- ===== src/Engine.antt =====
-- Execution engines (src/domain/runners/execution-engine.ts, src/contracts/execution-engines.ts).
pub mod Excerpts
pub mod Base64
pub mod Contract
pub mod Streams
pub mod Result
pub mod Input
pub mod Execute
pub mod Complete
pub mod Tests
pub mod Probe
