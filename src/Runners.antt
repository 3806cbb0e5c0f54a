-- ===== src/Runners.antt =====
-- Runners: liveness, deadlines, and the admission of a runner's claim of a run
-- (src/domain/runners, src/contracts/runners.ts, src/contracts/execution-engines.ts).
pub mod Basics
pub mod Liveness
pub mod Deadline
pub mod Latest
pub mod Lease
pub mod Policy
pub mod Declaration
pub mod Claim
pub mod Evidence
pub mod Inventory
pub mod EngineClaim
mod Tests
