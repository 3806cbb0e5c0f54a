-- ===== src/Workflow.antt =====
-- Workflow definitions, and runs of them as state (src/contracts/workflow-definition.ts,
-- src/contracts/workflow-run.ts, src/domain/workflows). What is declared is not executed: a run is
-- initialised, written down, and read back.
pub mod Records
pub mod Definition
pub mod Run
pub mod Snapshot
