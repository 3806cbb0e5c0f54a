-- ===== src/Governance.antt =====
-- Governance: action intents and their approval, the hash-chained ledger, evidence
-- (src/domain/governance, src/contracts/governance.ts).
pub mod Canonical
pub mod Intent
pub mod Ledger
