-- ===== src/Skills.antt =====
-- The life of a skill, from its ingestion to the check before its execution:
-- apps/api/src/services/skills and apps/api/src/security/execution-guard.ts.
pub mod Types
pub mod Store
pub mod Ingestion
pub mod Management
pub mod Guard
pub mod Validity
pub mod Runs
mod Tests
