-- ===== src/Security.antt =====
-- The vetting of skill sources and the guard of their execution: apps/api/src/security.
pub mod Types
pub mod Rules
pub mod Scanner
pub mod Policy
