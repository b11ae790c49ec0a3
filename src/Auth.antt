-- ===== src/Auth.antt =====
-- Who may use the administration API: apps/api/src/services/auth.service.ts and
-- apps/api/src/middleware/auth.
pub mod Types
pub mod Rows
pub mod Sessions
pub mod Runs
pub mod Access
mod Tests
