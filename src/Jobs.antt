-- ===== src/Jobs.antt =====
-- The persisted jobs of inbound emails: apps/api/src/repositories/job.repository.ts and the job half of
-- apps/api/src/workers/email-processing.worker.ts.
pub mod Rows
pub mod Emails
pub mod Runs
mod Tests
