-- ===== src/Skills/Validity.antt =====
-- What holds of the skill tables at all times: ids are fresh, the stored sources are the vetted ones,
-- and a skill is enabled only with a current version whose latest vetting is not a failure.
pub mod Rows
pub mod Steps
pub mod Operations
