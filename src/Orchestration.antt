-- ===== src/Orchestration.antt =====
-- One inbound event from its conversation to the reply (apps/api/src/orchestration).
pub mod Types
pub mod Tools
pub mod Prompt
pub mod Attempts
pub mod PostProcessing
pub mod Stages
pub mod Conversations
pub mod Execution
mod Tests
