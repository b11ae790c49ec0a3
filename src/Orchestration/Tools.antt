-- ===== src/Orchestration/Tools.antt =====
-- The tools that the model may call: which are offered, and how a call is executed.
pub mod Settings
pub mod Definitions
pub mod Catalog
pub mod Executor
pub mod Calls
pub mod Arguments
pub mod SubAgents
pub mod Inputs
pub mod Tasks
pub mod Actions
