-- ===== src/Routing.antt =====
-- The choice of a model for a message: apps/api/src/services/routing.
pub mod Types
pub mod Phrases
pub mod Signals
pub mod Router
pub mod Pricing
pub mod Spend
