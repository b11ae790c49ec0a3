-- ===== src/Memory.antt =====
-- What the assistant remembers: the facts of an exchange and the records that keep them, in
-- apps/api/src/services/memory/memory.service.ts and apps/api/src/repositories/memory.repository.ts.
pub mod Facts
pub mod Records
mod Tests
