-- ===== src/Pipeline.antt =====
-- src/pipeline: what becomes of a stored message.
pub mod Context
pub mod Handlers
pub mod Orchestrator
mod Tests
