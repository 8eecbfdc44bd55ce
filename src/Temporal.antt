-- ===== src/Temporal.antt =====
-- src/temporal: the activities and the workflows that Temporal runs.
pub mod Activities
pub mod Workflows
pub mod Attempts
pub mod Audited
pub mod Safe
pub mod Once
pub mod Systems
pub mod Reached
pub mod Ledgers
pub mod Refined
pub mod Sweep
pub mod Swept
pub mod Drained
mod Tests
