-- ===== src/Jobs.antt =====
-- src/jobs: job postings, how they pay, and which of them a goal may be matched with.
pub mod Models
pub mod Repository
pub mod Create
pub mod Candidates
mod Tests
unfoldable pub use Models.*
