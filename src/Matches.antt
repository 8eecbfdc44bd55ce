-- ===== src/Matches.antt =====
-- src/matches: the jobs that reach a worker's goal.
pub mod Models
pub mod Knapsack
pub mod Sorting
pub mod Formatter
pub mod Repository
pub mod Service
mod Tests
