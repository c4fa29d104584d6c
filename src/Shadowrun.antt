-- ===== src/Shadowrun.antt =====
-- Shadow runs, which compare settlements with the statistics: backend/internal/shadowrun.
pub mod Domain
pub mod Config
pub mod Reconcile
pub mod Diff
pub mod Days
pub mod Extremes
pub mod Prices
pub mod Reports
pub mod Repository
pub mod Steps
pub mod Runner
pub mod Frame
pub mod Backed
pub mod Jobs
pub mod Calls
pub mod Answers
mod Tests
