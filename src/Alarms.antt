-- ===== src/Alarms.antt =====
-- The alarm component: backend/internal/alarms (domain, the SQL repositories, the service).
pub mod Domain
pub mod Repository
pub mod Invariant
pub mod Lifecycle
pub mod Safety
pub mod Samples
pub mod Service
pub mod Operations
pub mod Calls
pub mod Hysteresis
pub mod Slots
pub mod Evaluation
pub mod Clearing
pub mod Requests
mod TestData
mod Tests
mod EvaluationTests
