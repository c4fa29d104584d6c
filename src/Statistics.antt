-- ===== src/Statistics.antt =====
-- Energy statistics: the domain, the services and the table of backend/internal/analytics.
pub mod Domain
pub mod Rollup
pub mod Completeness
pub mod Repository
pub mod Services
pub mod Announced
pub mod Reads
pub mod Stored
pub mod Calls
pub mod Roundtrip
mod Tests
