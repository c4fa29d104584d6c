-- ===== src/Strategy.antt =====
-- The strategies of stations: backend/internal/strategy.
pub mod Domain
pub mod Repository
pub mod Service
pub mod Latest
pub mod Engine
pub mod Due
pub mod Evidence
pub mod Safety
pub mod Repeats
pub mod Sharing
pub mod Bounds
mod Tests
