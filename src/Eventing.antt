-- ===== src/Eventing.antt =====
-- Event delivery: backend/internal/eventing and the in-memory bus of
-- backend/internal/analytics/application/eventbus.
pub mod Domain
pub mod Stores
pub mod Delivery
pub mod Counts
pub mod Redelivery
mod Tests
