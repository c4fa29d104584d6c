-- ===== src/Notices.antt =====
-- The notifications of alarms: backend/internal/alarms/notify.
pub mod Domain
pub mod Message
pub mod Notifier
pub mod Spacing
pub mod Escalation
mod Tests
