-- ===== src/Settlement.antt =====
-- The settlement component: backend/internal/settlement (day settlements, and statements).
pub mod Domain
pub mod Memory
pub mod Day
pub mod Once
pub mod Announcements
mod Tests
