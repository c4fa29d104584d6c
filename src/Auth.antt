-- ===== src/Auth.antt =====
-- Authentication and roles of HTTP requests: backend/internal/auth.
pub mod Policy
pub mod Middleware
pub mod Guard
pub mod Ingest
pub mod Freshness
mod Tests
