-- ===== src/Commands.antt =====
-- Device commands: backend/internal/commands.
pub mod Domain
pub mod Repository
pub mod Service
pub mod Consumer
pub mod Safety
pub mod Calls
pub mod Idempotency
pub mod Outcomes
mod Tests
