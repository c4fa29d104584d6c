-- ===== src/Statements.antt =====
-- Monthly statements: the statement parts of backend/internal/settlement (domain/statement.go,
-- infrastructure/postgres/statement_repository.go, application/statement_service.go).
pub mod Domain
pub mod Repository
pub mod Service
pub mod Invariant
pub mod Safety
pub mod Calls
pub mod Versions
pub mod Regeneration
pub mod Balance
pub mod Sums
pub mod Totals
pub mod Requests
mod Tests
