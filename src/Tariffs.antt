-- ===== src/Tariffs.antt =====
-- Prices of energy: backend/internal/settlement/infrastructure/pricing.
pub mod Domain
pub mod Provider
