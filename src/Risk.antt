-- ===== src/Risk.antt =====
-- The capital-protection rules (app/risk).
pub mod Models
pub mod Mode
pub mod DemoValidation
pub mod Calculator
pub mod CircuitBreaker
pub mod Gates
