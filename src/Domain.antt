-- ===== src/Domain.antt =====
-- The broker-neutral values of the engine (app/domain).
pub mod Enums
pub mod Models
pub mod Orders
pub mod StateMachine
