-- ===== src/Brokers.antt =====
-- The broker port (app/brokers).
pub mod Port
pub mod Avoids
pub mod Symbols
pub mod Mock
pub mod Retry
