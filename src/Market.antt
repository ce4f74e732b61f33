-- ===== src/Market.antt =====
-- Market data (app/market): candles, sessions and swing structure.
pub mod Sort
pub mod Candles
pub mod Sessions
pub mod News
pub mod Swings
pub mod Structure
