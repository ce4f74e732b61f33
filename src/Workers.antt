-- ===== src/Workers.antt =====
-- Background jobs (app/workers).
pub mod Lease
