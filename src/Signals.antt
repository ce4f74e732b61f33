-- ===== src/Signals.antt =====
-- Signals (app/signals): statuses and confidence.
pub mod Engine
pub mod Confidence
