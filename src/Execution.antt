-- ===== src/Execution.antt =====
-- Order execution (app/execution).
pub mod Idempotency
pub mod Models
pub mod World
pub mod Protection
pub mod Records
pub mod Submission
pub mod Decision
pub mod Executor
pub mod Recovery
pub mod SingleSend
pub mod Positions
pub mod Json
pub mod Payloads
pub mod Attempts
pub mod SqlStore
pub mod Ledgers
pub mod Reconciliation
