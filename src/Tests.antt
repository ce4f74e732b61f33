-- ===== src/Tests.antt =====
-- Tests of the model at concrete inputs.
pub mod Fixtures
pub mod Services
pub mod Lifecycles
pub mod Risks
pub mod Executions
pub mod Holdings
pub mod Brokers
pub mod Cancels
pub mod Mocks
pub mod Ledgers
pub mod Markets
pub mod Stores
pub mod Retries
pub mod Jobs
