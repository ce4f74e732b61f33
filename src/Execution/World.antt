-- ===== src/Execution/World.antt =====
-- The state that the services of app/execution share: the broker's trace of calls, the idempotency
-- records and the circuit states; and the configuration of a `TradeExecutor`. The executor's lock
-- lets one operation run at a time, so an operation is one action on this state.
use sarkfxbot.Base.{ℕ, Bool, Option}
use sarkfxbot.Base.Exec.{Exec, ok}
use sarkfxbot.Domain.Models.{Timestamp}
use sarkfxbot.Brokers.Port.{Broker, Trace}
use sarkfxbot.Risk.Models.{RiskLimits}
use sarkfxbot.Risk.DemoValidation.{DemoThresholds}
use sarkfxbot.Risk.CircuitBreaker.{CircuitStore, Schedule}
use sarkfxbot.Execution.Idempotency.{RecordStore}

pub record World : Type 0 where
  pub calls : Trace
  pub records : RecordStore
  pub circuits : CircuitStore

-- The arguments of `TradeExecutor.__init__`; `circuit` is absent without a circuit breaker. Its
-- check that the number of attempts is positive is a hypothesis where it matters.
pub record Executor : Type 0 where
  pub adapter : Broker
  pub limits : RiskLimits
  pub circuit : Option Schedule
  pub require_demo_validation_for_live : Bool
  pub demo : DemoThresholds
  pub protection_visibility_attempts : ℕ

module _ {A : Type 0} where
  abbrev pub on_broker : Exec Trace A → Exec World A
  on_broker m w = let (r, calls) = m w.calls in (r, record w { calls = calls })

  abbrev pub on_records : Exec RecordStore A → Exec World A
  on_records m w = let (r, records) = m w.records in (r, record w { records = records })

  abbrev pub on_circuits : Exec CircuitStore A → Exec World A
  on_circuits m w = let (r, circuits) = m w.circuits in (r, record w { circuits = circuits })

-- self._clock()
abbrev pub read_clock : Executor → Exec World Timestamp
read_clock x w = (ok (x.adapter.clock w.calls), w)
