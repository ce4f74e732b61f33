-- ===== src/Execution/SingleSend.antt =====
-- The invariant of app/execution: an idempotency key has been sent to the broker at most once, and
-- only when its record has left CLAIMED.
pub mod Steps
pub mod Submitting
pub mod Deciding
pub mod Recovering
pub mod Histories
use sarkfxbot.Base.{ℕ, ◌≤◌, String, str_eq, Bool, false, Option, none, some, count}
use sarkfxbot.Base.Dict.{lookup}
use sarkfxbot.Brokers.Port.{Call, Trace}
use sarkfxbot.Execution.Idempotency.{IdempotencyStatus, claimed, ExecutionRecord, RecordStore}
use sarkfxbot.Execution.World.{World}

-- A call that submits an order under the key.
abbrev pub sends_key : String → Call → Bool
sends_key key (Call.place_market_order q) = str_eq q.idempotency_key key
sends_key key (Call.place_pending_order q) = str_eq q.idempotency_key key
sends_key key _ = false

-- How many orders were submitted under the key.
abbrev pub sends : String → Trace → ℕ
sends key calls = count (sends_key key) calls

-- How many submissions a record allows: none before SUBMITTED, then one.
abbrev pub room_in : IdempotencyStatus → ℕ
room_in claimed = 0
room_in _ = 1

abbrev pub room_of : Option ExecutionRecord → ℕ
room_of none = 0
room_of (some r) = room_in r.status

abbrev pub room : String → RecordStore → ℕ
room key records = room_of (lookup key records)

abbrev pub IsSingle : String → World → Type 0
IsSingle key w = sends key w.calls ≤ room key w.records
