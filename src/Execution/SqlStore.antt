-- ===== src/Execution/SqlStore.antt =====
-- app/execution/sqlalchemy_idempotency.py: the idempotency store over the rows of execution_attempts
-- (ExecutionAttempt of app/db/models/entities.py). A session is one step on the table, whose errors
-- before the commit leave it as it was. `resolve` is the given order_id_resolver, and `meanwhile`
-- what other processes commit between the first select of a claim and its own commit.
pub mod Rows
pub mod Refines
pub mod Races
use sarkfxbot.Base.{
  ℕ, ◌+◌, String, str_eq, Bool, true, false, not, ◌&&◌, ◌||◌, Option, none, some, List, [], ◌∷◌,
  any, ◌==◌, if◌then◌else◌,
}
use sarkfxbot.Base.Dict.{Dict, lookup, insert, values}
use sarkfxbot.Base.Exec.{
  Result, ok, err, value_error, key_error, runtime_error, Exec, pure, raise, lift,
}
use sarkfxbot.Domain.Models.{Timestamp}
use sarkfxbot.Domain.Orders.{OrderRequest, ExecutionReport}
use sarkfxbot.Execution.Idempotency.{
  IdempotencyStatus, ExecutionRecord, Change, may_become, claimed, submitted, succeeded,
  protection_failed, rejected, unknown,
}
use sarkfxbot.Execution.Payloads.{
  request_payload, request_from_payload, report_payload, report_from_payload,
}
use sarkfxbot.Execution.Json.{
  Value, null, number, instant, text, Payload, value, object, get_or, instant_of, ◌>>=◌,
}
use sarkfxbot.Execution.Attempts.{
  ExecutionAttempt, Table, or_no_text, or_nothing, or_text, or_time, record_of, status_of_text,
  status_text, time_or, updated_of, version_of,
}

-- The row of a new claim.
abbrev pub new_attempt : OrderRequest → Timestamp → String → ExecutionAttempt
new_attempt r now order_id = record {
  order_id = order_id;
  attempt_number = 1;
  attempt_key = r.idempotency_key;
  status = status_text claimed;
  request_payload = request_payload r;
  response_payload =
      some (("version", value (number 1)) ∷ ("updated_at", value (instant now)) ∷ []);
  broker_ticket = none;
  broker_code = none;
  error_message = none;
  started_at = now;
  completed_at = none;
}

abbrev pub is_there : {A : Type 0} → Option A → Bool
is_there none = false
is_there (some a) = true

-- uq_execution_attempt_number
abbrev pub same_attempt : ExecutionAttempt → ExecutionAttempt → Bool
same_attempt a b = str_eq a.order_id b.order_id && a.attempt_number == b.attempt_number

-- A row that the constraints of the table do not let in.
unfoldable pub violates : ExecutionAttempt → Table → Bool
violates a table = is_there (lookup a.attempt_key table) || any (same_attempt a) (values table)

-- What is returned of a row after a session.
abbrev pub answer_row : ExecutionAttempt → Bool → Table → Result (ExecutionRecord × Bool) × Table
answer_row a won table = ((do r ← record_of a; ok (r, won)), table)

-- The select after a rollback.
abbrev pub lost_race : Option ExecutionAttempt → Exec Table (ExecutionRecord × Bool)
lost_race none = raise (runtime_error "IntegrityError")
lost_race (some raced) = answer_row raced false

-- The add and the commit of a claim.
abbrev pub commit_new : ExecutionAttempt → Exec Table (ExecutionRecord × Bool)
commit_new a table =
    if violates a table
    then lost_race (lookup a.attempt_key table) table
    else answer_row a true (insert a.attempt_key a table)

module _ (resolve : OrderRequest → Result String) (meanwhile : Table → Table) where
  abbrev pub claim_resolved :
      OrderRequest → Timestamp → Result String → Exec Table (ExecutionRecord × Bool)
  claim_resolved r now (ok order_id) table =
      commit_new (new_attempt r now order_id) (meanwhile table)
  claim_resolved r now (err e) table = (err e, table)

  abbrev pub claim_row :
      OrderRequest → Timestamp → Option ExecutionAttempt → Exec Table (ExecutionRecord × Bool)
  claim_row r now (some existing) = answer_row existing false
  claim_row r now none = claim_resolved r now (resolve r)

  -- _claim_sync
  unfoldable pub claim_sync : OrderRequest → Timestamp → Exec Table (ExecutionRecord × Bool)
  claim_sync r now table = claim_row r now (lookup r.idempotency_key table) table

abbrev pub record_or_none : Option ExecutionAttempt → Result (Option ExecutionRecord)
record_or_none none = ok none
record_or_none (some a) = do r ← record_of a; ok (some r)

-- _get_sync
unfoldable pub get_sync : String → Exec Table (Option ExecutionRecord)
get_sync key table = (record_or_none (lookup key table), table)

abbrev pub is_final : IdempotencyStatus → Bool
is_final succeeded = true
is_final protection_failed = true
is_final rejected = true
is_final _ = false

-- The response of an update: a report is in it when one is given.
abbrev pub report_entry : Option ExecutionReport → Dict Payload
report_entry none = []
report_entry (some r) = ("report", object (report_payload r)) ∷ []

abbrev pub new_response : ℕ → Change → Dict Payload
new_response version c =
    ("version", value (number version))
    ∷ ("updated_at", value (instant c.now))
    ∷ report_entry c.report

-- The columns that are set from a report, when one is given.
abbrev pub ticket_or : Option ExecutionReport → Option String → Option String
ticket_or none old = old
ticket_or (some r) old = r.broker_ticket

abbrev pub code_or : Option ExecutionReport → Option String → Option String
code_or none old = old
code_or (some r) old = r.broker_code

abbrev pub changed_attempt : ExecutionAttempt → ℕ → Change → ExecutionAttempt
changed_attempt a version c = record a {
  broker_ticket = ticket_or c.report a.broker_ticket;
  broker_code = code_or c.report a.broker_code;
  status = status_text c.status;
  response_payload = some (new_response (version + 1) c);
  error_message = or_no_text c.reason;
  completed_at = if is_final c.status then some c.now else a.completed_at;
}

-- What an update of a row writes, or the error.
abbrev pub change_of : ExecutionAttempt → Change → Result ExecutionAttempt
change_of a c = do
  current ← status_of_text a.status
  if may_become current c.status
      then (do
        version ← version_of (or_nothing a.response_payload)
        ok (changed_attempt a version c))
      else err (runtime_error "invalid idempotency transition")

abbrev pub write_row : String → Result ExecutionAttempt → Exec Table ExecutionRecord
write_row key (err e) table = (err e, table)
write_row key (ok a) table = (record_of a, insert key a table)

abbrev pub update_row : String → Change → Option ExecutionAttempt → Exec Table ExecutionRecord
update_row key c none = raise (key_error key)
update_row key c (some a) = write_row key (change_of a c)

-- _update_sync
unfoldable pub update_sync : String → Change → Exec Table ExecutionRecord
update_sync key c table = update_row key c (lookup key table) table
