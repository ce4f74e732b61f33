-- ===== src/Execution/Attempts.antt =====
-- The rows of execution_attempts (ExecutionAttempt of app/db/models/entities.py) and the records that
-- app/execution/sqlalchemy_idempotency.py reads from them.
use sarkfxbot.Base.{ℕ, String, str_eq, Option, none, some, [], if◌then◌else◌}
use sarkfxbot.Base.Dict.{Dict, lookup}
use sarkfxbot.Base.Exec.{Result, ok, err, value_error}
use sarkfxbot.Domain.Models.{Timestamp}
use sarkfxbot.Execution.Idempotency.{
  IdempotencyStatus, ExecutionRecord, claimed, submitted, succeeded, protection_failed, rejected,
  unknown,
}
use sarkfxbot.Execution.Payloads.{request_from_payload, report_from_payload}
use sarkfxbot.Execution.Json.{Value, null, number, Payload, get_or, instant_of, ◌>>=◌}

pub record ExecutionAttempt : Type 0 where
  pub order_id : String
  pub attempt_number : ℕ
  pub attempt_key : String
  pub status : String
  pub request_payload : Dict Payload
  pub response_payload : Option (Dict Payload)
  pub broker_ticket : Option String
  pub broker_code : Option String
  pub error_message : Option String
  pub started_at : Timestamp
  pub completed_at : Option Timestamp

-- The rows by their attempt_key, which is unique.
abbrev pub Table : Type 0
Table = Dict ExecutionAttempt

-- The values of IdempotencyStatus
abbrev pub status_text : IdempotencyStatus → String
status_text claimed = "CLAIMED"
status_text submitted = "SUBMITTED"
status_text succeeded = "SUCCEEDED"
status_text protection_failed = "PROTECTION_FAILED"
status_text rejected = "REJECTED"
status_text unknown = "UNKNOWN"

abbrev pub status_of_text : String → Result IdempotencyStatus
status_of_text s =
    if str_eq s "CLAIMED"
    then ok claimed
    else if str_eq s "SUBMITTED"
    then ok submitted
    else if str_eq s "SUCCEEDED"
    then ok succeeded
    else if str_eq s "PROTECTION_FAILED"
    then ok protection_failed
    else if str_eq s "REJECTED"
    then ok rejected
    else if str_eq s "UNKNOWN"
    then ok unknown
    else err (value_error "not a valid IdempotencyStatus")

-- attempt.response_payload or {}
abbrev pub or_nothing : Option (Dict Payload) → Dict Payload
or_nothing none = []
or_nothing (some response) = response

abbrev pub or_text : Option String → String
or_text none = ""
or_text (some s) = s

-- reason or None
abbrev pub or_no_text : String → Option String
or_no_text s = if str_eq s "" then none else some s

abbrev pub or_time : Option Timestamp → Timestamp → Timestamp
or_time none t = t
or_time (some s) t = s

-- updated_at by its text, or the other time where there is none
abbrev pub time_or : Timestamp → Value → Result Timestamp
time_or other null = ok other
time_or other v = instant_of v

abbrev number_of : Value → Result ℕ
number_of (number n) = ok n
number_of _ = err (value_error "a value of another type")

-- int(response.get("version", 1))
abbrev pub version_of : Dict Payload → Result ℕ
version_of response = do v ← get_or (number 1) (lookup "version" response); number_of v

abbrev pub updated_of : Dict Payload → Timestamp → Result Timestamp
updated_of response other = do v ← get_or null (lookup "updated_at" response); time_or other v

-- _record
unfoldable pub record_of : ExecutionAttempt → Result ExecutionRecord
record_of a = do
  updated_at ← updated_of (or_nothing a.response_payload) (or_time a.completed_at a.started_at)
  request ← request_from_payload a.request_payload
  status ← status_of_text a.status
  report ← report_from_payload (or_nothing a.response_payload)
  version ← version_of (or_nothing a.response_payload)
  ok (record {
    idempotency_key = a.attempt_key;
    request = request;
    status = status;
    report = report;
    reason = or_text a.error_message;
    version = version;
    created_at = a.started_at;
    updated_at = updated_at;
  })
