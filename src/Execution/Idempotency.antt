-- ===== src/Execution/Idempotency.antt =====
-- app/execution/idempotency.py: one record for each idempotency key, claimed once, whose status
-- moves along a fixed table.
pub mod Laws
pub mod History
use sarkfxbot.Base.{
  ℕ, ◌+◌, String, Bool, true, false, Option, none, some, List, [], ◌∷◌, any, ◌==◌, if◌then◌else◌,
}
use sarkfxbot.Base.Dict.{Dict, lookup, insert}
use sarkfxbot.Base.Exec.{key_error, runtime_error, Exec, pure, raise}
use sarkfxbot.Domain.Models.{Timestamp}
use sarkfxbot.Domain.Orders.{OrderRequest, ExecutionReport}

pub data IdempotencyStatus : Type 0 where
  claimed submitted succeeded protection_failed rejected unknown : IdempotencyStatus

pub record ExecutionRecord : Type 0 where
  pub idempotency_key : String
  pub request : OrderRequest
  pub status : IdempotencyStatus
  pub report : Option ExecutionReport
  pub reason : String
  pub version : ℕ
  pub created_at : Timestamp
  pub updated_at : Timestamp

abbrev pub RecordStore : Type 0
RecordStore = Dict ExecutionRecord

abbrev pub new_record : OrderRequest → Timestamp → ExecutionRecord
new_record r now = record {
  idempotency_key = r.idempotency_key;
  request = r;
  status = claimed;
  report = none;
  reason = "";
  version = 1;
  created_at = now;
  updated_at = now;
}

-- InMemoryIdempotencyStore.claim, by what is stored under the key
claim_of :
    OrderRequest → Timestamp → Option ExecutionRecord → Exec RecordStore (ExecutionRecord × Bool)
claim_of r now (some existing) store = pure (existing, false) store
claim_of r now none store =
    pure (new_record r now, true) (insert r.idempotency_key (new_record r now) store)

unfoldable pub claim : OrderRequest → Timestamp → Exec RecordStore (ExecutionRecord × Bool)
unfolding claim_of
claim r now store = claim_of r now (lookup r.idempotency_key store) store

-- InMemoryIdempotencyStore.get
unfoldable pub get : String → Exec RecordStore (Option ExecutionRecord)
get key store = pure (lookup key store) store

-- The table of `update`.
abbrev pub next_statuses : IdempotencyStatus → List IdempotencyStatus
next_statuses claimed = submitted ∷ rejected ∷ []
next_statuses submitted = succeeded ∷ protection_failed ∷ rejected ∷ unknown ∷ []
next_statuses unknown = succeeded ∷ protection_failed ∷ rejected ∷ []
next_statuses succeeded = []
next_statuses protection_failed = []
next_statuses rejected = []

abbrev pub status_index : IdempotencyStatus → ℕ
status_index claimed = 0
status_index submitted = 1
status_index succeeded = 2
status_index protection_failed = 3
status_index rejected = 4
status_index unknown = 5

-- status in allowed[current.status]
abbrev pub may_become : IdempotencyStatus → IdempotencyStatus → Bool
may_become s t = any (λ u. status_index u == status_index t) (next_statuses s)

-- report if report is not None else current.report
abbrev pub or_current {ℓ} : {A : Type ℓ} → Option A → Option A → Option A
or_current none old = old
or_current (some a) old = some a

-- The arguments of `update` besides the key.
pub record Change : Type 0 where
  pub status : IdempotencyStatus
  pub now : Timestamp
  pub report : Option ExecutionReport
  pub reason : String

abbrev pub changed : ExecutionRecord → Change → ExecutionRecord
changed r c = record r {
  status = c.status;
  report = or_current c.report r.report;
  reason = c.reason;
  version = r.version + 1;
  updated_at = c.now;
}

-- InMemoryIdempotencyStore.update, by what is stored under the key
update_of : String → Change → Option ExecutionRecord → Exec RecordStore ExecutionRecord
update_of key c none store = raise (key_error key) store
update_of key c (some r) store =
    if may_become r.status c.status
    then pure (changed r c) (insert key (changed r c) store)
    else raise (runtime_error "invalid idempotency transition") store

unfoldable pub update : String → Change → Exec RecordStore ExecutionRecord
unfolding update_of
update key c store = update_of key c (lookup key store) store
