-- ===== src/Execution/SqlStore/Rows.antt =====
-- A row of execution_attempts and the record that it stands for
-- (app/execution/sqlalchemy_idempotency.py).
use sarkfxbot.Base.{
  ◌≡◌, refl, sym, ◌∙◌, true, false, Option, none, some, [], ◌∷◌, String, str_eq, eq_iff, arith, any,
  All, Bool-cases, inl, inr,
}
use sarkfxbot.Base.Dict.{lookup, insert, values}
use sarkfxbot.Base.Exec.{ok, err, runtime_error}
use sarkfxbot.Domain.Models.{Timestamp}
use sarkfxbot.Domain.Orders.{OrderRequest, ExecutionReport}
use sarkfxbot.Execution.Idempotency.{
  IdempotencyStatus, ExecutionRecord, Change, new_record, changed, or_current, claimed, submitted,
  succeeded, protection_failed, rejected, unknown, may_become,
}
use sarkfxbot.Execution.Payloads.{request_from_payload, report_from_payload, report_at}
use sarkfxbot.Execution.Payloads.RoundTrips.{IsStorable, request-back, IsReportable, report-back}
use sarkfxbot.Execution.SqlStore.{
  new_attempt, changed_attempt, change_of, is_final, same_attempt, report_entry,
}
use sarkfxbot.Execution.Attempts.{
  ExecutionAttempt, status_of_text, status_text, or_nothing, or_text, or_no_text, version_of,
  updated_of, or_time, record_of, Table,
}

-- The columns of the row are those of the record, whose report is there at the end only.
pub record Stands (a : ExecutionAttempt) (r : ExecutionRecord) : Type 0 where
  pub key : a.attempt_key ≡ r.idempotency_key
  pub request : request_from_payload a.request_payload ≡ ok r.request
  pub status : status_of_text a.status ≡ ok r.status
  pub report : report_from_payload (or_nothing a.response_payload) ≡ ok r.report
  pub reason : or_text a.error_message ≡ r.reason
  pub version : version_of (or_nothing a.response_payload) ≡ ok r.version
  pub created : a.started_at ≡ r.created_at
  pub updated :
      updated_of (or_nothing a.response_payload) (or_time a.completed_at a.started_at)
      ≡ ok r.updated_at
  pub open_bare : is_final r.status ≡ false → r.report ≡ none

pub record_of-Stands :
    (a : ExecutionAttempt) (r : ExecutionRecord) → Stands a r → record_of a ≡ ok r
unfolding record_of
record_of-Stands a r h =
    rw (h.updated, h.request, h.status, h.report, h.version, h.key, h.reason, h.created) refl

status-back : (s : IdempotencyStatus) → status_of_text (status_text s) ≡ ok s
status-back claimed = refl
status-back submitted = refl
status-back succeeded = refl
status-back protection_failed = refl
status-back rejected = refl
status-back unknown = refl

pub new_attempt-Stands :
    (q : OrderRequest) (now : Timestamp) (order_id : String)
    → IsStorable q
    → Stands (new_attempt q now order_id) (new_record q now)
unfolding report_from_payload lookup
new_attempt-Stands q now order_id h = record {
  key = refl;
  request = request-back q h;
  status = refl;
  report = refl;
  reason = refl;
  version = refl;
  created = refl;
  updated = refl;
  open_bare = λ e. refl;
}

-- A change whose report, if any, comes with a final status and is one that is read back.
pub record IsUsual (c : Change) : Type 0 where
  pub ends : (r : ExecutionReport) → c.report ≡ some r → is_final c.status ≡ true
  pub readable : (r : ExecutionReport) → c.report ≡ some r → IsReportable r

pub may_become-open : (s t : IdempotencyStatus) → may_become s t ≡ true → is_final s ≡ false
may_become-open claimed t h = refl
may_become-open submitted t h = refl
may_become-open unknown t h = refl
may_become-open succeeded t h = absurd (cc)
may_become-open protection_failed t h = absurd (cc)
may_become-open rejected t h = absurd (cc)

reason-back : (s : String) → or_text (or_no_text s) ≡ s
reason-back s = elim (Bool-cases (str_eq s "")) [
  | inl e ↦ rw e (sym ((eq_iff s "").0 e))
  | inr e ↦ rw e refl
]

entry-back :
    (o : Option ExecutionReport)
    → ((r : ExecutionReport) → o ≡ some r → IsReportable r)
    → report_at (lookup "report" (report_entry o)) ≡ ok o
unfolding lookup
entry-back none h = refl
entry-back (some r) h = rw (report-back r (h r refl)) refl

bare_after :
    (c : Change) (o : Option ExecutionReport)
    → IsUsual c
    → c.report ≡ o
    → is_final c.status ≡ false
    → o ≡ none
bare_after c none h e k = refl
bare_after c (some r) h e k = absurd (let f = h.ends r e in cc)

or_none : (o : Option ExecutionReport) → o ≡ or_current o none
or_none none = refl
or_none (some r) = refl

pub changed_attempt-Stands :
    (a : ExecutionAttempt) (r : ExecutionRecord) (c : Change)
    → Stands a r
    → IsUsual c
    → may_become r.status c.status ≡ true
    → Stands (changed_attempt a r.version c) (changed r c)
unfolding report_from_payload lookup
changed_attempt-Stands a r c h usual m =
    let bare = h.open_bare (may_become-open r.status c.status m) in
    let same : or_current c.report r.report ≡ c.report = rw bare (sym (or_none c.report)) in
    record {
      key = h.key;
      request = h.request;
      status = status-back c.status;
      report = rw same (entry-back c.report usual.readable);
      reason = reason-back c.reason;
      version = refl;
      created = h.created;
      updated = refl;
      open_bare = λ e. same ∙ bare_after c c.report usual refl e;
    }

pub change_of-Stands :
    (a : ExecutionAttempt) (r : ExecutionRecord) (c : Change)
    → Stands a r
    → may_become r.status c.status ≡ true
    → change_of a c ≡ ok (changed_attempt a r.version c)
change_of-Stands a r c h m = rw (h.status, m, h.version) refl

pub change_refused :
    (a : ExecutionAttempt) (r : ExecutionRecord) (c : Change)
    → Stands a r
    → may_become r.status c.status ≡ false
    → change_of a c ≡ err (runtime_error "invalid idempotency transition")
change_refused a r c h m = rw (h.status, m) refl

-- Every row has the order of its key.
abbrev pub IsOrdered : (String → String) → Table → Type 0
IsOrdered order_of t = All (λ (row : String × ExecutionAttempt). row.1.order_id ≡ order_of row.0) t

pub insert-IsOrdered :
    (order_of : String → String) (k : String) (a : ExecutionAttempt) (t : Table)
    → a.order_id ≡ order_of k
    → IsOrdered order_of t
    → IsOrdered order_of (insert k a t)
unfolding insert
insert-IsOrdered order_of k a [] h o = (h, tt)
insert-IsOrdered order_of k a ((j, b) ∷ t) h o = elim (Bool-cases (str_eq j k)) [
  | inl e ↦ rw e (h, o.1)
  | inr e ↦ rw e (o.0, insert-IsOrdered order_of k a t h o.1)
]

orders_apart :
    (order_of : String → String) (k j o o' : String)
    → ((i j : String) → order_of i ≡ order_of j → i ≡ j)
    → o ≡ order_of k
    → o' ≡ order_of j
    → str_eq j k ≡ false
    → str_eq o o' ≡ false
orders_apart order_of k j o o' inj own other apart = elim (Bool-cases (str_eq o o')) [
  | inl e ↦
      let same : k ≡ j = inj k j (sym own ∙ (eq_iff o o').0 e ∙ other) in
      absurd (ground (arith, eq_iff j k, sym same))
  | inr e ↦ e
]

pub no_other :
    (order_of : String → String) (a : ExecutionAttempt) (t : Table)
    → ((i j : String) → order_of i ≡ order_of j → i ≡ j)
    → a.order_id ≡ order_of a.attempt_key
    → IsOrdered order_of t
    → lookup a.attempt_key t ≡ none
    → any (same_attempt a) (values t) ≡ false
unfolding lookup
no_other order_of a [] inj own o e = refl
no_other order_of a ((j, b) ∷ t) inj own o e =
    let apart : str_eq j a.attempt_key ≡ false = ground arith in
    let rest : lookup a.attempt_key t ≡ none = ground arith in
    rw (orders_apart order_of a.attempt_key j a.order_id b.order_id inj own o.0 apart)
      (no_other order_of a t inj own o.1 rest)
