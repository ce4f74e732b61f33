-- ===== src/Execution/Executor/Leaves.antt =====
-- The steps of a submission in app/execution/executor.py that leave the broker's trace of calls, and
-- what an action on the trace ensures of the state.
use sarkfxbot.Base.{String, Option}
use sarkfxbot.Base.Exec.{Result, ok, err, Exec}
use sarkfxbot.Domain.Enums.{TradeState}
use sarkfxbot.Domain.Models.{Timestamp}
use sarkfxbot.Domain.Orders.{OrderRequest, ExecutionReport}
use sarkfxbot.Risk.Models.{RiskDecision}
use sarkfxbot.Execution.Idempotency.{IdempotencyStatus, RecordStore, Change, update}
use sarkfxbot.Execution.World.{World, Executor, on_broker, on_records, read_clock}
use sarkfxbot.Base.Ensures.{Post, Ensures, Ensures-error, Ensures-pure, Ensures-bind, Post-of}
use sarkfxbot.Execution.SingleSend.Submitting.{read_clock-Keeps, advance-Keeps}
use sarkfxbot.Brokers.Port.{Trace}
use sarkfxbot.Execution.Submission.{Progress, advance, record_status, write, note_status}

-- Every state.
abbrev pub Any : World → Type 0
Any w = Unit

abbrev pub Anyhow : Trace → Type 0
Anyhow calls = Unit

module _ {A : Type 0} where
  -- An action that leaves the trace.
  abbrev pub Leaves : (Trace → Type 0) → Exec World A → Type 0
  Leaves P m = Ensures Any (λ w. P w.calls) m (λ _ w. P w.calls)

  pub on_records-Leaves : (P : Trace → Type 0) (m : Exec RecordStore A) → Leaves P (on_records m)
  on_records-Leaves P m = record {
    post = λ w h.
        Post-of Any (λ _ w. P w.calls) (m w.records).0 (record w { records = (m w.records).1 })
          (λ _ _. h) (λ _ _. tt);
  }

  -- What an action on the trace ensures holds of the state.
  pub on_broker-Ensures :
      {P : Trace → Type 0} {Q : A → Trace → Type 0} (m : Exec Trace A)
      → Ensures Anyhow P m Q
      → Ensures Any (λ w. P w.calls) (on_broker m) (λ a w. Q a w.calls)
  on_broker-Ensures {P} {Q} m h = record {
    post = λ w k. let (r, calls) = m w.calls in of_answer w r calls (h.post w.calls k);
  }
    where
      of_answer :
          (w : World) (r : Result A) (calls : Trace)
          → Post Anyhow Q (r, calls)
          → Post Any (λ a w. Q a w.calls) (r, record w { calls = calls })
      of_answer w (ok a) calls h = h
      of_answer w (err e) calls h = tt

module _ (x : Executor) (q : OrderRequest) (risk : RiskDecision) where
  pub advance-Leaves :
      (P : Trace → Type 0) (p : Progress) (target : TradeState) (reason : String)
      → Leaves P (advance x p target reason)
  advance-Leaves P p target reason =
      Ensures-error (λ _ _. tt) (advance-Keeps x (λ w. P w.calls) p target reason)

  write-Leaves : (P : Trace → Type 0) (c : Change) → Leaves P (write x q risk c)
  unfolding write
  write-Leaves P c =
      Ensures-bind (on_records (update q.idempotency_key c)) _ (on_records-Leaves P _)
        (λ r. Ensures-pure tt (λ w h. h))

  pub note_status-Leaves :
      (P : Trace → Type 0) (s : IdempotencyStatus) (r : Option ExecutionReport) (reason : String)
      → Leaves P (note_status x q risk s r reason)
  unfolding note_status
  note_status-Leaves P s r reason =
      Ensures-bind (read_clock x) _
        (Ensures-error (λ _ _. tt) (read_clock-Keeps x (λ w. P w.calls)))
        (λ now. write-Leaves P (record { status = s; now = now; report = r; reason = reason }))

  pub record_status-Leaves :
      (P : Trace → Type 0) (now : Timestamp) (s : IdempotencyStatus) (reason : String)
      → Leaves P (record_status x q risk now s reason)
  unfolding record_status
  record_status-Leaves P now s reason = write-Leaves P _
