-- ===== src/Execution/Executor/Outcomes.antt =====
-- What an outcome of `TradeExecutor.execute` (app/execution/executor.py) means: after BLOCKED or
-- SIGNAL_ONLY the broker was only read, and a new FILLED is a protected position.
use sarkfxbot.Base.{
  String, ◌≡◌, refl, sym, ap, ◌∙◌, ◌⊎◌, inl, inr, Bool, true, false, Option, some, List, [], ◌∷◌,
  count, arith, subst, Option-cases,
}
use sarkfxbot.Base.Dict.{lookup}
use sarkfxbot.Base.Exec.{Result, ok, err, Exec}
use sarkfxbot.Domain.Orders.{OrderRequest}
use sarkfxbot.Brokers.Port.{Trace}
use sarkfxbot.Brokers.Avoids.{is_mutation}
use sarkfxbot.Risk.CircuitBreaker.{CircuitStore}
use sarkfxbot.Risk.Models.{RiskDecision}
use sarkfxbot.Execution.Idempotency
use sarkfxbot.Execution.Idempotency.{ExecutionRecord, IdempotencyStatus, claim}
use sarkfxbot.Domain.Enums.{OrderType}
use sarkfxbot.Execution.Idempotency.Laws.{claim_free, claim_taken}
use sarkfxbot.Execution.Models.{ExecutionStatus, ExecutionCommand, ExecutionOutcome}
use sarkfxbot.Execution.Records.{mapped_status, outcome_from_record}
use sarkfxbot.Execution.World.{World, Executor, on_broker, on_records, on_circuits}
use sarkfxbot.Base.Ensures.{
  Post, Ensures, Keeps, Ensures-to, Ensures-from, Ensures-pure, Ensures-bind, Post-of,
}
use sarkfxbot.Execution.Decision.{stopped, Prepared, claimed}
use sarkfxbot.Execution.Executor.{execute}
use sarkfxbot.Execution.Executor.Leaves.{Any}
use sarkfxbot.Execution.Executor.Laws.{is_stop, IsRead, IsKeyed, StageLaws}
use sarkfxbot.Execution.Executor.Stages.{execute-Ensures}
use sarkfxbot.Execution.Executor.Acted.{is_filled, IsProtectedFill, IsActed, submit-Acts}

-- Nothing was sent, changed, closed or cancelled, and the records are the same.
pub record IsUntouched (before after : World) : Type 0 where
  pub same_mutations : count is_mutation after.calls ≡ count is_mutation before.calls
  pub same_records : after.records ≡ before.records

-- An outcome that repeats a record: the key of the command's signal had one in the state before, of
-- a market order that succeeded, and the outcome carries its request and report.
pub record IsReplay (c : ExecutionCommand) (before : World) (o : ExecutionOutcome) : Type 0 where
  pub stored : ExecutionRecord
  pub request : OrderRequest
  pub keyed : IsKeyed c request
  pub found : lookup request.idempotency_key before.records ≡ some stored
  pub succeeded : stored.status ≡ Idempotency.succeeded
  pub market : stored.request.order_type ≡ OrderType.market
  pub own_request : o.request ≡ some stored.request
  pub own_report : o.report ≡ stored.report
  pub duplicate : o.reasons ≡ "DUPLICATE_EXECUTION_SUPPRESSED" ∷ []

-- A market order of the outcome's request was placed and secured, and nothing was changed at the
-- broker before that.
abbrev pub IsSecuredFill : Executor → World → ExecutionOutcome → World → Type 0
IsSecuredFill x before o after =
    (q : OrderRequest) × (o.request ≡ some q)
    × IsProtectedFill x q (count is_mutation before.calls) o after

-- The records that are mapped to FILLED.
mapped-filled :
    (t : OrderType) (s : IdempotencyStatus)
    → is_filled (mapped_status t s) ≡ true
    → (s ≡ Idempotency.succeeded) × (t ≡ OrderType.market)
mapped-filled OrderType.market Idempotency.succeeded h = (refl, refl)
mapped-filled t s h = absurd (ground arith)

module _ (x : Executor) (c : ExecutionCommand) (w₀ : World) where
  -- What an outcome and the state after it say.
  abbrev Meaning : ExecutionOutcome → World → Type 0
  Meaning o w =
      (is_stop o.status ≡ true → IsUntouched w₀ w)
      × (is_filled o.status ≡ true → IsReplay c w₀ o ⊎ IsSecuredFill x w₀ o w)

  record_means :
      (q : OrderRequest) (r : ExecutionRecord) (risk : Option RiskDecision)
      → IsKeyed c q
      → lookup q.idempotency_key w₀.records ≡ some r
      → is_filled (outcome_from_record r risk).status ≡ true
      → IsReplay c w₀ (outcome_from_record r risk)
  unfolding outcome_from_record
  record_means q r risk keyed found h =
      let (done, market) = mapped-filled r.request.order_type r.status h in
      record {
        stored = r;
        request = q;
        keyed = keyed;
        found = found;
        succeeded = done;
        market = market;
        own_request = refl;
        own_report = refl;
        duplicate = refl;
      }

  acted_means :
      (q : OrderRequest) (risk : RiskDecision) (o : ExecutionOutcome) (w : World)
      → IsActed x q risk (count is_mutation w₀.calls) o w
      → Meaning o w
  acted_means q risk o w a =
      (λ e. let no = a.no_stop in ground arith, λ e. inr (q, a.own_request, a.secured e))

  -- After a claim nothing is changed at the broker yet, and a lost one met a record from before.
  abbrev Claimed : OrderRequest → ExecutionRecord × Bool → World → Type 0
  Claimed q (r, won) w =
      (count is_mutation w.calls ≡ count is_mutation w₀.calls)
      × (won ≡ false → IsUntouched w₀ w × (lookup q.idempotency_key w₀.records ≡ some r))

  claimed_means :
      (p : Prepared) (d : RiskDecision) (answer : ExecutionRecord × Bool)
      → IsKeyed c p.request
      → Ensures Any (Claimed p.request answer) (claimed x c p d answer) Meaning
  claimed_means p d (r, true) keyed =
      Ensures-to (acted_means p.request d)
        (Ensures-from (λ w h. h.0) (submit-Acts x p.request d (count is_mutation w₀.calls) p.now))
  claimed_means p d (r, false) keyed = Ensures-pure _ (λ w h.
      let (same, found) = h.1 refl in
      (λ e. same, λ e. inl (record_means p.request r (some d) keyed found e)))

  claim_means :
      (p : Prepared)
      → Ensures Any (IsUntouched w₀) (on_records (claim p.request p.now)) (Claimed p.request)
  claim_means p = record {
    post = λ w h. elim (Option-cases (lookup p.request.idempotency_key w.records)) [
      | inl e ↦
          rw (claim_free p.request p.now w.records e)
            (h.same_mutations, λ no. absurd (ground arith))
      | inr (old, e) ↦ rw (claim_taken p.request p.now w.records old e) (
        h.same_mutations,
        λ _. (h, ap (lookup p.request.idempotency_key) (sym h.same_records) ∙ e),
      )
    ];
  }

  read_kept : {A : Type 0} (m : Exec Trace A) → IsRead m → Keeps (IsUntouched w₀) (on_broker m)
  read_kept m a = record {
    post = λ w h.
        let kept : IsUntouched w₀ (record w { calls = (m w.calls).1 }) = record {
          same_mutations = (a is_mutation (λ _ e. e)).same_count w.calls ∙ h.same_mutations;
          same_records = h.same_records;
        } in
        Post-of (IsUntouched w₀) (λ _. IsUntouched w₀) (m w.calls).0
          (record w { calls = (m w.calls).1 }) (λ _ _. kept) (λ _ _. kept);
  }

  circuits_kept : {A : Type 0} (m : Exec CircuitStore A) → Keeps (IsUntouched w₀) (on_circuits m)
  circuits_kept m = record {
    post = λ w h.
        let kept : IsUntouched w₀ (record w { circuits = (m w.circuits).1 }) = record {
          same_mutations = h.same_mutations;
          same_records = h.same_records;
        } in
        Post-of (IsUntouched w₀) (λ _. IsUntouched w₀) (m w.circuits).0
          (record w { circuits = (m w.circuits).1 }) (λ _ _. kept) (λ _ _. kept);
  }

  stopped_means :
      (s : ExecutionStatus) (reasons : List String) (q : Option OrderRequest)
      (risk : Option RiskDecision) (w : World)
      → is_stop s ≡ true
      → IsUntouched w₀ w
      → Meaning (stopped s reasons q risk) w
  stopped_means ExecutionStatus.filled reasons q risk w e h = ground arith
  stopped_means s reasons q risk w e h = (λ _. h, λ f. ground arith)

  laws : StageLaws x c Any (IsUntouched w₀) Meaning
  laws = record {
    raises = λ w h. tt;
    reads = λ m a. read_kept m a;
    circuits = λ m. circuits_kept m;
    stops = stopped_means;
    replays = λ q r d w keyed h e.
        let found = ap (lookup q.idempotency_key) (sym h.same_records) ∙ e in
        (λ _. h, λ f. inl (record_means q r d keyed found f));
    submits = λ p m v keyed e.
        Ensures-bind _ _ (claim_means p) (λ answer. claimed_means p _ answer keyed);
  }

  execute_means : Ensures Any (IsUntouched w₀) (execute x c) Meaning
  execute_means = execute-Ensures laws

outcome-Meaning :
    (x : Executor) (c : ExecutionCommand) (w : World) (o : ExecutionOutcome)
    → (execute x c w).0 ≡ ok o
    → Meaning x c w o (execute x c w).1
outcome-Meaning x c w o e =
    of_post (execute x c w).0 (execute x c w).1
      ((execute_means x c w).post w (record { same_mutations = refl; same_records = refl })) e
  where
    of_post :
        (r : Result ExecutionOutcome) (w' : World)
        → Post Any (Meaning x c w) (r, w')
        → r ≡ ok o
        → Meaning x c w o w'
    of_post (ok o') w' p e = let same : o' ≡ o = cc in subst (λ z. Meaning x c w z w') same p
    of_post (err x) w' p e = ground arith

-- An execution that returns BLOCKED or SIGNAL_ONLY has sent, changed, closed and cancelled nothing at
-- the broker, and has left every idempotency record as it was.
pub execute-IsUntouched :
    (x : Executor) (c : ExecutionCommand) (w : World) (o : ExecutionOutcome)
    → (execute x c w).0 ≡ ok o
    → is_stop o.status ≡ true
    → IsUntouched w (execute x c w).1
execute-IsUntouched x c w o e s = (outcome-Meaning x c w o e).0 s

-- An execution that returns FILLED has one of two reasons. Either it repeats a record: the key of the
-- command's signal for an account already had the record of a market order that succeeded, and the
-- outcome carries that record's request and report. Or it placed a market order for the outcome's
-- request, its first change at the broker, the broker reported success with the outcome's report, and
-- with the last call of the execution the broker showed the position of the request with its stop
-- and last target, or confirmed that it set both for the ticket of that position.
pub execute_filled :
    (x : Executor) (c : ExecutionCommand) (w : World) (o : ExecutionOutcome)
    → (execute x c w).0 ≡ ok o
    → is_filled o.status ≡ true
    → IsReplay c w o ⊎ IsSecuredFill x w o (execute x c w).1
execute_filled x c w o e f = (outcome-Meaning x c w o e).1 f
