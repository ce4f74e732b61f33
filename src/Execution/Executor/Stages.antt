-- ===== src/Execution/Executor/Stages.antt =====
-- One walk through the stages of `TradeExecutor.execute` (app/execution/executor.py) for every
-- property of it: what holds of the reads, of the early returns and of the submission holds of the
-- method.
use sarkfxbot.Base.{
  String, ◌≡◌, refl, true, ◌&&◌, not, Option, none, some, List, [], ◌∷◌, is_empty, arith,
}
use sarkfxbot.Base.Decimal.{Decimal}
use sarkfxbot.Base.Dict.{lookup}
use sarkfxbot.Base.Exec.{
  Error, broker, risk_rejected, duplicate_order, value_error, runtime_error, Result, ok, err, Exec,
  pure, raise, lift,
}
use sarkfxbot.Domain.Enums.{Direction, is_production, is_auto, is_signal_mode}
use sarkfxbot.Domain.Models.{Timestamp, AccountSnapshot, direction_of, is_entry, is_expired}
use sarkfxbot.Domain.Orders.{OrderRequest, make_request}
use sarkfxbot.Brokers.Port.{BrokerHealth}
use sarkfxbot.Risk.Models.{RiskDecision}
use sarkfxbot.Risk.DemoValidation.{DemoValidationDecision}
use sarkfxbot.Risk.Gates.{validate}
use sarkfxbot.Risk.Mode.{ExecutionPermission}
use sarkfxbot.Risk.CircuitBreaker.{Schedule}
use sarkfxbot.Execution.Idempotency.{ExecutionRecord, get}
use sarkfxbot.Execution.Models.{ExecutionStatus, ExecutionCommand, ExecutionOutcome}
use sarkfxbot.Execution.World.{World, Executor, on_records, read_clock}
use sarkfxbot.Base.Ensures.{
  Ensures, Keeps, Ensures-error, Ensures-pure, Ensures-raise, Ensures-if, Ensures-if_tested,
  Ensures-bind, Ensures-attempt, Ensures-from,
}
use sarkfxbot.Execution.Decision.{
  stopped, blocked, Entry, Prepared, MarketView, CircuitView, circuit_failed, market_failed,
  read_circuit, snapshot, decide, with_circuit, read_market, on_existing, key_of,
}
use sarkfxbot.Execution.Executor.{
  Sizing, request_of, sized, not_sized, size, check_demo, authorize, connected, not_connected,
  enter, screen, execute_serialized, execute,
}
use sarkfxbot.Execution.Executor.Reads.{connect-Avoids, sizing_reads-Avoids, market_reads-Avoids}
use sarkfxbot.Execution.Executor.Laws.{is_stop, IsKeyed, StageLaws}

module _ {x : Executor} {c : ExecutionCommand} {E I : World → Type 0}
    {Q : ExecutionOutcome → World → Type 0} (L : StageLaws x c E I Q) where
  stop :
      (s : ExecutionStatus) (reasons : List String) (q : Option OrderRequest)
      (risk : Option RiskDecision)
      → is_stop s ≡ true
      → Ensures E I (pure (stopped s reasons q risk)) Q
  stop s reasons q risk e = Ensures-pure _ (λ w h. L.stops s reasons q risk w e h)

  blocked-Ensures : (reasons : List String) → Ensures E I (blocked reasons) Q
  blocked-Ensures reasons = stop ExecutionStatus.blocked reasons none none refl

  -- An action that keeps `I` also does where `E` is what an exception leaves.
  kept : {A : Type 0} {m : Exec World A} → Keeps I m → Ensures E I m (λ _. I)
  kept k = Ensures-error L.raises k

  failed : {A : Type 0} {R : A → World → Type 0} (e : Error) → Ensures E I (raise e) R
  failed e = Ensures-raise e L.raises

  decide-Ensures :
      (p : Prepared) (m : MarketView) (v : CircuitView)
      → IsKeyed c p.request
      → Ensures E I (decide x c p m v) Q
  unfolding decide
  decide-Ensures p m v keyed =
      let d = validate x.limits p.request p.sizing (snapshot x c p m v) in
      Ensures-if_tested (not d.accepted)
        (λ _. stop ExecutionStatus.blocked d.reasons (some p.request) (some d) refl)
        (λ e. L.submits p m v keyed (ground arith))

  read_circuit-Ensures :
      (k : Option Schedule) (account : AccountSnapshot) (now : Timestamp)
      → Ensures E I (read_circuit x c k account now) (λ _. I)
  unfolding read_circuit
  read_circuit-Ensures none account now = Ensures-pure _ (λ w h. h)
  read_circuit-Ensures (some k) account now =
      Ensures-attempt _ _ _ (L.circuits _) (λ s. Ensures-pure _ (λ w h. h)) circuit_failed-Ensures
    where
      circuit_failed-Ensures : (e : Error) → Ensures E I (circuit_failed e) (λ _. I)
      circuit_failed-Ensures (runtime_error m) = Ensures-pure _ (λ w h. h)
      circuit_failed-Ensures e = failed e

  with_circuit-Ensures :
      (p : Prepared) (m : MarketView) (v : Option CircuitView)
      → IsKeyed c p.request
      → Ensures E I (with_circuit x c p m v) Q
  with_circuit-Ensures p m none keyed = stop _ _ _ _ refl
  with_circuit-Ensures p m (some v) keyed = decide-Ensures p m v keyed

  read_market-Ensures : (p : Prepared) → IsKeyed c p.request → Ensures E I (read_market x c p) Q
  unfolding read_market
  read_market-Ensures p keyed =
      Ensures-attempt _ _ _ (L.reads _ (λ p h. market_reads-Avoids p h x c _ _ _))
        (λ m.
          Ensures-bind _ _ (read_circuit-Ensures x.circuit p.account p.now)
            (λ v. with_circuit-Ensures p m v keyed))
        market_failed-Ensures
    where
      market_failed-Ensures : (e : Error) → Ensures E I (market_failed p.request e) Q
      market_failed-Ensures (broker k m) = stop _ _ _ _ refl
      market_failed-Ensures e = failed e

  on_existing-Ensures :
      (p : Prepared) (r : Option ExecutionRecord)
      → IsKeyed c p.request
      → Ensures E
          (λ w. I w × (lookup p.request.idempotency_key w.records ≡ r))
          (on_existing x c p r)
          Q
  on_existing-Ensures p none keyed = Ensures-from (λ w h. h.0) (read_market-Ensures p keyed)
  on_existing-Ensures p (some r) keyed =
      Ensures-pure _ (λ w h. L.replays p.request r none w keyed h.0 h.1)

  get-Ensures :
      (key : String) → Ensures E I (on_records (get key)) (λ r w. I w × (lookup key w.records ≡ r))
  unfolding get
  get-Ensures key = record { post = λ w h. (h, refl) }

  lift-Keeps : {A : Type 0} (r : Result A) → Ensures E I (lift r) (λ _. I)
  lift-Keeps (ok a) = record { post = λ w h. h }
  lift-Keeps (err e) = record { post = λ w h. L.raises w h }

  -- A request that is made keeps its key.
  request-Ensures :
      (q : OrderRequest) (a : AccountSnapshot)
      → q.idempotency_key ≡ key_of a c.trade_signal
      → Ensures E I (lift (make_request q)) (λ q' w. I w × IsKeyed c q')
  unfolding make_request
  request-Ensures q a e = of_result (make_request q) refl
    where
      of_result :
          (r : Result OrderRequest)
          → make_request q ≡ r
          → Ensures E I (lift r) (λ q' w. I w × IsKeyed c q')
      of_result (ok q') at = Ensures-pure q' (λ w h. (h, (a, ground arith)))
      of_result (err x) at = Ensures-raise _ L.raises

  with_key :
      (q : OrderRequest) {A : Type 0} {m : Exec World A} {R : A → World → Type 0}
      → (IsKeyed c q → Ensures E I m R)
      → Ensures E (λ w. I w × IsKeyed c q) m R
  with_key q h = record { post = λ w k. (h k.1).post w k.0 }

  sized-Ensures :
      (n : Entry) (health : BrokerHealth) (account : AccountSnapshot) (z : Sizing x c)
      → Ensures E I (sized x c n health account z) Q
  sized-Ensures n health account (spec, (tick, (price, sizing))) =
      Ensures-bind _ _ (request-Ensures (request_of x c n account spec price sizing) account refl)
        (λ q. with_key q (λ keyed.
          Ensures-bind _ _ (get-Ensures q.idempotency_key) (λ r. on_existing-Ensures _ r keyed)))

  not_sized-Ensures : (e : Error) → Ensures E I (not_sized x c e) Q
  not_sized-Ensures (broker k m) = stop _ _ _ _ refl
  not_sized-Ensures (risk_rejected m) = stop _ _ _ _ refl
  not_sized-Ensures (duplicate_order m) = stop _ _ _ _ refl
  not_sized-Ensures (value_error m) = stop _ _ _ _ refl
  not_sized-Ensures e = failed e

  size-Ensures :
      (n : Entry) (health : BrokerHealth) (account : AccountSnapshot)
      → Ensures E I (size x c n health account) Q
  unfolding size
  size-Ensures n health account =
      Ensures-attempt _ _ _ (L.reads _ (λ p h. sizing_reads-Avoids p h x c n account))
        (λ z. sized-Ensures n health account z) not_sized-Ensures

  check_demo-Ensures :
      (n : Entry) (health : BrokerHealth) (account : AccountSnapshot)
      → Ensures E I (check_demo x c n health account) Q
  unfolding check_demo
  check_demo-Ensures n health account =
      Ensures-if
        (is_production c.environment && is_auto c.mode && x.require_demo_validation_for_live)
        (Ensures-bind _ _ (lift-Keeps _) (λ (demo : DemoValidationDecision).
          Ensures-if (not demo.allowed) (blocked-Ensures demo.reasons)
            (size-Ensures n health account)))
        (size-Ensures n health account)

  authorize-Ensures :
      (n : Entry) (answers : BrokerHealth × AccountSnapshot)
      → Ensures E I (authorize x c n answers) Q
  unfolding authorize
  authorize-Ensures n (health, account) =
      Ensures-bind _ _ (lift-Keeps _) (λ (permission : ExecutionPermission).
        Ensures-if (not permission.allowed) (blocked-Ensures permission.reasons)
          (check_demo-Ensures n health account))

  connected-Ensures :
      (n : Entry) (answers : Option (BrokerHealth × AccountSnapshot))
      → Ensures E I (connected x c n answers) Q
  connected-Ensures n none = stop _ _ _ _ refl
  connected-Ensures n (some answers) = authorize-Ensures n answers

  enter-Ensures : (n : Entry) → Ensures E I (enter x c n) Q
  unfolding enter
  enter-Ensures n =
      Ensures-attempt _ _ _ (L.reads _ (λ p h. connect-Avoids p h x c)) (connected-Ensures n)
        not_connected-Ensures
    where
      not_connected-Ensures : (e : Error) → Ensures E I (not_connected x c e) Q
      not_connected-Ensures (broker k m) = stop _ _ _ _ refl
      not_connected-Ensures e = failed e

  screen-Ensures :
      (now : Timestamp) (d : Option Direction) (s : Option Decimal)
      → Ensures E I (screen x c now d s) Q
  screen-Ensures now (some d) (some s) =
      Ensures-if (is_empty c.trade_signal.take_profits)
        (blocked-Ensures ("SIGNAL_PROTECTION_INCOMPLETE" ∷ []))
        (Ensures-if (is_expired c.trade_signal now) (blocked-Ensures ("SIGNAL_EXPIRED" ∷ []))
          (enter-Ensures (record { direction = d; stop_loss = s; now = now })))
  screen-Ensures now (some d) none = stop _ _ _ _ refl
  screen-Ensures now none s = stop _ _ _ _ refl

  -- The property, of the whole method.
  pub execute-Ensures : Ensures E I (execute x c) Q
  unfolding execute execute_serialized
  execute-Ensures =
      Ensures-if (is_signal_mode c.mode)
        (stop ExecutionStatus.signal_only ("SIGNAL_MODE_NEVER_EXECUTES" ∷ []) none none refl)
        (Ensures-bind (read_clock x) _ (kept (record { post = λ w h. h })) (λ now.
          Ensures-if (not (is_entry c.trade_signal.action))
            (blocked-Ensures ("SIGNAL_HAS_NO_ENTRY_DIRECTION" ∷ []))
            (screen-Ensures now (direction_of c.trade_signal.action) c.trade_signal.stop_loss)))
