-- ===== src/Brokers/Retry.antt =====
-- app/brokers/retry.py: reads are tried again after errors that may pass, changes are forwarded once.
-- The delays, floats in the source, are exact decimals here. A method of the adapter is named by the
-- `Call` that it makes.
pub mod Bounded
pub mod Forwarded
use sarkfxbot.Base.{
  ℕ, zero, suc, String, Bool, true, false, not, ◌&&◌, ◌||◌, List, [], ◌∷◌, ltb, ◌==◌, if◌then◌else◌,
}
use sarkfxbot.Base.Decimal.{Decimal, dec_ltb, zero_dec, of_ℕ, min, ◌⊗◌}
use sarkfxbot.Base.Dict.{Dict}
use sarkfxbot.Base.Exec.{
  Error, broker, unavailable, indeterminate, timeout, value_error, runtime_error, Result, ok, err,
  Exec, pure, raise, attempt, ◌>>◌, ◌>>=◌,
}
use sarkfxbot.Domain.Models.{AccountSnapshot, Candle, SymbolSpecification, Tick}
use sarkfxbot.Domain.Orders.{BrokerOrder, BrokerPosition, ExecutionReport, OrderCheckResult}
use sarkfxbot.Brokers.Port.{BrokerHealth, Broker, Call, Trace, ask}

pub record ReadRetryPolicy : Type 0 where
  pub maximum_attempts : ℕ
  pub initial_delay_seconds : Decimal
  pub maximum_delay_seconds : Decimal
  pub multiplier : Decimal

-- ReadRetryPolicy.__post_init__
unfoldable pub make_policy : ReadRetryPolicy → Result ReadRetryPolicy
make_policy p =
    if ltb p.maximum_attempts 1
    then err (value_error "maximum retry attempts must be positive")
    else if dec_ltb p.initial_delay_seconds zero_dec
    then err (value_error "initial retry delay cannot be negative")
    else if dec_ltb p.maximum_delay_seconds p.initial_delay_seconds
    then err (value_error "maximum retry delay cannot be below initial delay")
    else if dec_ltb p.multiplier (of_ℕ 1)
    then err (value_error "retry multiplier must be at least one")
    else ok p

-- The calls of the delegate, and the delays that were slept, the latest first.
pub record Retrying : Type 0 where
  pub calls : Trace
  pub slept : List Decimal

abbrev pub delegated : {A : Type 0} → Call → (Trace → Result A) → Exec Retrying A
delegated c answer w = let (r, calls) = ask c answer w.calls in (r, record w { calls = calls })

abbrev pub sleep : Decimal → Exec Retrying (Unit {0})
sleep delay w = (ok tt, record w { slept = delay ∷ w.slept })

-- except (BrokerUnavailableError, IndeterminateBrokerResult, TimeoutError)
abbrev pub is_transient : Error → Bool
is_transient (broker unavailable message) = true
is_transient (broker indeterminate message) = true
is_transient (timeout message) = true
is_transient _ = false

module _ (policy : ReadRetryPolicy) where
  abbrev pub next_delay : Decimal → Decimal
  next_delay delay = min (delay ⊗ policy.multiplier) policy.maximum_delay_seconds

  module _ {A : Type 0} where
    -- What a round of _read does with an error, when some rounds are left after it.
    abbrev pub on_error : ℕ → Decimal → Exec Retrying A → Error → Exec Retrying A
    on_error left delay again e =
        if is_transient e && not (left == 0) then sleep delay >> again else raise e

    -- The rounds of _read that are left.
    unfoldable pub read_rounds : ℕ → Decimal → Exec Retrying A → Exec Retrying A
    read_rounds zero delay operation =
        raise (runtime_error "bounded read retry loop ended unexpectedly")
    read_rounds (suc left) delay operation =
        attempt operation pure (on_error left delay (read_rounds left (next_delay delay) operation))

    -- _read
    unfoldable pub read : Exec Retrying A → Exec Retrying A
    read operation = read_rounds policy.maximum_attempts policy.initial_delay_seconds operation

  -- Between two rounds of health_check.
  abbrev pub check_again :
      ℕ → Decimal → BrokerHealth → Exec Retrying BrokerHealth → Exec Retrying BrokerHealth
  check_again left delay last again = if left == 0 then pure last else sleep delay >> again

  -- The rounds of health_check that are left, after the last answer.
  unfoldable pub health_rounds :
      ℕ → Decimal → BrokerHealth → Exec Retrying BrokerHealth → Exec Retrying BrokerHealth
  health_rounds zero delay last operation = pure last
  health_rounds (suc left) delay last operation =
      attempt operation
        (λ h.
          if h.healthy && h.connected
          then pure h
          else check_again left delay h (health_rounds left (next_delay delay) h operation))
        (λ e.
          if is_transient e && not (left == 0)
          then check_again left delay last (health_rounds left (next_delay delay) last operation)
          else raise e)

abbrev pub not_run : BrokerHealth
not_run = record {
  healthy = false;
  connected = false;
  trading_allowed = false;
  message = "health check did not run";
}

-- What the method of a call returns.
abbrev pub Answer : Call → Type 0
Answer Call.connect = Unit
Answer Call.disconnect = Unit
Answer Call.health_check = BrokerHealth
Answer Call.get_account = AccountSnapshot
Answer Call.get_symbols = List SymbolSpecification
Answer (Call.resolve_symbol name) = SymbolSpecification
Answer (Call.get_tick name) = Tick
Answer (Call.is_market_open name) = Bool
Answer (Call.get_candles name frame count closed_only) = List Candle
Answer (Call.get_positions name) = List BrokerPosition
Answer (Call.get_orders name) = List BrokerOrder
Answer (Call.calculate_margin q price) = Decimal
Answer (Call.calculate_profit name d volume entry exit) = Decimal
Answer (Call.validate_order q) = OrderCheckResult
Answer (Call.place_market_order q) = ExecutionReport
Answer (Call.place_pending_order q) = ExecutionReport
Answer (Call.modify_position ticket stop target) = Bool
Answer (Call.close_position ticket volume) = ExecutionReport
Answer (Call.cancel_order ticket) = Bool
Answer (Call.history_deals first last) = List (Dict String)
Answer (Call.history_orders first last) = List (Dict String)

-- The method of the delegate.
abbrev pub answer : Broker → (c : Call) → Trace → Result (Answer c)
answer b Call.connect = b.connect
answer b Call.disconnect = b.disconnect
answer b Call.health_check = b.health_check
answer b Call.get_account = b.get_account
answer b Call.get_symbols = b.get_symbols
answer b (Call.resolve_symbol name) = b.resolve_symbol name
answer b (Call.get_tick name) = b.get_tick name
answer b (Call.is_market_open name) = b.is_market_open name
answer b (Call.get_candles name frame count closed_only) =
    b.get_candles name frame count closed_only
answer b (Call.get_positions name) = b.get_positions name
answer b (Call.get_orders name) = b.get_orders name
answer b (Call.calculate_margin q price) = b.calculate_margin q price
answer b (Call.calculate_profit name d volume entry exit) =
    b.calculate_profit name d volume entry exit
answer b (Call.validate_order q) = b.validate_order q
answer b (Call.place_market_order q) = b.place_market_order q
answer b (Call.place_pending_order q) = b.place_pending_order q
answer b (Call.modify_position ticket stop target) = b.modify_position ticket stop target
answer b (Call.close_position ticket volume) = b.close_position ticket volume
answer b (Call.cancel_order ticket) = b.cancel_order ticket
answer b (Call.history_deals first last) = b.history_deals first last
answer b (Call.history_orders first last) = b.history_orders first last

module _ (policy : ReadRetryPolicy) (b : Broker) where
  abbrev pub forwarded : (c : Call) → Exec Retrying (Answer c)
  forwarded c = delegated c (answer b c)

  abbrev pub read_again : (c : Call) → Exec Retrying (Answer c)
  read_again c = read policy (forwarded c)

  -- The methods of RetryingBrokerAdapter.
  unfoldable pub retrying : (c : Call) → Exec Retrying (Answer c)
  retrying Call.disconnect = forwarded Call.disconnect
  retrying Call.health_check =
      health_rounds policy policy.maximum_attempts policy.initial_delay_seconds not_run
        (forwarded Call.health_check)
  retrying (Call.place_market_order q) = forwarded (Call.place_market_order q)
  retrying (Call.place_pending_order q) = forwarded (Call.place_pending_order q)
  retrying (Call.modify_position ticket stop target) =
      forwarded (Call.modify_position ticket stop target)
  retrying (Call.close_position ticket volume) = forwarded (Call.close_position ticket volume)
  retrying (Call.cancel_order ticket) = forwarded (Call.cancel_order ticket)
  retrying c = read_again c
