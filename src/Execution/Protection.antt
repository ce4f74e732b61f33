-- ===== src/Execution/Protection.antt =====
-- `TradeExecutor._verify_or_repair_protection` of app/execution/executor.py: wait until the position
-- is visible, then repair its protection once, or close it once. `self._sleep` only passes time.
pub mod Shown
pub mod Watching
pub mod Secured
pub mod Mutations
use sarkfxbot.Base.{
  ℕ, zero, suc, String, str_eq, Bool, true, false, ◌&&◌, ◌||◌, Option, none, some, List, [], ◌∷◌,
  find, get_last?, if◌then◌else◌,
}
use sarkfxbot.Base.Decimal.{Decimal, dec_eqb}
use sarkfxbot.Base.Exec.{
  Error, broker, timeout, index_error, Exec, pure, raise, recover, attempt, ◌>>=◌, ◌>>◌,
}
use sarkfxbot.Base.Text.{is_missing}
use sarkfxbot.Domain.Orders.{OrderRequest, ExecutionReport, BrokerPosition}
use sarkfxbot.Brokers.Port.{Broker, Call, Trace, ask, broker_correlation_key}

-- `_ProtectionResult`
pub record ProtectionResult : Type 0 where
  pub is_protected : Bool
  pub reason : String

abbrev pub same_text : Option String → String → Bool
same_text none t = false
same_text (some s) t = str_eq s t

abbrev pub same_price : Option Decimal → Decimal → Bool
same_price none p = false
same_price (some a) p = dec_eqb a p

-- request.take_profits[-1], by what the list ends in
abbrev pub target_of : {S : Type 0} → Option Decimal → Exec S Decimal
target_of none = raise (index_error "tuple index out of range")
target_of (some t) = pure t

abbrev pub last_target : {S : Type 0} → OrderRequest → Exec S Decimal
last_target q = target_of (get_last? q.take_profits)

module _ (b : Broker) (q : OrderRequest) where
  -- The position that belongs to the request.
  unfoldable pub belongs : Option String → BrokerPosition → Bool
  belongs ticket p =
      same_text ticket p.ticket
      || same_text p.signal_id q.signal_id
      || str_eq p.strategy_id (broker_correlation_key b q.idempotency_key)

  -- try: get_positions(request.symbol) except BrokerError: ()
  abbrev pub visible : Exec Trace (List BrokerPosition)
  visible = recover (ask (Call.get_positions (some q.symbol)) (b.get_positions (some q.symbol))) []

  -- Whether the position carries the stop and the last target of the request.
  unfoldable pub carries : BrokerPosition → Exec Trace Bool
  carries p =
      if dec_eqb p.stop_loss q.stop_loss
      then (do target ← last_target q; pure (same_price p.take_profit target))
      else pure false

  -- What one look at the positions leads to; `again` is the rest of the loop.
  abbrev pub look :
      Exec Trace (Option String × Bool) → Option BrokerPosition → Exec Trace (Option String × Bool)
  look again none = again
  look again (some p) = do verified ← carries p; pure (some p.ticket, verified)

  -- The loop, by the attempts that are left: the ticket to protect, and whether the position was
  -- seen with its protection.
  unfoldable pub watch : Option String → ℕ → Exec Trace (Option String × Bool)
  watch ticket zero = pure (ticket, false)
  watch ticket (suc n) = do
    positions ← visible
    look (watch ticket n) (find (belongs ticket) positions)

  -- except (BrokerError, IndeterminateBrokerResult, TimeoutError)
  abbrev pub close_failed : Error → Exec Trace ProtectionResult
  close_failed (broker _ _) =
      pure
        (record { is_protected = false; reason = "PROTECTION_REPAIR_AND_SAFE_CLOSE_UNCONFIRMED" })
  close_failed (timeout _) =
      pure
        (record { is_protected = false; reason = "PROTECTION_REPAIR_AND_SAFE_CLOSE_UNCONFIRMED" })
  close_failed other = raise other

  unfoldable pub close_once : String → Exec Trace ProtectionResult
  close_once ticket =
      attempt (ask (Call.close_position ticket none) (b.close_position ticket none))
        (λ report. pure (record {
          is_protected = false;
          reason =
              if report.success
              then "UNPROTECTED_FILL_SAFELY_CLOSED"
              else "PROTECTION_REPAIR_AND_SAFE_CLOSE_FAILED";
        }))
        close_failed

  abbrev pub after_repair : Bool → String → Exec Trace ProtectionResult
  after_repair true ticket =
      pure (record { is_protected = true; reason = "broker confirmed protection repair" })
  after_repair false ticket = close_once ticket

  unfoldable pub repair : String → Exec Trace ProtectionResult
  repair ticket = do
    target ← last_target q
    repaired ←
        recover
          (ask (Call.modify_position ticket q.stop_loss (some target))
            (b.modify_position ticket q.stop_loss (some target)))
          false
    after_repair repaired ticket

  unfoldable pub settle : Option String × Bool → Exec Trace ProtectionResult
  settle (ticket, true) =
      pure (record { is_protected = true; reason = "broker position protection verified" })
  settle (none, false) =
      pure
        (record { is_protected = false; reason = "POSITION_NOT_VISIBLE_AND_NO_TICKET_TO_PROTECT" })
  settle (some ticket, false) =
      if is_missing ticket
      then pure (record {
        is_protected = false;
        reason = "POSITION_NOT_VISIBLE_AND_NO_TICKET_TO_PROTECT";
      })
      else repair ticket

  -- TradeExecutor._verify_or_repair_protection
  unfoldable pub verify_or_repair_protection : ℕ → ExecutionReport → Exec Trace ProtectionResult
  verify_or_repair_protection attempts report = do
    seen ← watch report.broker_ticket attempts
    settle seen
