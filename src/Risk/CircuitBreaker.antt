-- ===== src/Risk/CircuitBreaker.antt =====
-- app/risk/circuit_breaker.py: the account's locks, their daily and weekly expiry, and the optimistic
-- store. A date is the number of days since 0001-01-01, a Monday, so `day % 7` is its weekday. Python
-- raises OverflowError for the first hours and days of year 1, where the subtractions here stop at 0.
pub mod Locks
pub mod Saving
pub mod Commands
pub mod Following
pub mod Halts
pub mod Outcomes
use sarkfxbot.Base.{
  ℕ, suc, ◌+◌, ◌-◌, ◌*◌, ◌/◌, ◌%◌, String, str_eq, Bool, true, false, not, ◌&&◌, ◌||◌, Option, none,
  some, List, [], ◌∷◌, leb, ltb, ◌==◌, is_empty, if◌then◌else◌,
}
use sarkfxbot.Base.Decimal.{Decimal, dec_leb, ◌⊕◌, ◌⊗◌, zero_dec}
use sarkfxbot.Base.Dict.{Dict, lookup, insert}
use sarkfxbot.Base.Exec.{runtime_error, permission_error, Exec, pure, raise, ◌>>=◌, ◌>>◌}
use sarkfxbot.Base.Reasons.{Check, failing, join}
use sarkfxbot.Domain.Models.{Timestamp, AccountSnapshot, second}
use sarkfxbot.Risk.Models.{RiskLimits, RiskUsage}
use sarkfxbot.Risk.Gates.{drawdown_reached}

abbrev pub Date : Type 0
Date = ℕ

-- _week_start
abbrev pub week_start_of : Date → ℕ → Date
week_start_of day reset_weekday = day - (day % 7 + 7 - reset_weekday) % 7

pub record CircuitState : Type 0 where
  pub account_id : String
  pub day : Date
  pub week_start : Date
  pub daily_locked : Bool
  pub weekly_locked : Bool
  pub account_locked : Bool
  pub kill_switch : Bool
  pub manual_reenable_required : Bool
  pub reason : String
  pub version : ℕ
  pub updated_at : Timestamp

-- CircuitState.blocks_new_trades
abbrev pub blocks_new_trades : CircuitState → Bool
blocks_new_trades c =
    c.daily_locked || c.weekly_locked || c.account_locked || c.kill_switch
    || c.manual_reenable_required

abbrev pub CircuitStore : Type 0
CircuitStore = Dict CircuitState

-- InMemoryCircuitStateStore.load
abbrev pub load : String → Exec CircuitStore (Option CircuitState)
load account_id store = pure (lookup account_id store) store

-- InMemoryCircuitStateStore.save
abbrev pub version_of : Option CircuitState → ℕ
version_of none = 0
version_of (some c) = c.version

unfoldable pub save : CircuitState → ℕ → Exec CircuitStore CircuitState
save state expected_version store =
    if not (version_of (lookup state.account_id store) == expected_version)
    then raise (runtime_error "circuit state optimistic-lock conflict") store
    else let persisted = record state { version = expected_version + 1 } in
      pure persisted (insert state.account_id persisted store)

-- The reset settings of a `CircuitBreaker`.
pub record Schedule : Type 0 where
  pub daily_reset_hour_utc : ℕ
  pub weekly_reset_weekday : ℕ

unfoldable pub day_of : Schedule → Timestamp → Date
day_of k now = (now - k.daily_reset_hour_utc * 3600 * second) / (86400 * second)

-- CircuitBreaker._period_keys
unfoldable pub week_of : Schedule → Timestamp → Date
week_of k now = week_start_of (day_of k now) k.weekly_reset_weekday

abbrev pub fresh_state : Schedule → String → Timestamp → CircuitState
fresh_state k account_id now = record {
  account_id = account_id;
  day = day_of k now;
  week_start = week_of k now;
  daily_locked = false;
  weekly_locked = false;
  account_locked = false;
  kill_switch = false;
  manual_reenable_required = false;
  reason = "";
  version = 0;
  updated_at = now;
}

-- The locks of a past day or week are lifted.
unfoldable pub roll_over : Schedule → Timestamp → CircuitState → CircuitState
roll_over k now c = record c {
  day = day_of k now;
  week_start = week_of k now;
  daily_locked = if c.day == day_of k now then c.daily_locked else false;
  weekly_locked = if c.week_start == week_of k now then c.weekly_locked else false;
  updated_at = now;
}

abbrev pub same_bool : Bool → Bool → Bool
same_bool true b = b
same_bool false b = not b

unfoldable pub period_changed : Schedule → Timestamp → CircuitState → Bool
period_changed k now c =
    not (c.day == day_of k now)
    || not (c.week_start == week_of k now)
    || not (same_bool (roll_over k now c).daily_locked c.daily_locked)
    || not (same_bool (roll_over k now c).weekly_locked c.weekly_locked)

unfoldable pub current :
    Schedule → String → Timestamp → Option CircuitState → Exec CircuitStore CircuitState
current k account_id now none = pure (fresh_state k account_id now)
current k account_id now (some c) =
    if period_changed k now c then save (roll_over k now c) c.version else pure c

-- CircuitBreaker.get
unfoldable pub get : Schedule → String → Timestamp → Exec CircuitStore CircuitState
unfolding current
get k account_id now = do state ← load account_id; current k account_id now state

module _ (l : RiskLimits) (account : AccountSnapshot) (usage : RiskUsage) where
  -- `account.equity <= 0 or used >= account.equity * limit`
  abbrev pub loss_reached : Decimal → Decimal → Bool
  loss_reached realized limit =
      dec_leb account.equity zero_dec
      || dec_leb (account.equity ⊗ limit) (realized ⊕ usage.open_risk)

  abbrev pub daily_reached : Bool
  daily_reached = loss_reached usage.daily_realized_loss l.maximum_daily_loss

  abbrev pub weekly_reached : Bool
  weekly_reached = loss_reached usage.weekly_realized_loss l.maximum_weekly_loss

  abbrev pub account_reached : Bool
  account_reached = drawdown_reached usage.peak_equity account.equity l.maximum_account_drawdown

  -- The state that `evaluate` computes.
  unfoldable pub evaluated : Timestamp → CircuitState → CircuitState
  evaluated now c =
      let daily = c.daily_locked || daily_reached in
      let weekly = c.weekly_locked || weekly_reached in
      let locked = c.account_locked || account_reached in
      let reasons = failing (
        (daily, "DAILY_LOSS_LIMIT_REACHED")
        ∷ (weekly, "WEEKLY_LOSS_LIMIT_REACHED")
        ∷ (locked, "ACCOUNT_DRAWDOWN_LIMIT_REACHED")
        ∷ []) in
      record c {
        daily_locked = daily;
        weekly_locked = weekly;
        account_locked = locked;
        manual_reenable_required = c.manual_reenable_required || locked;
        reason = if is_empty reasons then c.reason else join ", " reasons;
        updated_at = now;
      }

-- `updated == state`, where `updated` differs from `state` at most in these fields
unfoldable pub unchanged : CircuitState → CircuitState → Bool
unchanged u c =
    same_bool u.daily_locked c.daily_locked
    && same_bool u.weekly_locked c.weekly_locked
    && same_bool u.account_locked c.account_locked
    && same_bool u.manual_reenable_required c.manual_reenable_required
    && str_eq u.reason c.reason
    && u.updated_at == c.updated_at

-- CircuitBreaker.evaluate
unfoldable pub evaluate :
    Schedule → RiskLimits → AccountSnapshot → RiskUsage → Timestamp → Exec CircuitStore CircuitState
evaluate k l account usage now = do
  state ← get k account.account_id now
  let updated = evaluated l account usage now state
  if unchanged updated state then pure state else save updated state.version

abbrev pub killed_state : Timestamp → CircuitState → CircuitState
killed_state now c = record c {
  kill_switch = true;
  reason = "KILL_SWITCH_ACTIVE";
  updated_at = now;
}

-- CircuitBreaker.activate_kill_switch
unfoldable pub activate_kill_switch : Schedule → String → Timestamp → Exec CircuitStore CircuitState
activate_kill_switch k account_id now = do
  state ← get k account_id now
  save (killed_state now state) state.version

abbrev pub reset_state : Timestamp → Bool → CircuitState → CircuitState
reset_state now clear_kill_switch c = record c {
  daily_locked = false;
  weekly_locked = false;
  account_locked = false;
  kill_switch = if clear_kill_switch then false else c.kill_switch;
  manual_reenable_required = false;
  reason = "MANUAL_RESET";
  updated_at = now;
}

-- CircuitBreaker.manual_reset
unfoldable pub manual_reset :
    Schedule → String → Timestamp → Bool → Bool → Exec CircuitStore CircuitState
manual_reset k account_id now authorized clear_kill_switch =
    if not authorized
    then raise (permission_error "manual circuit reset requires authorization")
    else do
      state ← get k account_id now
      save (reset_state now clear_kill_switch state) state.version
