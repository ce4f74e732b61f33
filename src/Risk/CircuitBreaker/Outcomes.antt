-- ===== src/Risk/CircuitBreaker/Outcomes.antt =====
-- What the operations of app/risk/circuit_breaker.py return: they never conflict when one follows
-- the other, the daily and the weekly lock end with their period, and a drawdown halts the account.
use sarkfxbot.Base.{
  ◌+◌, ◌*◌, ◌%◌, ◌≤◌, ◌<◌, String, ◌≡◌, refl, ap, ◌∙◌, inl, inr, Bool, true, false, not, ◌&&◌,
  Option, none, some, List, ◌==◌, arith, Bool-cases, All,
}
use sarkfxbot.Base.Dict.{lookup}
use sarkfxbot.Base.Exec.{Result, ok, is_ok}
use sarkfxbot.Domain.Models.{Timestamp, AccountSnapshot, second}
use sarkfxbot.Risk.Models.{RiskLimits, RiskUsage}
use sarkfxbot.Risk.CircuitBreaker.{
  Date, CircuitState, CircuitStore, Schedule, blocks_new_trades, roll_over, period_changed, get,
  evaluate, unchanged, activate_kill_switch, manual_reset, reset_state, day_of, week_of,
}
use sarkfxbot.Risk.Gates.Rules.{IsDrawnDown}
use sarkfxbot.Risk.CircuitBreaker.Locks.{Keyed, settle, get-result}
use sarkfxbot.Risk.CircuitBreaker.Saving.{saved-result, saving-result}
use sarkfxbot.Risk.CircuitBreaker.{killed_state}
use sarkfxbot.Risk.CircuitBreaker.Commands.{
  evaluate-unchanged, evaluate_changed, new-account_id, evaluate_blocks,
}
use sarkfxbot.Risk.CircuitBreaker.Following.{IsHalted}
use sarkfxbot.Risk.CircuitBreaker.Halts.{
  Operation, fetch, kill, assess, reset, apply, run, KeepsHalt, apply-Keyed, run-IsHalted,
}
use sarkfxbot.Risk.CircuitBreaker.Commands.{old, new}

-- The result of an operation.
pub outcome : Schedule → RiskLimits → Operation → CircuitStore → Result CircuitState
outcome k l (fetch account_id now) store = (get k account_id now store).0
outcome k l (kill account_id now) store = (activate_kill_switch k account_id now store).0
outcome k l (assess account usage now) store = (evaluate k l account usage now store).0
outcome k l (reset account_id now authorized clear) store =
    (manual_reset k account_id now authorized clear store).0

-- A reset without authorization.
abbrev pub is_refused : Operation → Bool
is_refused (reset account_id now authorized clear) = not authorized
is_refused _ = false

-- In a store with every state under its own account, every operation returns a state, except that
-- a reset without authorization raises; no save ever meets a version conflict.
pub outcome_lem :
    (k : Schedule) (l : RiskLimits) (o : Operation) (store : CircuitStore)
    → Keyed store
    → is_ok (outcome k l o store) ≡ not (is_refused o)
unfolding outcome activate_kill_switch manual_reset
outcome_lem k l (fetch account_id now) store keyed =
    rw (get-result k account_id now store keyed) refl
outcome_lem k l (kill account_id now) store keyed =
    rw (saving-result k account_id now store keyed (killed_state now) (λ c. refl)) refl
outcome_lem k l (reset account_id now false clear) store keyed = refl
outcome_lem k l (reset account_id now true clear) store keyed =
    rw (saving-result k account_id now store keyed (reset_state now clear) (λ c. refl)) refl
outcome_lem k l (assess a usage now) store keyed =
    elim (Bool-cases
      (unchanged (new k l a usage now store keyed) (old k l a usage now store keyed))) [
        | inl same ↦ ap (λ p. is_ok p.0) (evaluate-unchanged k l a usage now store keyed same)
        | inr changed ↦
            ap (λ p. is_ok p.0) (evaluate_changed k l a usage now store keyed changed)
            ∙ ap is_ok (
                saved-result k a.account_id now store keyed (new k l a usage now store keyed)
                  (new-account_id k l a usage now store keyed))
      ]

-- The day of an instant: it begins at the reset hour of that date, and lasts 24 hours.
pub record IsDay (k : Schedule) (now : Timestamp) (day : Date) : Type 0 where
  pub begun : (day * 24 + k.daily_reset_hour_utc) * 3600 * second ≤ now
  pub not_over : now < ((day + 1) * 24 + k.daily_reset_hour_utc) * 3600 * second

-- The week of a day: it begins on the last reset weekday up to that day. Day 0 is a Monday.
pub record IsWeek (k : Schedule) (day week : Date) : Type 0 where
  pub on_weekday : week % 7 ≡ k.weekly_reset_weekday
  pub begun : week ≤ day
  pub not_over : day < week + 7

day_of_lem : (k : Schedule) (now : Timestamp) (day : Date) → IsDay k now day → day_of k now ≡ day
unfolding day_of
day_of_lem k now day d = let begun = d.begun in let not_over = d.not_over in omega arith

week_of_lem :
    (k : Schedule) (now : Timestamp) (day week : Date)
    → IsDay k now day
    → IsWeek k day week
    → week_of k now ≡ week
unfolding week_of
week_of_lem k now day week d w =
    let same = day_of_lem k now day d in
    let on_weekday = w.on_weekday in let begun = w.begun in let not_over = w.not_over in omega arith

-- A read of a stored state, at an instant whose day (which begins at the reset hour) is `day` and
-- whose week (which begins on the last reset weekday) is `week`: it returns the state of that day and
-- week, with the daily lock dropped unless it was set on that day, the weekly lock dropped unless it
-- was set in that week, and the other locks as they were.
pub get_periods :
    (k : Schedule) (account_id : String) (now : Timestamp) (store : CircuitStore) (c : CircuitState)
    (day week : Date)
    → IsDay k now day
    → IsWeek k day week
    → Keyed store
    → lookup account_id store ≡ some c
    → (r : CircuitState) × ((get k account_id now store).0 ≡ ok r)
      × ((r.day ≡ day) × (r.week_start ≡ week))
      × (r.daily_locked ≡ (c.daily_locked && c.day == day))
      × (r.weekly_locked ≡ (c.weekly_locked && c.week_start == week))
      × (r.account_locked ≡ c.account_locked)
      × (r.kill_switch ≡ c.kill_switch)
      × (r.manual_reenable_required ≡ c.manual_reenable_required)
unfolding period_changed roll_over
get_periods k account_id now store c day week d w keyed e =
    let today = day_of_lem k now day d in
    let this_week = week_of_lem k now day week d w in
    (
      settle k now c,
      get-result k account_id now store keyed ∙ rw e refl,
      (ground arith, ground arith),
      ground arith,
      ground arith,
      ground arith,
      ground arith,
      ground arith,
    )

halt_blocks :
    (o : Option CircuitState)
    → IsHalted o
    → (c : CircuitState) × (o ≡ some c) × (blocks_new_trades c ≡ true)
halt_blocks none h = absurd h
halt_blocks (some c) h = (c, refl, ground arith)

-- Once an evaluation is made with the drawdown from the peak at its limit, the stored state of the account blocks new
-- trades after every later sequence of operations without an authorized reset of this account.
pub drawdown_lasts :
    (k : Schedule) (l : RiskLimits) (a : AccountSnapshot) (usage : RiskUsage) (now : Timestamp)
    (os : List Operation) (store : CircuitStore)
    → Keyed store
    → IsDrawnDown l.maximum_account_drawdown a.equity usage.peak_equity
    → All (KeepsHalt a.account_id) os
    → (c : CircuitState) × (lookup a.account_id (run k l os (apply k l (assess a usage now) store))
        ≡ some c)
      × (blocks_new_trades c ≡ true)
unfolding apply
drawdown_lasts k l a usage now os store keyed reached q =
    let (c, _, _, manual, stored) =
      evaluate_blocks k l a usage now store keyed (inr (inr (inr reached))) in
    halt_blocks _ (
      run-IsHalted k l os (apply k l (assess a usage now) store) a.account_id
        (apply-Keyed k l (assess a usage now) store keyed) q (rw stored (inl (manual reached))))
