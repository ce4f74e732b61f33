-- ===== src/Risk/CircuitBreaker/Commands.antt =====
-- What `evaluate`, `activate_kill_switch` and `manual_reset` of app/risk/circuit_breaker.py return
-- and store.
use sarkfxbot.Base.{
  ◌+◌, String, eq_iff, ◌≡◌, refl, ap, ◌∙◌, ◌⊎◌, inl, inr, true, false, some, arith, Option-cases,
  Bool-cases,
}
use sarkfxbot.Base.Decimal.{◌≼◌, ◌⊗◌, ◌⊕◌, zero_dec}
use sarkfxbot.Base.Dict.{lookup}
use sarkfxbot.Base.Exec.{ok}
use sarkfxbot.Domain.Models.{Timestamp, AccountSnapshot}
use sarkfxbot.Risk.Models.{RiskLimits, RiskUsage}
use sarkfxbot.Risk.CircuitBreaker.{
  CircuitState, CircuitStore, Schedule, blocks_new_trades, save, evaluate, evaluated, unchanged,
}
use sarkfxbot.Risk.Gates.Rules.{IsDrawnDown}
use sarkfxbot.Risk.Gates.Bounds.{drawdown-IsDrawnDown}
use sarkfxbot.Risk.CircuitBreaker.Locks.{Keyed, got-account_id, get-result, get-lookup}
use sarkfxbot.Risk.CircuitBreaker.Saving.{before, middle, saved-result, saved-lookup}

-- A loss or drawdown limit is reached, or there is no equity.
abbrev pub LimitReached : RiskLimits → AccountSnapshot → RiskUsage → Type 0
LimitReached l account usage =
    (account.equity ≼ zero_dec)
    ⊎ (account.equity ⊗ l.maximum_daily_loss ≼ usage.daily_realized_loss ⊕ usage.open_risk)
    ⊎ (account.equity ⊗ l.maximum_weekly_loss ≼ usage.weekly_realized_loss ⊕ usage.open_risk)
    ⊎ IsDrawnDown l.maximum_account_drawdown account.equity usage.peak_equity

module _ (k : Schedule) (l : RiskLimits) (account : AccountSnapshot) (usage : RiskUsage)
    (now : Timestamp) (store : CircuitStore) (keyed : Keyed store) where
  abbrev pub id : String
  id = account.account_id

  abbrev pub old : CircuitState
  old = before k id now store keyed

  abbrev pub new : CircuitState
  new = evaluated l account usage now old

  pub evaluate-unchanged :
      unchanged new old ≡ true
      → evaluate k l account usage now store ≡ (ok old, middle k id now store keyed)
  unfolding evaluate
  evaluate-unchanged h = rw (get-result k id now store keyed) (rw h refl)

  pub evaluate_changed :
      unchanged new old ≡ false
      → evaluate k l account usage now store ≡ save new old.version (middle k id now store keyed)
  unfolding evaluate
  evaluate_changed h = rw (get-result k id now store keyed) (rw h refl)

  new_blocks : LimitReached l account usage → blocks_new_trades new ≡ true
  unfolding evaluated
  new_blocks (inl no_equity) = ground arith
  new_blocks (inr (inl daily)) = ground arith
  new_blocks (inr (inr (inl weekly))) = ground arith
  new_blocks (inr (inr (inr drawn))) =
      let reached =
        (drawdown-IsDrawnDown usage.peak_equity account.equity l.maximum_account_drawdown).1
          drawn in
      ground arith

  pub new-account_id : new.account_id ≡ id
  unfolding evaluated
  new-account_id = got-account_id k id now store keyed

  unchanged_blocks : unchanged new old ≡ true → blocks_new_trades old ≡ blocks_new_trades new
  unfolding evaluated unchanged
  unchanged_blocks h = ground arith

  -- A state that blocks is no fresh one, so it is stored.
  stored_old : blocks_new_trades old ≡ true → lookup id (middle k id now store keyed) ≡ some old
  stored_old h = elim (Option-cases (lookup id store)) [
    | inl e ↦ ground arith
    | inr (c, e) ↦ ground (arith, get-lookup k id now store keyed id, eq_iff id id)
  ]

  new_manual :
      IsDrawnDown l.maximum_account_drawdown account.equity usage.peak_equity
      → new.manual_reenable_required ≡ true
  unfolding evaluated
  new_manual h =
      let reached =
        (drawdown-IsDrawnDown usage.peak_equity account.equity l.maximum_account_drawdown).1 h in
      ground arith

  unchanged_manual :
      unchanged new old ≡ true → old.manual_reenable_required ≡ new.manual_reenable_required
  unfolding evaluated unchanged
  unchanged_manual h = ground arith

  -- When there is no equity, or the day's loss or the week's loss reaches its limit, or the loss since
  -- the peak (as a share of the peak, and at least zero) reaches the drawdown limit, `evaluate`
  -- succeeds with a state that blocks new trades, and that state is the stored one; on a drawdown it
  -- also asks for a manual reset.
  pub evaluate_blocks :
      LimitReached l account usage
      → (c : CircuitState) × ((evaluate k l account usage now store).0 ≡ ok c)
        × (blocks_new_trades c ≡ true)
        × (IsDrawnDown l.maximum_account_drawdown account.equity usage.peak_equity
            → c.manual_reenable_required ≡ true)
        × (lookup id (evaluate k l account usage now store).1 ≡ some c)
  evaluate_blocks h = elim (Bool-cases (unchanged new old)) [
    | inl same ↦
        let blocked : blocks_new_trades old ≡ true = unchanged_blocks same ∙ new_blocks h in
        (
          old,
          ap (λ p. p.0) (evaluate-unchanged same),
          blocked,
          λ r. unchanged_manual same ∙ new_manual r,
          ap (λ p. lookup id p.1) (evaluate-unchanged same) ∙ stored_old blocked,
        )
    | inr changed ↦ (
      record new { version = old.version + 1 },
      ap (λ p. p.0) (evaluate_changed changed)
          ∙ saved-result k id now store keyed new new-account_id,
      new_blocks h,
      new_manual,
      ap (λ p. lookup id p.1) (evaluate_changed changed)
          ∙ ground (arith, eq_iff id id, saved-lookup k id now store keyed new id new-account_id),
    )
  ]
