-- ===== src/Risk/CircuitBreaker/Halts.antt =====
-- Halts of an account over whole sequences of operations (app/risk/circuit_breaker.py): a needed
-- manual reset and the kill switch last until an authorized reset lifts them.
use sarkfxbot.Base.{
  String, str_eq, eq_iff, ◌≡◌, ◌≢◌, ◌⊎◌, Bool, true, false, List, [], ◌∷◌, arith, All,
}
use sarkfxbot.Base.Dict.{lookup}
use sarkfxbot.Domain.Models.{Timestamp, AccountSnapshot}
use sarkfxbot.Risk.Models.{RiskLimits, RiskUsage}
use sarkfxbot.Risk.CircuitBreaker.{
  CircuitStore, Schedule, get, evaluate, activate_kill_switch, manual_reset,
}
use sarkfxbot.Risk.CircuitBreaker.Locks.{Keyed, got-account_id}
use sarkfxbot.Risk.CircuitBreaker.Following.{
  IsHalted, Follows-IsHalted, Follows-account_id, fetch-Follows, kill-Follows, assess-Follows,
  reset-lookup, reset_unauthorized,
}

-- One operation on the breaker; a reset carries `authorized` and `clear_kill_switch`.
pub data Operation : Type 0 where
  fetch kill : String → Timestamp → Operation
  assess : AccountSnapshot → RiskUsage → Timestamp → Operation
  reset : String → Timestamp → Bool → Bool → Operation

module _ (k : Schedule) (l : RiskLimits) where
  unfoldable pub apply : Operation → CircuitStore → CircuitStore
  apply (fetch id now) store = (get k id now store).1
  apply (kill id now) store = (activate_kill_switch k id now store).1
  apply (assess account usage now) store = (evaluate k l account usage now store).1
  apply (reset id now authorized clear) store = (manual_reset k id now authorized clear store).1

  unfoldable pub run : List Operation → CircuitStore → CircuitStore
  run [] store = store
  run (o ∷ os) store = run os (apply o store)

-- The operation is no authorized reset of this account.
abbrev pub KeepsHalt : String → Operation → Type 0
KeepsHalt j (reset id now authorized clear) = (authorized ≡ false) ⊎ (id ≢ j)
KeepsHalt j _ = Unit

module _ (k : Schedule) (l : RiskLimits) where
  pub apply-Keyed : (o : Operation) (store : CircuitStore) → Keyed store → Keyed (apply k l o store)
  unfolding apply
  apply-Keyed (fetch id now) store keyed j c e =
      Follows-account_id k now store keyed id j _ c (fetch-Follows k now store keyed id j) e
  apply-Keyed (kill id now) store keyed j c e =
      Follows-account_id k now store keyed id j _ c (kill-Follows k now store keyed id j) e
  apply-Keyed (assess a usage now) store keyed j c e =
      Follows-account_id k now store keyed a.account_id j _ c
        (assess-Follows k now store keyed l a usage j) e
  apply-Keyed (reset id now false clear) store keyed j c e =
      keyed j c (rw (reset_unauthorized k now store keyed id clear) at e)
  apply-Keyed (reset id now true clear) store keyed j c e = ground (
    arith,
    reset-lookup k now store keyed id clear j,
    eq_iff id j,
    keyed j c,
    got-account_id k id now store keyed,
  )

  apply-IsHalted :
      (o : Operation) (store : CircuitStore) (j : String)
      → Keyed store
      → KeepsHalt j o
      → IsHalted (lookup j store)
      → IsHalted (lookup j (apply k l o store))
  unfolding apply
  apply-IsHalted (fetch id now) store j keyed q h =
      Follows-IsHalted k now store keyed id j _ (fetch-Follows k now store keyed id j) h
  apply-IsHalted (kill id now) store j keyed q h =
      Follows-IsHalted k now store keyed id j _ (kill-Follows k now store keyed id j) h
  apply-IsHalted (assess a usage now) store j keyed q h =
      Follows-IsHalted k now store keyed a.account_id j _
        (assess-Follows k now store keyed l a usage j) h
  apply-IsHalted (reset id now false clear) store j keyed q h =
      rw (reset_unauthorized k now store keyed id clear) h
  apply-IsHalted (reset id now true clear) store j keyed q h =
      let other : str_eq id j ≡ false = ground (arith, eq_iff id j) in
      rw (reset-lookup k now store keyed id clear j) (rw other h)

  -- An account that needs a manual reset, or whose kill switch is on, stays so through every
  -- sequence of reads, evaluations, kill switches and resets of other accounts, as long as no
  -- authorized reset of this account is among them.
  pub run-IsHalted :
      (os : List Operation) (store : CircuitStore) (j : String)
      → Keyed store
      → All (KeepsHalt j) os
      → IsHalted (lookup j store)
      → IsHalted (lookup j (run k l os store))
  unfolding run
  run-IsHalted [] store j keyed q h = h
  run-IsHalted (o ∷ os) store j keyed q h =
      run-IsHalted os (apply k l o store) j (apply-Keyed o store keyed) q.1
        (apply-IsHalted o store j keyed q.0 h)

  pub run-Keyed :
      (os : List Operation) (store : CircuitStore) → Keyed store → Keyed (run k l os store)
  unfolding run
  run-Keyed [] store keyed = keyed
  run-Keyed (o ∷ os) store keyed = run-Keyed os (apply k l o store) (apply-Keyed o store keyed)
