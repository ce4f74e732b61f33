-- ===== src/Brokers/Retry/Bounded.antt =====
-- The rounds of a read in app/brokers/retry.py.
use sarkfxbot.Base.{ℕ, zero, suc, ◌+◌, ◌≤◌, ◌≡◌, Bool, true, false, ◌∷◌, All, length}
use sarkfxbot.Base.Decimal.{Decimal, dec_leb}
use sarkfxbot.Base.Exec.{Result, ok, err, Exec}
use sarkfxbot.Brokers.Port.{Call, Trace}
use sarkfxbot.Brokers.Retry.{ReadRetryPolicy, Retrying, is_transient}

-- The trace with a call so many times more.
abbrev pub repeated : ℕ → Call → Trace → Trace
repeated zero c calls = calls
repeated (suc n) c calls = repeated n c (c ∷ calls)

abbrev pub may_pass : {A : Type 0} → Result A → Bool
may_pass (ok a) = false
may_pass (err e) = is_transient e

abbrev Within : Decimal → Decimal → Type 0
Within limit d = dec_leb d limit ≡ true

-- What reading with at most `most` calls gives, from the calls and the delays before it.
pub record IsRead {A : Type 0} (limit : Decimal) (most : ℕ) (c : Call) (answer : Trace → Result A)
    (before : Retrying) (r : Result A) (w : Retrying) : Type 0 where
  pub retries : ℕ
  pub bounded : suc retries ≤ most
  pub calls : w.calls ≡ repeated (suc retries) c before.calls
  pub result : r ≡ answer (repeated retries c before.calls)
  pub final : may_pass r ≡ true → suc retries ≡ most
  pub sleeps : length w.slept ≡ retries + length before.slept
  pub delays : All (Within limit) before.slept → All (Within limit) w.slept

module _ (policy : ReadRetryPolicy) {A : Type 0} (c : Call) (answer : Trace → Result A) where
  abbrev Reads : ℕ → Retrying → Result A × Retrying → Type 0
  Reads most before (r, w) = IsRead policy.maximum_delay_seconds most c answer before r w
