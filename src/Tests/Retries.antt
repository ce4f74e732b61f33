-- ===== src/Tests/Retries.antt =====
-- Tests of app/brokers/retry.py: a broker whose account is read at the third attempt.
use sarkfxbot.Base.{◌+◌, [], ◌∷◌, ◌≡◌, refl, count, length, ltb, if◌then◌else◌}
use sarkfxbot.Base.Int.{pos}
use sarkfxbot.Base.Decimal.{of_ℕ, ratio, side, min, ◌⊗◌}
use sarkfxbot.Base.Exec.{Result, ok, err, timeout}
use sarkfxbot.Domain.Models.{AccountSnapshot}
use sarkfxbot.Brokers.Port.{Broker, Call, Trace}
use sarkfxbot.Brokers.Avoids.{is_mutation}
use sarkfxbot.Brokers.Retry.{ReadRetryPolicy, Retrying, delegated, read, read_rounds, retrying}
use sarkfxbot.Brokers.Retry.Forwarded.{retrying-sends_once}
use sarkfxbot.Tests.Fixtures.{account, mock, request}

abbrev policy : ReadRetryPolicy
policy = record {
  maximum_attempts = 3;
  initial_delay_seconds = ratio (pos 1) 3;
  maximum_delay_seconds = of_ℕ 2;
  multiplier = of_ℕ 2;
}

abbrev late : Trace → Result AccountSnapshot
late calls = if ltb (length calls) 2 then err (timeout "late") else ok account

abbrev before : Retrying
before = record { calls = []; slept = [] }

third : read policy (delegated Call.get_account late) before ≡ (
  ok account,
  record {
    calls = Call.get_account ∷ Call.get_account ∷ Call.get_account ∷ [];
    slept = ratio (pos 2) 3 ∷ ratio (pos 1) 3 ∷ [];
  },
)
unfolding read read_rounds min ◌⊗◌ side
third = refl

abbrev slow : Broker
slow = record mock { get_account = late; place_market_order = λ q calls. err (timeout "lost") }

retrying-sends_once_example :
    count is_mutation (retrying policy slow (Call.place_market_order request) before).1.calls
    ≡ 1 + 0
retrying-sends_once_example =
    retrying-sends_once policy slow (Call.place_market_order request) before
