-- ===== src/Brokers/Retry/Forwarded.antt =====
-- What the adapter of app/brokers/retry.py sends to the broker for each method.
use sarkfxbot.Base.{
  ℕ, zero, suc, ◌+◌, ◌≡◌, refl, false, not, ◌&&◌, count, ◌∷◌, ◌==◌, if◌then◌else◌, arith,
}
use sarkfxbot.Base.Decimal.{Decimal}
use sarkfxbot.Base.Ensures.{
  Post, Post-of, Keeps, Ensures-pure, Ensures-raise, Ensures-if, Ensures-bind, Ensures-attempt,
}
use sarkfxbot.Base.Exec.{Result, ok, err, Exec, pure, ◌>>◌}
use sarkfxbot.Brokers.Port.{BrokerHealth, Broker, Call, Trace}
use sarkfxbot.Brokers.Avoids.{is_mutation}
use sarkfxbot.Brokers.Retry.{
  ReadRetryPolicy, Retrying, delegated, sleep, is_transient, next_delay, on_error, read_rounds,
  read, check_again, health_rounds, not_run, answer, forwarded, read_again, retrying,
}

-- So many mutating calls.
abbrev HasSent : ℕ → Retrying → Type 0
HasSent n w = count is_mutation w.calls ≡ n

module _ (n : ℕ) where
  delegated-Keeps :
      {A : Type 0} (c : Call) (f : Trace → Result A)
      → is_mutation c ≡ false
      → Keeps (HasSent n) (delegated c f)
  delegated-Keeps c f h = record {
    post = λ w p.
        Post-of (HasSent n) (λ _. HasSent n) (f w.calls) (record w { calls = c ∷ w.calls })
          (λ a e. rw h p) (λ x e. rw h p);
  }

  sleep-Keeps : (delay : Decimal) → Keeps (HasSent n) (sleep delay)
  sleep-Keeps delay = record { post = λ w p. p }

  pause-Keeps :
      {A : Type 0} (delay : Decimal) (m : Exec Retrying A)
      → Keeps (HasSent n) m
      → Keeps (HasSent n) (sleep delay >> m)
  pause-Keeps delay m h = Ensures-bind (sleep delay) (λ _. m) (sleep-Keeps delay) (λ _. h)

  module _ (policy : ReadRetryPolicy) where
    read_rounds-Keeps :
        {A : Type 0} (left : ℕ) (delay : Decimal) (m : Exec Retrying A)
        → Keeps (HasSent n) m
        → Keeps (HasSent n) (read_rounds policy left delay m)
    unfolding read_rounds
    read_rounds-Keeps zero delay m h = Ensures-raise _ (λ w p. p)
    read_rounds-Keeps (suc left) delay m h =
        Ensures-attempt m pure
          (on_error policy left delay (read_rounds policy left (next_delay policy delay) m)) h
          (λ a. Ensures-pure a (λ w p. p))
          (λ e.
            Ensures-if (is_transient e && not (left == 0))
              (pause-Keeps delay _ (read_rounds-Keeps left (next_delay policy delay) m h))
              (Ensures-raise e (λ w p. p)))

    check_again-Keeps :
        (left : ℕ) (delay : Decimal) (last : BrokerHealth) (again : Exec Retrying BrokerHealth)
        → Keeps (HasSent n) again
        → Keeps (HasSent n) (check_again policy left delay last again)
    check_again-Keeps left delay last again h =
        Ensures-if (left == 0) (Ensures-pure last (λ w p. p)) (pause-Keeps delay again h)

    health_rounds-Keeps :
        (left : ℕ) (delay : Decimal) (last : BrokerHealth) (m : Exec Retrying BrokerHealth)
        → Keeps (HasSent n) m
        → Keeps (HasSent n) (health_rounds policy left delay last m)
    unfolding health_rounds
    health_rounds-Keeps zero delay last m h = Ensures-pure last (λ w p. p)
    health_rounds-Keeps (suc left) delay last m h =
        Ensures-attempt m _ _ h
          (λ a. Ensures-if (a.healthy && a.connected) (Ensures-pure a (λ w p. p)) (
            check_again-Keeps left delay a _
              (health_rounds-Keeps left (next_delay policy delay) a m h)))
          (λ e.
            Ensures-if (is_transient e && not (left == 0))
              (check_again-Keeps left delay last _
                (health_rounds-Keeps left (next_delay policy delay) last m h))
              (Ensures-raise e (λ w p. p)))

kept :
    {A : Type 0} (n : ℕ) (r : Result A) (w : Retrying)
    → Post (HasSent n) (λ _. HasSent n) (r, w)
    → HasSent n w
kept n (ok a) w h = h
kept n (err e) w h = h

-- How many mutating calls the method of a call is to make.
abbrev pub due : Call → ℕ
due c = if is_mutation c then 1 else 0

module _ (policy : ReadRetryPolicy) (b : Broker) where
  abbrev Sends : Call → Retrying → Type 0
  Sends c w = count is_mutation (retrying policy b c w).1.calls ≡ due c + count is_mutation w.calls

  read-sends :
      (c : Call) (w : Retrying)
      → is_mutation c ≡ false
      → count is_mutation (read_again policy b c w).1.calls ≡ due c + count is_mutation w.calls
  unfolding read
  read-sends c w h =
      let n = count is_mutation w.calls in
      let (r, w') = read_again policy b c w in
      let same = kept n r w' (
        (read_rounds-Keeps n policy policy.maximum_attempts policy.initial_delay_seconds
            (forwarded policy b c) (delegated-Keeps n c (answer b c) h)).post
          w refl) in
      rw h (omega (arith, same))

  health-Sends : (w : Retrying) → Sends Call.health_check w
  unfolding retrying
  health-Sends w =
      let n = count is_mutation w.calls in
      let (r, w') = retrying policy b Call.health_check w in
      let same = kept n r w' (
        (health_rounds-Keeps n policy policy.maximum_attempts policy.initial_delay_seconds not_run
            (forwarded policy b Call.health_check)
            (delegated-Keeps n Call.health_check b.health_check refl)).post
          w refl) in
      omega (arith, same)

  -- Whatever the policy and the broker's answers, the method of a change sends exactly one mutating
  -- call to the broker and the method of a read none: the retries never repeat an order, a
  -- modification, a closing or a cancellation.
  pub retrying-sends_once :
      (c : Call) (w : Retrying)
      → count is_mutation (retrying policy b c w).1.calls ≡ due c + count is_mutation w.calls
  unfolding retrying
  retrying-sends_once Call.connect w = read-sends Call.connect w refl
  retrying-sends_once Call.disconnect w = omega arith
  retrying-sends_once Call.health_check w = health-Sends w
  retrying-sends_once Call.get_account w = read-sends Call.get_account w refl
  retrying-sends_once Call.get_symbols w = read-sends Call.get_symbols w refl
  retrying-sends_once (Call.resolve_symbol x) w = read-sends (Call.resolve_symbol x) w refl
  retrying-sends_once (Call.get_tick x) w = read-sends (Call.get_tick x) w refl
  retrying-sends_once (Call.is_market_open x) w = read-sends (Call.is_market_open x) w refl
  retrying-sends_once (Call.get_candles x f n k) w = read-sends (Call.get_candles x f n k) w refl
  retrying-sends_once (Call.get_positions x) w = read-sends (Call.get_positions x) w refl
  retrying-sends_once (Call.get_orders x) w = read-sends (Call.get_orders x) w refl
  retrying-sends_once (Call.calculate_margin q p) w = read-sends (Call.calculate_margin q p) w refl
  retrying-sends_once (Call.calculate_profit x d v p q) w =
      read-sends (Call.calculate_profit x d v p q) w refl
  retrying-sends_once (Call.validate_order q) w = read-sends (Call.validate_order q) w refl
  retrying-sends_once (Call.place_market_order q) w = omega arith
  retrying-sends_once (Call.place_pending_order q) w = omega arith
  retrying-sends_once (Call.modify_position t s p) w = omega arith
  retrying-sends_once (Call.close_position t v) w = omega arith
  retrying-sends_once (Call.cancel_order t) w = omega arith
  retrying-sends_once (Call.history_deals s e) w = read-sends (Call.history_deals s e) w refl
  retrying-sends_once (Call.history_orders s e) w = read-sends (Call.history_orders s e) w refl
