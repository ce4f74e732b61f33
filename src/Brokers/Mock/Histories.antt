-- ===== src/Brokers/Mock/Histories.antt =====
-- app/brokers/mock.py over whole histories of calls.
use sarkfxbot.Base.{
  suc, String, ◌≡◌, Bool, true, false, not, ◌||◌, Option, none, some, List, [], ◌∷◌,
}
use sarkfxbot.Base.Decimal.{Decimal, dec_leb, dec_ltb, dec_eqb, zero_dec, ◌⊖◌}
use sarkfxbot.Base.Dict.{lookup, insert, remove}
use sarkfxbot.Base.Exec.{Result, ok, err, Exec, lift}
use sarkfxbot.Base.Ensures.{Post, Keeps, Ensures-pure, Ensures-raise, Ensures-if, Ensures-bind}
use sarkfxbot.Domain.Orders.{BrokerPosition, make_position, ExecutionReport, OrderRequest}
use sarkfxbot.Domain.Enums.{is_market}
use sarkfxbot.Brokers.Mock.{Mock, entry_out, read_clock, require_connection}
use sarkfxbot.Brokers.Mock.Trading.{
  store, put_deal, place_market_order, place_pending_order, is_absent,
}
use sarkfxbot.Brokers.Mock.Closing.{
  protect, protect_found, modify_found, take_volume, close_volume, close_found, volume_or,
  not_found_report, numbered_report, modify_position, corrupt_position_protection, close_position,
  cancel_order,
}
use sarkfxbot.Brokers.Mock.Reports.{
  reads-Keeps, clock-Keeps, lift-Keeps, store-Keeps, require_connection-Keeps,
}
use sarkfxbot.Brokers.Mock.Replays.{
  Holds, place-Keeps, Operation, market, pending_entry, modify, corrupt, close, cancel, health,
  hours, modification, price, money, seeded_position, seeded_order, script, connected, disconnected,
  apply, run,
}

module _ (key : String) (r : ExecutionReport) where
  abbrev Kept : Mock → Type 0
  Kept = Holds key r

  abbrev T : List (String × ExecutionReport) → Type 0
  T d = lookup key d ≡ some r

  protect-Keeps :
      (ticket : String) (p : BrokerPosition) (stop : Decimal) (target : Option Decimal)
      → Keeps Kept (protect ticket p stop target)
  unfolding protect
  protect-Keeps ticket p stop target =
      Ensures-bind (lift (make_position (record p { stop_loss = stop; take_profit = target }))) _
        (lift-Keeps T _)
        (λ changed.
          store-Keeps T (λ m. record m { positions = insert ticket changed m.positions })
            (λ m h. h))

  modify_found-Keeps :
      (ticket : String) (stop : Decimal) (target : Option Decimal) (allowed : Bool)
      (o : Option BrokerPosition)
      → Keeps Kept (modify_found ticket stop target allowed o)
  modify_found-Keeps ticket stop target allowed none = Ensures-pure false (λ m h. h)
  modify_found-Keeps ticket stop target allowed (some p) =
      Ensures-if (dec_leb stop zero_dec || not allowed) (Ensures-pure false (λ m h. h)) (
        Ensures-bind (protect ticket p stop target) _ (protect-Keeps ticket p stop target)
          (λ _. Ensures-pure true (λ m h. h)))

  modify-Keeps :
      (ticket : String) (stop : Decimal) (target : Option Decimal)
      → Keeps Kept (modify_position ticket stop target)
  unfolding modify_position
  modify-Keeps ticket stop target =
      Ensures-bind require_connection _ (require_connection-Keeps T) (λ _.
        Ensures-bind (store (λ m. record m { modify_calls = suc m.modify_calls })) _
          (store-Keeps T (λ m. record m { modify_calls = suc m.modify_calls }) (λ m h. h))
          (λ _. record {
            post = λ m h.
                (modify_found-Keeps ticket stop target m.position_modification_allowed
                    (lookup ticket m.positions)).post
                  m h;
          }))

  protect_found-Keeps :
      (ticket : String) (stop : Decimal) (target : Option Decimal) (o : Option BrokerPosition)
      → Keeps Kept (protect_found ticket stop target o)
  protect_found-Keeps ticket stop target none = Ensures-raise _ (λ m h. h)
  protect_found-Keeps ticket stop target (some p) = protect-Keeps ticket p stop target

  corrupt-Keeps :
      (ticket : String) (stop : Decimal) (target : Option Decimal)
      → Keeps Kept (corrupt_position_protection ticket stop target)
  unfolding corrupt_position_protection
  corrupt-Keeps ticket stop target = record {
    post = λ m h. (protect_found-Keeps ticket stop target (lookup ticket m.positions)).post m h;
  }

  take_volume-Keeps :
      (ticket : String) (p : BrokerPosition) (v : Decimal) → Keeps Kept (take_volume ticket p v)
  unfolding take_volume
  take_volume-Keeps ticket p v =
      Ensures-if (dec_eqb v p.volume)
        (store-Keeps T (λ m. record m { positions = remove ticket m.positions }) (λ m h. h))
        (Ensures-bind (lift (make_position (record p { volume = p.volume ⊖ v }))) _ (lift-Keeps T _)
          (λ rest.
            store-Keeps T (λ m. record m { positions = insert ticket rest m.positions })
              (λ m h. h)))

  close_volume-Keeps :
      (ticket : String) (p : BrokerPosition) (v : Decimal) → Keeps Kept (close_volume ticket p v)
  unfolding close_volume
  close_volume-Keeps ticket p v =
      Ensures-if (dec_leb v zero_dec || dec_ltb p.volume v) (Ensures-raise _ (λ m h. h)) (
        Ensures-bind (take_volume ticket p v) _ (take_volume-Keeps ticket p v) (λ _.
          Ensures-bind read_clock _ (clock-Keeps T) (λ now.
            Ensures-bind (store (put_deal (entry_out ticket now v))) _
              (store-Keeps T (put_deal (entry_out ticket now v)) (λ m h. h))
              (λ _.
                Ensures-bind read_clock _ (clock-Keeps T)
                  (λ later. reads-Keeps T (numbered_report ticket p v later))))))

  close_found-Keeps :
      (ticket : String) (v : Option Decimal) (o : Option BrokerPosition)
      → Keeps Kept (close_found ticket v o)
  close_found-Keeps ticket v none =
      Ensures-bind read_clock _ (clock-Keeps T)
        (λ now. Ensures-pure (not_found_report ticket now) (λ m h. h))
  close_found-Keeps ticket v (some p) = close_volume-Keeps ticket p (volume_or v p.volume)

  close-Keeps : (ticket : String) (v : Option Decimal) → Keeps Kept (close_position ticket v)
  unfolding close_position
  close-Keeps ticket v = Ensures-bind require_connection _ (require_connection-Keeps T) (λ _.
      Ensures-bind (store (λ m. record m { close_calls = suc m.close_calls })) _
        (store-Keeps T (λ m. record m { close_calls = suc m.close_calls }) (λ m h. h))
        (λ _. record {
          post = λ m h. (close_found-Keeps ticket v (lookup ticket m.positions)).post m h;
        }))

  cancel-Keeps : (ticket : String) → Keeps Kept (cancel_order ticket)
  unfolding cancel_order
  cancel-Keeps ticket =
      Ensures-bind require_connection _ (require_connection-Keeps T)
        (λ _. record { post = λ m h. h })

  market-Keeps : (q : OrderRequest) → Keeps Kept (place_market_order q)
  unfolding place_market_order
  market-Keeps q =
      Ensures-if (not (is_market q.order_type)) (Ensures-raise _ (λ m h. h))
        (place-Keeps key r q false)

  pending-Keeps : (q : OrderRequest) → Keeps Kept (place_pending_order q)
  unfolding place_pending_order
  pending-Keeps q = Ensures-if (is_market q.order_type) (Ensures-raise _ (λ m h. h)) (
      Ensures-if (is_absent q.requested_price) (Ensures-raise _ (λ m h. h))
        (place-Keeps key r q true))

  after : {A : Type 0} (a : Exec Mock A) (m : Mock) → Keeps Kept a → Kept m → Kept (a m).1
  after a m k h = let (r', m') = a m in ends r' m' (k.post m h)
    where
      ends : {A : Type 0} (r' : Result A) (m' : Mock) → Post Kept (λ _. Kept) (r', m') → Kept m'
      ends (ok a) m' h = h
      ends (err e) m' h = h

  apply-Kept : (o : Operation) (m : Mock) → Kept m → Kept (apply o m)
  unfolding apply
  apply-Kept (market q) m h = after (place_market_order q) m (market-Keeps q) h
  apply-Kept (pending_entry q) m h = after (place_pending_order q) m (pending-Keeps q) h
  apply-Kept (modify t s g) m h = after (modify_position t s g) m (modify-Keeps t s g) h
  apply-Kept (corrupt t s g) m h =
      after (corrupt_position_protection t s g) m (corrupt-Keeps t s g) h
  apply-Kept (close t v) m h = after (close_position t v) m (close-Keeps t v) h
  apply-Kept (cancel t) m h = after (cancel_order t) m (cancel-Keeps t) h
  apply-Kept (health c g t) m h = h
  apply-Kept (hours b) m h = h
  apply-Kept (modification b) m h = h
  apply-Kept (price t) m h = h
  apply-Kept (money a) m h = h
  apply-Kept (seeded_position p) m h = h
  apply-Kept (seeded_order o) m h = h
  apply-Kept (script b) m h = h
  apply-Kept connected m h = h
  apply-Kept disconnected m h = h

  pub run-Kept : (os : List Operation) (m : Mock) → Kept m → Kept (run os m)
  unfolding run
  run-Kept [] m h = h
  run-Kept (o ∷ os) m h = run-Kept os (apply o m) (apply-Kept o m h)
