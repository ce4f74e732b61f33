-- ===== src/Execution/Protection/Mutations.antt =====
-- The broker calls that the protection of app/execution/executor.py makes.
use sarkfxbot.Base.{
  ℕ, zero, suc, String, refl, Bool, true, false, Option, none, some, find, get_last?,
}
use sarkfxbot.Base.Decimal.{Decimal}
use sarkfxbot.Base.Exec.{Exec, Error, broker, timeout}
use sarkfxbot.Domain.Orders.{OrderRequest, ExecutionReport, BrokerPosition}
use sarkfxbot.Brokers.Port.{Broker, Call, Trace}
use sarkfxbot.Brokers.Avoids.{
  is_send, is_mutation, IsKind, IsKind-send, Avoids, Avoids-pure, Avoids-raise, Avoids-ask,
  Avoids-if, Avoids-recover, Avoids-bind, Avoids-attempt,
}
use sarkfxbot.Execution.Protection.{
  last_target, belongs, visible, carries, look, watch, close_once, close_failed, target_of, repair,
  after_repair, settle, verify_or_repair_protection,
}

module _ (b : Broker) (q : OrderRequest) (p : Call → Bool) where
  last_target-Avoids : Avoids p (last_target q)
  last_target-Avoids = avoids_of (get_last? q.take_profits)
    where
      avoids_of : (o : Option Decimal) → Avoids p (target_of o)
      avoids_of none = Avoids-raise p _
      avoids_of (some t) = Avoids-pure p t

  module _ (h : IsKind is_mutation p) where
    visible-Avoids : Avoids p (visible b q)
    visible-Avoids =
        Avoids-recover p _ _ (Avoids-ask p _ _ (h (Call.get_positions (some q.symbol)) refl))

    carries-Avoids : (o : BrokerPosition) → Avoids p (carries b q o)
    unfolding carries
    carries-Avoids o =
        Avoids-if p _ (Avoids-bind p _ _ last_target-Avoids (λ t. Avoids-pure p _))
          (Avoids-pure p _)

    look-Avoids :
        (again : Exec Trace (Option String × Bool))
        → Avoids p again
        → (o : Option BrokerPosition) → Avoids p (look b q again o)
    look-Avoids again a none = a
    look-Avoids again a (some o) = Avoids-bind p _ _ (carries-Avoids o) (λ v. Avoids-pure p _)

    watch-Avoids : (ticket : Option String) (n : ℕ) → Avoids p (watch b q ticket n)
    unfolding watch
    watch-Avoids ticket zero = Avoids-pure p _
    watch-Avoids ticket (suc n) =
        let rest = watch-Avoids ticket n in
        Avoids-bind p _ _ visible-Avoids (λ ps. look-Avoids _ rest (find (belongs b q ticket) ps))

  module _ (h : IsKind is_send p) where
    close_once-Avoids : (ticket : String) → Avoids p (close_once b q ticket)
    unfolding close_once
    close_once-Avoids ticket =
        Avoids-attempt p _ _ _ (Avoids-ask p _ _ (h (Call.close_position ticket none) refl))
          (λ r. Avoids-pure p _) handled
      where
        handled : (e : Error) → Avoids p (close_failed b q e)
        handled (broker k m) = Avoids-pure p _
        handled (timeout m) = Avoids-pure p _
        handled other = Avoids-raise p _

    after_repair-Avoids : (done : Bool) (ticket : String) → Avoids p (after_repair b q done ticket)
    after_repair-Avoids true ticket = Avoids-pure p _
    after_repair-Avoids false ticket = close_once-Avoids ticket

    repair-Avoids : (ticket : String) → Avoids p (repair b q ticket)
    unfolding repair
    repair-Avoids ticket = Avoids-bind p _ _ last_target-Avoids (λ t.
        Avoids-bind p _ _
          (Avoids-recover p _ _
            (Avoids-ask p _ _ (h (Call.modify_position ticket q.stop_loss (some t)) refl)))
          (λ done. after_repair-Avoids done ticket))

    settle-Avoids : (seen : Option String × Bool) → Avoids p (settle b q seen)
    unfolding settle
    settle-Avoids (ticket, true) = Avoids-pure p _
    settle-Avoids (none, false) = Avoids-pure p _
    settle-Avoids (some ticket, false) = Avoids-if p _ (Avoids-pure p _) (repair-Avoids ticket)

    pub verify_or_repair-Avoids :
        (n : ℕ) (report : ExecutionReport) → Avoids p (verify_or_repair_protection b q n report)
    unfolding verify_or_repair_protection
    verify_or_repair-Avoids n report =
        Avoids-bind p _ _ (watch-Avoids (IsKind-send p h) report.broker_ticket n) settle-Avoids
