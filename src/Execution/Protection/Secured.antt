-- ===== src/Execution/Protection/Secured.antt =====
-- What a position reported as protected by app/execution/executor.py has.
use sarkfxbot.Base.{
  ℕ, String, ◌≡◌, refl, ◌∙◌, ap, subst, Bool, true, false, Option, none, some, [], ◌∷◌, get_last?,
  arith,
}
use sarkfxbot.Base.Decimal.{Decimal}
use sarkfxbot.Base.Exec.{Error, broker, timeout, Result, ok, err, recover}
use sarkfxbot.Base.Ensures.{
  Post, Ensures, Ensures-from, Ensures-pure, Ensures-raise, Ensures-if_tested, Ensures-bind,
  Ensures-attempt, Post-of,
}
use sarkfxbot.Base.Text.{is_missing}
use sarkfxbot.Domain.Orders.{OrderRequest, ExecutionReport}
use sarkfxbot.Brokers.Port.{Broker, Call, Trace, ask}
use sarkfxbot.Execution.Protection.{
  ProtectionResult, last_target, watch, close_once, close_failed, repair, after_repair, settle,
  verify_or_repair_protection,
}
use sarkfxbot.Execution.Protection.Shown.{IsLater, IsTicket, IsSecured, was_repaired}
use sarkfxbot.Execution.Protection.Watching.{
  Anywhere, recovered-Post, last_target-Ensures, Seen, watch-Ensures,
}

module _ (b : Broker) (q : OrderRequest) (report : ExecutionReport) (before : Trace) where
  -- A result that says "protected" is true.
  abbrev Holds : ProtectionResult → Trace → Type 0
  Holds r after = r.is_protected ≡ true → IsSecured b q report before after

  close_failed-Ensures : (e : Error) → Ensures Anywhere Anywhere (close_failed b q e) Holds
  close_failed-Ensures (broker k m) = Ensures-pure _ (λ calls h p. absurd (ground arith))
  close_failed-Ensures (timeout m) = Ensures-pure _ (λ calls h p. absurd (ground arith))
  close_failed-Ensures e = Ensures-raise _ (λ calls h. tt)

  -- Closing a position never reports it as protected.
  close_once-Ensures : (ticket : String) → Ensures Anywhere Anywhere (close_once b q ticket) Holds
  unfolding close_once
  close_once-Ensures ticket =
      Ensures-attempt (ask (Call.close_position ticket none) (b.close_position ticket none)) _ _
        (record {
          post = λ calls h.
              Post-of Anywhere (λ _. Anywhere) (b.close_position ticket none calls)
                (Call.close_position ticket none ∷ calls) (λ _ _. tt) (λ _ _. tt);
        })
        (λ closed. Ensures-pure _ (λ calls h p. absurd (ground arith))) close_failed-Ensures

  -- The ticket of the request's position is known, and so is the target.
  abbrev Repairable : String → Decimal → Trace → Type 0
  Repairable ticket target calls =
      (IsLater before calls × IsTicket b q report before calls (some ticket))
      × (get_last? q.take_profits ≡ some target)

  modify-Ensures :
      (ticket : String) (target : Decimal)
      → Ensures Anywhere
          (Repairable ticket target)
          (recover
            (ask
              (Call.modify_position ticket q.stop_loss (some target))
              (b.modify_position ticket q.stop_loss (some target)))
            false)
          (λ repaired after. repaired ≡ true → IsSecured b q report before after)
  modify-Ensures ticket target = record {
    post = λ calls h.
        recovered-Post (λ repaired after. repaired ≡ true → IsSecured b q report before after)
          (b.modify_position ticket q.stop_loss (some target) calls) false
          (Call.modify_position ticket q.stop_loss (some target) ∷ calls)
          (λ repaired e yes. was_repaired ticket calls target h.0.0 h.0.1 h.1 (e ∙ ap ok yes) refl)
          (λ e. absurd (ground arith));
  }

  after_repair-Ensures :
      (repaired : Bool) (ticket : String)
      → Ensures Anywhere
          (λ after. repaired ≡ true → IsSecured b q report before after)
          (after_repair b q repaired ticket)
          Holds
  after_repair-Ensures true ticket = Ensures-pure _ (λ calls h _. h refl)
  after_repair-Ensures false ticket = Ensures-from (λ _ _. tt) (close_once-Ensures ticket)

  repair-Ensures :
      (ticket : String)
      → Ensures Anywhere (Seen b q report before (some ticket, false)) (repair b q ticket) Holds
  unfolding repair
  repair-Ensures ticket =
      Ensures-bind (last_target q) _
        (last_target-Ensures b q report before (Seen b q report before (some ticket, false)))
        (λ target.
          Ensures-bind _ _ (modify-Ensures ticket target)
            (λ repaired. after_repair-Ensures repaired ticket))

  settle-Ensures :
      (seen : Option String × Bool)
      → Ensures Anywhere (Seen b q report before seen) (settle b q seen) Holds
  unfolding settle
  settle-Ensures (t, true) = Ensures-pure _ (λ calls h _. h)
  settle-Ensures (none, false) = Ensures-pure _ (λ calls h p. absurd (ground arith))
  settle-Ensures (some t, false) =
      Ensures-if_tested (is_missing t) (λ _. Ensures-pure _ (λ calls h p. absurd (ground arith)))
        (λ _. repair-Ensures t)

  -- What the method keeps, for the proofs about its callers.
  pub verify_or_repair-Ensures :
      (attempts : ℕ)
      → Ensures Anywhere
          (λ calls. calls ≡ before)
          (verify_or_repair_protection b q attempts report)
          Holds
  unfolding verify_or_repair_protection
  verify_or_repair-Ensures attempts =
      Ensures-bind (watch b q report.broker_ticket attempts) _
        (Ensures-from (λ calls e. ([], e)) (watch-Ensures b q report before attempts))
        settle-Ensures

result_of :
    (Q : ProtectionResult → Trace → Type 0) (p : Result ProtectionResult × Trace)
    (r : ProtectionResult)
    → Post Anywhere Q p
    → p.0 ≡ ok r
    → Q r p.1
result_of Q (ok r', calls) r h e = let same : r' ≡ r = cc in subst (λ z. Q z calls) same h
result_of Q (err x, calls) r h e = absurd (ground arith)

-- A result that says "protected" is true: with its last call, the broker showed a position of the
-- request (by the reported ticket, the signal or the key) with the request's stop and last target,
-- or it answered that it set both for the ticket of the request's position, which is the reported
-- ticket or that of a position of the request that it showed in an earlier look.
pub verify_or_repair-IsSecured :
    (b : Broker) (q : OrderRequest) (attempts : ℕ) (report : ExecutionReport) (calls : Trace)
    (r : ProtectionResult)
    → (verify_or_repair_protection b q attempts report calls).0 ≡ ok r
    → r.is_protected ≡ true
    → IsSecured b q report calls (verify_or_repair_protection b q attempts report calls).1
verify_or_repair-IsSecured b q attempts report calls r e p =
    result_of (λ r after. r.is_protected ≡ true → IsSecured b q report calls after)
      (verify_or_repair_protection b q attempts report calls) r
      ((verify_or_repair-Ensures b q report calls attempts).post calls refl) e p
