-- ===== src/Execution/Protection/Watching.antt =====
-- What the loop of app/execution/executor.py that looks for the position of a fill has found.
use sarkfxbot.Base.{
  ℕ, zero, suc, String, eq_iff, ◌≡◌, ◌⊎◌, inl, inr, refl, ◌∙◌, sym, ap, Bool, true, false, Option,
  none, some, List, [], ◌∷◌, ◌++◌, find, get_last?, if◌then◌else◌, arith, Bool-cases,
}
use sarkfxbot.Base.Decimal.{Decimal, dec_eqb}
use sarkfxbot.Base.Exec.{Result, ok, err, Exec, is_broker_error, if_recovered}
use sarkfxbot.Base.Ensures.{
  Post, Ensures, Ensures-from, Ensures-pure, Ensures-raise, Ensures-if_tested, Ensures-bind,
}
use sarkfxbot.Domain.Orders.{OrderRequest, ExecutionReport, BrokerPosition}
use sarkfxbot.Brokers.Port.{Broker, Call, Trace, broker_correlation_key}
use sarkfxbot.Execution.Protection.{
  same_text, same_price, last_target, target_of, belongs, visible, carries, look, watch,
}
use sarkfxbot.Execution.Protection.Shown.{
  IsLater, IsLater-cons, IsOwn, by_ticket, by_signal, by_key, IsShown, IsCarrying, IsTicket,
  reported, shown, IsSecured, was_seen,
}

abbrev pub Anywhere : Trace → Type 0
Anywhere calls = Unit

-- A recovered action, by what it answered.
pub recovered-Post :
    {A : Type 0} (Q : A → Trace → Type 0) (r : Result A) (default : A) (calls : Trace)
    → ((a : A) → r ≡ ok a → Q a calls)
    → Q default calls
    → Post Anywhere Q (if_recovered r default calls)
recovered-Post Q (ok a) default calls h k = h a refl
recovered-Post Q (err e) default calls h k = by_kind (is_broker_error e)
  where
    by_kind : (b : Bool) → Post Anywhere Q (if b then (ok default, calls) else (err e, calls))
    by_kind true = k
    by_kind false = tt

find-split :
    {A : Type 0} (f : A → Bool) (xs : List A) (a : A)
    → find f xs ≡ some a
    → (first : List A) × (rest : List A) × (xs ≡ first ++ a ∷ rest) × (f a ≡ true)
find-split f [] a e = absurd (ground arith)
find-split f (x ∷ xs) a e = elim (Bool-cases (f x)) [
  | inl passes ↦ ([], xs, ground arith, ground arith)
  | inr fails ↦
      let (first, rest, same, passes) = find-split f xs a (ground arith) in
      (x ∷ first, rest, ap (λ ys. x ∷ ys) same, passes)
]

not_split : {A : Type 0} (first rest : List A) (a : A) → [] ≡ first ++ a ∷ rest → ⊥
not_split [] rest a e = cc
not_split (x ∷ first) rest a e = cc

same_text-some : (o : Option String) (t : String) → same_text o t ≡ true → o ≡ some t
same_text-some none t h = absurd (ground arith)
same_text-some (some s) t h = ap some ((eq_iff s t).0 h)

module _ (b : Broker) (q : OrderRequest) (report : ExecutionReport) (before : Trace) where
  belongs-IsOwn :
      (p : BrokerPosition) → belongs b q report.broker_ticket p ≡ true → IsOwn b q report p
  unfolding belongs
  belongs-IsOwn p h = elim (Bool-cases (same_text report.broker_ticket p.ticket)) [
    | inl ticket ↦ by_ticket (same_text-some report.broker_ticket p.ticket ticket)
    | inr other_ticket ↦ elim (Bool-cases (same_text p.signal_id q.signal_id)) [
      | inl signal ↦ by_signal (same_text-some p.signal_id q.signal_id signal)
      | inr other_signal ↦
          by_key
            ((eq_iff p.strategy_id (broker_correlation_key b q.idempotency_key)).0 (ground arith))
    ]
  ]

  -- The positions that were seen, or none where the broker failed.
  abbrev Looked : List BrokerPosition → Trace → Type 0
  Looked ps after =
      IsLater before after
      × ((ps ≡ [])
          ⊎ ((calls : Trace) × IsLater before calls
              × (b.get_positions (some q.symbol) calls ≡ ok ps)
              × (after ≡ Call.get_positions (some q.symbol) ∷ calls)))

  visible-Ensures : Ensures Anywhere (IsLater before) (visible b q) Looked
  visible-Ensures = record {
    post = λ calls h.
        let next = IsLater-cons before calls (Call.get_positions (some q.symbol)) h in
        recovered-Post Looked (b.get_positions (some q.symbol) calls) []
          (Call.get_positions (some q.symbol) ∷ calls) (λ ps e. (next, inr (calls, h, e, refl)))
          (next, inl refl);
  }

  pub last_target-Ensures :
      (P : Trace → Type 0)
      → Ensures Anywhere P
          (last_target q)
          (λ target calls. P calls × (get_last? q.take_profits ≡ some target))
  last_target-Ensures P = by_last (get_last? q.take_profits) refl
    where
      by_last :
          (o : Option Decimal)
          → get_last? q.take_profits ≡ o
          → Ensures Anywhere P
              (target_of o)
              (λ target calls. P calls × (get_last? q.take_profits ≡ some target))
      by_last none e = Ensures-raise _ (λ calls h. tt)
      by_last (some t) e = Ensures-pure t (λ calls h. (h, e))

  same_price-some :
      (p : BrokerPosition) (o : Option Decimal) (target : Decimal)
      → dec_eqb p.stop_loss q.stop_loss ≡ true
      → get_last? q.take_profits ≡ some target
      → p.take_profit ≡ o
      → same_price o target ≡ true
      → IsCarrying b q report p
  same_price-some p none target stop last e h = absurd (ground arith)
  same_price-some p (some price) target stop last e h = record {
    stop = stop;
    target = target;
    last = last;
    price = price;
    set = e;
    same = h;
  }

  carries-Ensures :
      (P : Trace → Type 0) (p : BrokerPosition)
      → Ensures Anywhere P
          (carries b q p)
          (λ v calls. P calls × (v ≡ true → IsCarrying b q report p))
  unfolding carries
  carries-Ensures P p =
      Ensures-if_tested (dec_eqb p.stop_loss q.stop_loss)
        (λ stop. Ensures-bind (last_target q) _ (last_target-Ensures P) (λ target.
          Ensures-pure _
            (λ calls h. (h.0, λ e. same_price-some p p.take_profit target stop h.1 refl e))))
        (λ _. Ensures-pure false (λ calls h. (h, λ e. absurd (ground arith))))

  -- What the loop has found: the position with its protection at the last look, or the ticket of it.
  abbrev pub Seen : Option String × Bool → Trace → Type 0
  Seen (t, true) after = IsSecured b q report before after
  Seen (t, false) after = IsLater before after × IsTicket b q report before after t

  look-Ensures :
      (again : Exec Trace (Option String × Bool)) (ps : List BrokerPosition)
      (o : Option BrokerPosition)
      → Ensures Anywhere (IsLater before) again Seen
      → find (belongs b q report.broker_ticket) ps ≡ o
      → Ensures Anywhere (Looked ps) (look b q again o) Seen
  look-Ensures again ps none h e = Ensures-from (λ calls k. k.0) h
  look-Ensures again ps (some p) h e =
      let (first, rest, same, passes) = find-split (belongs b q report.broker_ticket) ps p e in
      Ensures-bind (carries b q p) _ (carries-Ensures (Looked ps) p) (λ verified.
        Ensures-pure _ (λ calls k. of_look first rest same passes verified calls k.0 k.1))
    where
      of_look :
          (first rest : List BrokerPosition)
          → ps ≡ first ++ p ∷ rest
          → belongs b q report.broker_ticket p ≡ true
          → (verified : Bool) (after : Trace) → Looked ps after
          → (verified ≡ true → IsCarrying b q report p)
          → Seen (some p.ticket, verified) after
      of_look first rest same passes verified after (later, inl none_seen) carrying =
          absurd (not_split first rest p (sym none_seen ∙ same))
      of_look first rest same passes verified after (later, inr (calls, earlier, answer, at))
            carrying =
          by_protection verified carrying (record {
            later = earlier;
            first = first;
            rest = rest;
            answered = answer ∙ ap ok same;
            own = belongs-IsOwn p passes;
          })
        where
          by_protection :
              (verified : Bool)
              → (verified ≡ true → IsCarrying b q report p)
              → IsShown b q report before calls p
              → Seen (some p.ticket, verified) after
          by_protection true carrying seen = was_seen calls p seen (carrying refl) at
          by_protection false carrying seen = (later, shown calls p seen ([], at) refl)

  pub watch-Ensures :
      (n : ℕ) → Ensures Anywhere (IsLater before) (watch b q report.broker_ticket n) Seen
  unfolding watch
  watch-Ensures zero = Ensures-pure _ (λ calls h. (h, reported refl))
  watch-Ensures (suc n) = Ensures-bind (visible b q) _ visible-Ensures (λ ps.
      look-Ensures (watch b q report.broker_ticket n) ps
        (find (belongs b q report.broker_ticket) ps) (watch-Ensures n) refl)
