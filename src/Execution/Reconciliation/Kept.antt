-- ===== src/Execution/Reconciliation/Kept.antt =====
-- The loops of app/execution/reconciliation.py keep the keys of the ledger: all different, and the
-- tickets of their entries.
use sarkfxbot.Base.{
  String, ◌≡◌, refl, sym, subst, ◌∙◌, Bool, true, false, not, Option, none, some, List, [], ◌∷◌,
  arith, if◌then◌else◌,
}
use sarkfxbot.Base.Dict.{Dict, lookup, lookup-nil}
use sarkfxbot.Base.Dict.Keys.{UniqueKeys, Keyed, collect-Keyed, insert-UniqueKeys}
use sarkfxbot.Domain.Models.{Timestamp}
use sarkfxbot.Execution.Reconciliation.{
  Pass, new_entry, repaired, retired_entry, restore_one, restore_all, retire_one, retire_all,
  shown_by, local_of, start, run_pass,
}
use sarkfxbot.Execution.Ledgers.{ReconciliationIncident, same_status, Entry, Kind}
use sarkfxbot.Execution.Reconciliation.Loops.{settled, IsLedger, run_pass-lookup}

on_if : {A : Type 0} (P : A → Type 0) (c : Bool) (x y : A) → P x → P y → P (if c then x else y)
on_if P true x y h i = h
on_if P false x y h i = i

some_inj : {A : Type 0} (a b : A) → some a ≡ some b → a ≡ b
some_inj a b e = cc

module _ {V : Type 0} (k : Kind V) (now : Timestamp) where
  restore_one-UniqueKeys :
      (o : Option (Entry V)) (t : String) (b : V) (p : Pass V)
      → UniqueKeys p.ledger
      → UniqueKeys (restore_one k now o t b p).ledger
  restore_one-UniqueKeys none t b p u = insert-UniqueKeys t (new_entry k now b) p.ledger u
  restore_one-UniqueKeys (some l) t b p u =
      on_if (λ (x : Pass V). UniqueKeys x.ledger) (same_status l.status k.gone) _ _
        (insert-UniqueKeys t (new_entry k now b) p.ledger u)
        (on_if (λ (x : Pass V). UniqueKeys x.ledger) (not (k.same l.item b)) _ _
          (insert-UniqueKeys t (repaired k now l b) p.ledger u) u)

  restore_all-UniqueKeys :
      (local : Dict (Entry V)) (d : Dict V) (p : Pass V)
      → UniqueKeys p.ledger
      → UniqueKeys (restore_all k now local d p).ledger
  unfolding restore_all
  restore_all-UniqueKeys local [] p u = u
  restore_all-UniqueKeys local ((t, b) ∷ d) p u =
      restore_all-UniqueKeys local d (restore_one k now (lookup t local) t b p)
        (restore_one-UniqueKeys (lookup t local) t b p u)

  retire_one-UniqueKeys :
      (o : Option V) (t : String) (l : Entry V) (p : Pass V)
      → UniqueKeys p.ledger
      → UniqueKeys (retire_one k now o t l p).ledger
  retire_one-UniqueKeys none t l p u =
      on_if (λ (x : Pass V). UniqueKeys x.ledger) (same_status l.status k.live) _ _
        (insert-UniqueKeys t (retired_entry k now l) p.ledger u) u
  retire_one-UniqueKeys (some b) t l p u = u

  retire_all-UniqueKeys :
      (shown : Dict V) (d : Dict (Entry V)) (p : Pass V)
      → UniqueKeys p.ledger
      → UniqueKeys (retire_all k now shown d p).ledger
  unfolding retire_all
  retire_all-UniqueKeys shown [] p u = u
  retire_all-UniqueKeys shown ((t, l) ∷ d) p u =
      retire_all-UniqueKeys shown d (retire_one k now (lookup t shown) t l p)
        (retire_one-UniqueKeys (lookup t shown) t l p u)

  shown-Keyed : (items : List V) → Keyed k.ticket_of (shown_by k items)
  unfolding shown_by
  shown-Keyed items =
      collect-Keyed k.ticket_of items [] (λ j v e. absurd (ground (arith, lookup-nil {V = V} j)))

  -- The ticket of an entry is the ticket of the item that it came from.
  settled-ticket :
      (s : Option V) (o : Option (Entry V)) (v : Entry V) (j : String)
      → settled k now s o ≡ some v
      → ((b : V) → s ≡ some b → k.ticket_of b ≡ j)
      → ((l : Entry V) → o ≡ some l → k.ticket_of l.item ≡ j)
      → k.ticket_of v.item ≡ j
  settled-ticket (some b) none v j e shown local =
      subst (λ (x : Entry V). k.ticket_of x.item ≡ j) (some_inj _ v e) (shown b refl)
  settled-ticket (some b) (some l) v j e shown local =
      subst (λ (x : Entry V). k.ticket_of x.item ≡ j) (some_inj _ v e)
        (on_if (λ (x : Entry V). k.ticket_of x.item ≡ j) (same_status l.status k.gone) _ _
          (shown b refl)
          (on_if (λ (x : Entry V). k.ticket_of x.item ≡ j) (not (k.same l.item b)) _ _
            (shown b refl) (local l refl)))
  settled-ticket none none v j e shown local = absurd (cc)
  settled-ticket none (some l) v j e shown local =
      subst (λ (x : Entry V). k.ticket_of x.item ≡ j) (some_inj _ v e)
        (on_if (λ (x : Entry V). k.ticket_of x.item ≡ j) (same_status l.status k.live) _ _
          (local l refl) (local l refl))

  pub run_pass-IsLedger :
      (items : List V) (ledger : Dict (Entry V)) (before : List ReconciliationIncident)
      → IsLedger k ledger
      → IsLedger k (run_pass k now items ledger before).ledger
  unfolding run_pass
  run_pass-IsLedger items ledger before valid =
      let shown = shown_by k items in
      let local = local_of k ledger in
      let p = start ledger before in
      record {
        unique =
            retire_all-UniqueKeys shown local (restore_all k now local shown p)
              (restore_all-UniqueKeys local shown p valid.unique);
        keyed = λ j v e.
            settled-ticket (lookup j shown) (lookup j ledger) v j
              (sym (run_pass-lookup k now items ledger before j valid) ∙ e)
              (λ b at. shown-Keyed items j b at) (λ l at. valid.keyed j l at);
      }
