-- ===== src/Execution/Reconciliation/Loops.antt =====
-- What the loops of app/execution/reconciliation.py leave in the ledger under each ticket.
use sarkfxbot.Base.{
  String, str_eq, eq_iff, ◌≡◌, refl, sym, ap, subst, ◌∙◌, not, Option, none, some, List, [], ◌∷◌,
  arith, Bool-cases, inl, inr, if◌then◌else◌,
}
use sarkfxbot.Base.Dict.{Dict, lookup, values, lookup-insert, lookup-nil}
use sarkfxbot.Base.Dict.Keys.{
  UniqueKeys, Keyed, lookup-cons, lookup-collect, collect-UniqueKeys, or_else,
}
use sarkfxbot.Domain.Models.{Timestamp}
use sarkfxbot.Execution.Reconciliation.{
  Pass, new_entry, repaired, retired_entry, restore_one, restore_all, retire_one, retire_all,
  shown_by, local_of, start, run_pass,
}
use sarkfxbot.Execution.Ledgers.{ReconciliationIncident, same_status, Entry, Kind}

-- The keys of a ledger are all different and the tickets of its entries.
pub record IsLedger {V : Type 0} (k : Kind V) (ledger : Dict (Entry V)) : Type 0 where
  pub unique : UniqueKeys ledger
  pub keyed : Keyed (λ e. k.ticket_of e.item) ledger

module _ {V : Type 0} (k : Kind V) (now : Timestamp) where
  -- The entry of a shown item, by the entry that the ledger had.
  abbrev pub restored_entry : Option (Entry V) → V → Entry V
  restored_entry none b = new_entry k now b
  restored_entry (some l) b =
      if same_status l.status k.gone
      then new_entry k now b
      else if not (k.same l.item b)
      then repaired k now l b
      else l

  -- The entry under a ticket after a pass, by what the broker shows and what the ledger had.
  abbrev pub settled : Option V → Option (Entry V) → Option (Entry V)
  settled (some b) o = some (restored_entry o b)
  settled none none = none
  settled none (some l) = some (if same_status l.status k.live then retired_entry k now l else l)

  restore_one-lookup :
      (o : Option (Entry V)) (t j : String) (b : V) (p : Pass V)
      → lookup t p.ledger ≡ o
      → lookup j (restore_one k now o t b p).ledger
        ≡ (if str_eq t j then some (restored_entry o b) else lookup j p.ledger)
  restore_one-lookup none t j b p e = lookup-insert t j (new_entry k now b) p.ledger
  restore_one-lookup (some l) t j b p e = ground (
    arith,
    lookup-insert t j (new_entry k now b) p.ledger,
    lookup-insert t j (repaired k now l b) p.ledger,
    eq_iff t j,
  )

  -- After the first loop, over any dict of shown items.
  abbrev pub after_restore : Option V → Option (Entry V) → Option (Entry V)
  after_restore none o = o
  after_restore (some b) o = some (restored_entry o b)

  -- One round and the rounds after it.
  join_restore :
      (d : Dict V) (l l' : Dict (Entry V)) (o : Option (Entry V)) (t j : String) (b : V)
      → lookup t d ≡ none
      → lookup t l ≡ o
      → lookup j l' ≡ (if str_eq t j then some (restored_entry o b) else lookup j l)
      → after_restore (lookup j d) (lookup j l')
        ≡ after_restore (lookup j ((t, b) ∷ d)) (lookup j l)
  join_restore d l l' o t j b fresh own one = elim (Bool-cases (str_eq t j)) [
    | inl same ↦
        let e : t ≡ j = (eq_iff t j).0 same in
        let fresh' : lookup j d ≡ none = subst (λ i. lookup i d ≡ none) e fresh in
        let own' : lookup j l ≡ o = subst (λ i. lookup i l ≡ o) e own in
        ground (arith, lookup-cons j t b d)
    | inr other ↦ ground (arith, lookup-cons j t b d)
  ]

  kept :
      (d : Dict V) (l l' local : Dict (Entry V)) (o : Option (Entry V)) (t i : String) (b c : V)
      → lookup t d ≡ none
      → lookup i d ≡ some c
      → lookup i l ≡ lookup i local
      → lookup i l' ≡ (if str_eq t i then some (restored_entry o b) else lookup i l)
      → lookup i l' ≡ lookup i local
  kept d l l' local o t i b c fresh e same one = elim (Bool-cases (str_eq t i)) [
    | inl both ↦
        let fresh' : lookup i d ≡ none =
          subst (λ j. lookup j d ≡ none) ((eq_iff t i).0 both) fresh in
        absurd (cc)
    | inr other ↦ ground arith
  ]

  pub below :
      (d : Dict V) (t i : String) (b c : V)
      → lookup t d ≡ none
      → lookup i d ≡ some c
      → lookup i ((t, b) ∷ d) ≡ some c
  below d t i b c fresh e = elim (Bool-cases (str_eq t i)) [
    | inl both ↦
        let fresh' : lookup i d ≡ none =
          subst (λ j. lookup j d ≡ none) ((eq_iff t i).0 both) fresh in
        absurd (cc)
    | inr other ↦ ground (arith, lookup-cons i t b d)
  ]

  pub restore_all-lookup :
      (local : Dict (Entry V)) (d : Dict V) (p : Pass V) (j : String)
      → UniqueKeys d
      → ((t : String) (b : V) → lookup t d ≡ some b → lookup t p.ledger ≡ lookup t local)
      → lookup j (restore_all k now local d p).ledger
        ≡ after_restore (lookup j d) (lookup j p.ledger)
  unfolding restore_all
  restore_all-lookup local [] p j u h = rw lookup-nil
  restore_all-lookup local ((t, b) ∷ d) p j u h =
      let own : lookup t p.ledger ≡ lookup t local =
        h t b (ground (arith, lookup-cons t t b d, eq_iff t t)) in
      restore_all-lookup local d (restore_one k now (lookup t local) t b p) j u.1 (λ i c e.
        kept d p.ledger _ local (lookup t local) t i b c u.0 e (h i c (below d t i b c u.0 e))
          (restore_one-lookup (lookup t local) t i b p own))
      ∙ join_restore d p.ledger _ (lookup t local) t j b u.0 own
          (restore_one-lookup (lookup t local) t j b p own)

  -- After the second loop.
  abbrev pub after_retire : Option V → Option (Entry V) → Option (Entry V) → Option (Entry V)
  after_retire none (some l) o =
      if same_status l.status k.live then some (retired_entry k now l) else o
  after_retire _ _ o = o

  retire_one-lookup :
      (o : Option V) (t j : String) (l : Entry V) (p : Pass V)
      → lookup j (retire_one k now o t l p).ledger
        ≡ (if str_eq t j then after_retire o (some l) (lookup j p.ledger) else lookup j p.ledger)
  retire_one-lookup none t j l p =
      ground (arith, lookup-insert t j (retired_entry k now l) p.ledger, eq_iff t j)
  retire_one-lookup (some b) t j l p = ground (arith, eq_iff t j)

  join_retire :
      (shown : Dict V) (d l l' : Dict (Entry V)) (t j : String) (e : Entry V)
      → lookup t d ≡ none
      → lookup j l'
        ≡ (if str_eq t j then after_retire (lookup t shown) (some e) (lookup j l) else lookup j l)
      → after_retire (lookup j shown) (lookup j d) (lookup j l')
        ≡ after_retire (lookup j shown) (lookup j ((t, e) ∷ d)) (lookup j l)
  join_retire shown d l l' t j e fresh one = elim (Bool-cases (str_eq t j)) [
    | inl same ↦
        let both : t ≡ j = (eq_iff t j).0 same in
        let fresh' : lookup j d ≡ none = subst (λ i. lookup i d ≡ none) both fresh in
        let shown' : lookup t shown ≡ lookup j shown = ap (λ i. lookup i shown) both in
        ground (arith, lookup-cons j t e d)
    | inr other ↦ ground (arith, lookup-cons j t e d)
  ]

  pub retire_all-lookup :
      (shown : Dict V) (d : Dict (Entry V)) (p : Pass V) (j : String)
      → UniqueKeys d
      → lookup j (retire_all k now shown d p).ledger
        ≡ after_retire (lookup j shown) (lookup j d) (lookup j p.ledger)
  unfolding retire_all
  retire_all-lookup shown [] p j u = ground (arith, lookup-nil {V = Entry V} j)
  retire_all-lookup shown ((t, e) ∷ d) p j u =
      retire_all-lookup shown d (retire_one k now (lookup t shown) t e p) j u.1
      ∙ join_retire shown d p.ledger _ t j e u.0 (retire_one-lookup (lookup t shown) t j e p)

  or_none : (o : Option (Entry V)) → or_else o none ≡ o
  or_none none = refl
  or_none (some e) = refl

  combine :
      (s : Option V) (m l o : Option (Entry V))
      → m ≡ l
      → o ≡ after_restore s l
      → after_retire s m o ≡ settled s l
  combine none none none o e f = ground arith
  combine none (some m) none o e f = absurd (cc)
  combine none none (some l) o e f = absurd (cc)
  combine none (some m) (some l) o e f = ground arith
  combine (some b) m l o e f = f

  pub local-lookup :
      (ledger : Dict (Entry V)) (j : String)
      → IsLedger k ledger
      → lookup j (local_of k ledger) ≡ lookup j ledger
  unfolding local_of
  local-lookup ledger j valid =
      lookup-collect (λ e. k.ticket_of e.item) ledger [] j valid.unique valid.keyed
      ∙ rw (lookup-nil {V = Entry V} j) (or_none (lookup j ledger))

  pub shown-UniqueKeys : (items : List V) → UniqueKeys (shown_by k items)
  unfolding shown_by
  shown-UniqueKeys items = collect-UniqueKeys k.ticket_of items [] tt

  pub local-UniqueKeys : (ledger : Dict (Entry V)) → UniqueKeys (local_of k ledger)
  unfolding local_of
  local-UniqueKeys ledger = collect-UniqueKeys (λ e. k.ticket_of e.item) (values ledger) [] tt

  -- What a pass leaves under a ticket.
  pub run_pass-lookup :
      (items : List V) (ledger : Dict (Entry V)) (before : List ReconciliationIncident) (j : String)
      → IsLedger k ledger
      → lookup j (run_pass k now items ledger before).ledger
        ≡ settled (lookup j (shown_by k items)) (lookup j ledger)
  unfolding run_pass
  run_pass-lookup items ledger before j valid =
      let shown = shown_by k items in
      let local = local_of k ledger in
      let p = start ledger before in
      let own = local-lookup ledger j valid in
      let restored =
        restore_all-lookup local shown p j (shown-UniqueKeys items)
          (λ t b e. sym (local-lookup ledger t valid)) in
      retire_all-lookup shown local (restore_all k now local shown p) j (local-UniqueKeys ledger)
      ∙ combine (lookup j shown) (lookup j local) (lookup j ledger) _ own restored
