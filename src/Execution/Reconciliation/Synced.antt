-- ===== src/Execution/Reconciliation/Synced.antt =====
-- The ledger of app/execution/reconciliation.py against the broker: in line after a pass, left alone
-- by a second pass, and untouched by a pass that fails.
use sarkfxbot.Base.{
  String, str_eq, eq_iff, ◌≡◌, refl, sym, ap, subst, ◌∙◌, Bool, true, false, Option, none, some,
  List, [], ◌∷◌, arith, Bool-cases, inl, inr, if◌then◌else◌,
}
use sarkfxbot.Base.Dict.{Dict, lookup}
use sarkfxbot.Base.Dict.Keys.{UniqueKeys, lookup-cons}
use sarkfxbot.Domain.Models.{Timestamp}
use sarkfxbot.Execution.Reconciliation.{
  Pass, retired_entry, restore_one, restore_all, retire_one, retire_all, shown_by, local_of, start,
  run_pass,
}
use sarkfxbot.Execution.Ledgers.{ReconciliationIncident, same_status, Entry, Kind}
use sarkfxbot.Execution.Reconciliation.Loops.{
  restored_entry, settled, IsLedger, run_pass-lookup, below, local-lookup, shown-UniqueKeys,
  local-UniqueKeys,
}

-- The statuses of a kind differ, and an item equals itself.
pub record IsLawful {V : Type 0} (k : Kind V) : Type 0 where
  pub live_not_gone : same_status k.live k.gone ≡ false
  pub gone_not_live : same_status k.gone k.live ≡ false
  pub same_refl : (v : V) → k.same v v ≡ true

-- The ledger agrees with what the broker shows: a shown item has an entry with an equal item, which
-- is not marked as gone, and what is not shown is not marked as live.
pub record IsSynced {V : Type 0} (k : Kind V) (shown : Dict V) (ledger : Dict (Entry V))
    : Type 0 where
  pub present :
      (t : String) (b : V)
      → lookup t shown ≡ some b
      → (e : Entry V) × (lookup t ledger ≡ some e)
        × (k.same e.item b ≡ true)
        × (same_status e.status k.gone ≡ false)
  pub absent :
      (t : String) (e : Entry V)
      → lookup t shown ≡ none
      → lookup t ledger ≡ some e
      → same_status e.status k.live ≡ false

module _ {V : Type 0} (k : Kind V) (lawful : IsLawful k) (now : Timestamp) where
  restored-fits :
      (o : Option (Entry V)) (b : V)
      → (k.same (restored_entry k now o b).item b ≡ true)
        × (same_status (restored_entry k now o b).status k.gone ≡ false)
  restored-fits none b = (lawful.same_refl b, lawful.live_not_gone)
  restored-fits (some l) b = ground (arith, lawful.same_refl b, lawful.live_not_gone)

  settled_absent :
      (o : Option (Entry V)) (e : Entry V)
      → settled k now none o ≡ some e
      → same_status e.status k.live ≡ false
  settled_absent none e h = absurd (cc)
  settled_absent (some l) e h = by_status (same_status l.status k.live) refl h
    where
      by_status :
          (live : Bool)
          → same_status l.status k.live ≡ live
          → some (if live then retired_entry k now l else l) ≡ some e
          → same_status e.status k.live ≡ false
      by_status true at h =
          let it : retired_entry k now l ≡ e = cc in
          subst (λ x. same_status x.status k.live ≡ false) it lawful.gone_not_live
      by_status false at h =
          let it : l ≡ e = cc in subst (λ x. same_status x.status k.live ≡ false) it at

  pub run_pass-IsSynced :
      (items : List V) (ledger : Dict (Entry V)) (before : List ReconciliationIncident)
      → IsLedger k ledger
      → IsSynced k (shown_by k items) (run_pass k now items ledger before).ledger
  run_pass-IsSynced items ledger before valid = record {
    present = λ t b e. (
      restored_entry k now (lookup t ledger) b,
      run_pass-lookup k now items ledger before t valid
          ∙ ap (λ s. settled k now s (lookup t ledger)) e,
      (restored-fits (lookup t ledger) b).0,
      (restored-fits (lookup t ledger) b).1,
    );
    absent = λ t e none_shown there. settled_absent (lookup t ledger) e (
        sym (
          run_pass-lookup k now items ledger before t valid
          ∙ ap (λ s. settled k now s (lookup t ledger)) none_shown)
        ∙ there);
  }

  -- An item that is shown has an entry that fits it.
  abbrev Fits : Dict V → Dict (Entry V) → Type 0
  Fits shown local =
      (t : String) (b : V)
      → lookup t shown ≡ some b
      → (e : Entry V) × (lookup t local ≡ some e)
        × (k.same e.item b ≡ true)
        × (same_status e.status k.gone ≡ false)

  restore_one-quiet :
      (o : Option (Entry V)) (e : Entry V) (t : String) (b : V) (p : Pass V)
      → o ≡ some e
      → k.same e.item b ≡ true
      → same_status e.status k.gone ≡ false
      → restore_one k now o t b p ≡ p
  restore_one-quiet none e t b p at same alive = absurd (cc)
  restore_one-quiet (some l) e t b p at same alive =
      let it : e ≡ l = cc in
      let same' : k.same l.item b ≡ true = subst (λ x. k.same x.item b ≡ true) it same in
      let alive' : same_status l.status k.gone ≡ false =
        subst (λ x. same_status x.status k.gone ≡ false) it alive in
      rw alive' (rw same' refl)

  restore-quiet :
      (local : Dict (Entry V)) (d : Dict V) (p : Pass V)
      → UniqueKeys d
      → Fits d local
      → restore_all k now local d p ≡ p
  unfolding restore_all
  restore-quiet local [] p u fits = refl
  restore-quiet local ((t, b) ∷ d) p u fits =
      let (e, at, same, alive) = fits t b (ground (arith, lookup-cons t t b d, eq_iff t t)) in
      ap (restore_all k now local d) (restore_one-quiet (lookup t local) e t b p at same alive)
      ∙ restore-quiet local d p u.1 (λ i c h. fits i c (below k now d t i b c u.0 h))

  -- An entry that is not shown is not marked as live.
  abbrev Absent : Dict V → Dict (Entry V) → Type 0
  Absent shown local =
      (t : String) (e : Entry V)
      → lookup t shown ≡ none
      → lookup t local ≡ some e
      → same_status e.status k.live ≡ false

  retire_one-quiet :
      (o : Option V) (t : String) (e : Entry V) (p : Pass V)
      → (o ≡ none → same_status e.status k.live ≡ false)
      → retire_one k now o t e p ≡ p
  retire_one-quiet none t e p h = rw (h refl) refl
  retire_one-quiet (some b) t e p h = refl

  below_entry :
      (d : Dict (Entry V)) (t i : String) (e c : Entry V)
      → lookup t d ≡ none
      → lookup i d ≡ some c
      → lookup i ((t, e) ∷ d) ≡ some c
  below_entry d t i e c fresh h = elim (Bool-cases (str_eq t i)) [
    | inl both ↦
        let fresh' : lookup i d ≡ none =
          subst (λ j. lookup j d ≡ none) ((eq_iff t i).0 both) fresh in
        absurd (cc)
    | inr other ↦ ground (arith, lookup-cons i t e d)
  ]

  retire-quiet :
      (shown : Dict V) (d : Dict (Entry V)) (p : Pass V)
      → UniqueKeys d
      → Absent shown d
      → retire_all k now shown d p ≡ p
  unfolding retire_all
  retire-quiet shown [] p u h = refl
  retire-quiet shown ((t, e) ∷ d) p u h =
      ap (retire_all k now shown d) (
        retire_one-quiet (lookup t shown) t e p
          (λ gone. h t e gone (ground (arith, lookup-cons t t e d, eq_iff t t))))
      ∙ retire-quiet shown d p u.1 (λ i c gone at. h i c gone (below_entry d t i e c u.0 at))

  -- A pass over a ledger that is in line finds nothing and writes nothing.
  pub run_pass-quiet :
      (items : List V) (ledger : Dict (Entry V)) (before : List ReconciliationIncident)
      → IsLedger k ledger
      → IsSynced k (shown_by k items) ledger
      → run_pass k now items ledger before ≡ start ledger before
  unfolding run_pass
  run_pass-quiet items ledger before valid synced =
      let shown = shown_by k items in
      let local = local_of k ledger in
      let p = start ledger before in
      let own = λ (t : String). local-lookup k now ledger t valid in
      ap (retire_all k now shown local) (
        restore-quiet local shown p (shown-UniqueKeys k now items) (λ t b h.
          let (e, at, same, alive) = synced.present t b h in (e, own t ∙ at, same, alive)))
      ∙ retire-quiet shown local p (local-UniqueKeys k now ledger)
          (λ t e gone at. synced.absent t e gone (sym (own t) ∙ at))
