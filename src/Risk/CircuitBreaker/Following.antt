-- ===== src/Risk/CircuitBreaker/Following.antt =====
-- What one operation on the breaker of app/risk/circuit_breaker.py does to the states of the
-- accounts: only its own account changes, and its halt is kept.
use sarkfxbot.Base.{
  ◌+◌, String, str_eq, eq_iff, ◌≡◌, refl, sym, ap, ◌∙◌, ◌⊎◌, inl, inr, Bool, true, false, Option,
  none, some, arith, Option-cases, Bool-cases, if◌then◌else◌,
}
use sarkfxbot.Base.Dict.{lookup}
use sarkfxbot.Domain.Models.{Timestamp, AccountSnapshot}
use sarkfxbot.Risk.Models.{RiskLimits, RiskUsage}
use sarkfxbot.Risk.CircuitBreaker.{
  CircuitState, CircuitStore, Schedule, roll_over, get, evaluate, evaluated, unchanged,
  activate_kill_switch, manual_reset, reset_state,
}
use sarkfxbot.Risk.CircuitBreaker.Locks.{Keyed, settle, got, got-account_id, get-lookup}
use sarkfxbot.Risk.CircuitBreaker.Saving.{saved-lookup, saving-lookup}
use sarkfxbot.Risk.CircuitBreaker.{killed_state}
use sarkfxbot.Risk.CircuitBreaker.Commands.{evaluate-unchanged, evaluate_changed, new-account_id}

-- An account that needs a manual reset, or whose kill switch is on.
abbrev pub IsHalted : Option CircuitState → Type 0
IsHalted none = ⊥
IsHalted (some c) = (c.manual_reenable_required ≡ true) ⊎ (c.kill_switch ≡ true)

-- The state of account `j` after an operation on account `id`: it is as before, or it is the
-- operation's own account and its new state keeps the halt of the state that `get` returned.
abbrev pub Follows :
    CircuitState → String → String → Option CircuitState → Option CircuitState → Type 0
Follows old id j o o' =
    (o' ≡ o)
    ⊎ ((id ≡ j)
        × ((c : CircuitState) × (o' ≡ some c)
            × (c.account_id ≡ id)
            × (old.manual_reenable_required ≡ true → c.manual_reenable_required ≡ true)
            × (old.kill_switch ≡ true → c.kill_switch ≡ true)))

module _ (k : Schedule) (now : Timestamp) (store : CircuitStore) (keyed : Keyed store) where
  got-IsHalted :
      (id j : String)
      → id ≡ j
      → IsHalted (lookup j store)
      → IsHalted (some (got k id now (lookup id store)))
  unfolding roll_over
  got-IsHalted id j e h = elim (Option-cases (lookup j store)) [
    | inl n ↦ absurd (rw n at h)
    | inr (c, s) ↦
        let halted : IsHalted (some c) = rw s at h in
        rw (ap (λ x. lookup x store) e ∙ s) (ground arith)
  ]

  pub Follows-IsHalted :
      (id j : String) (o : Option CircuitState)
      → Follows (got k id now (lookup id store)) id j (lookup j store) o
      → IsHalted (lookup j store)
      → IsHalted o
  Follows-IsHalted id j o (inl e) h = rw e h
  Follows-IsHalted id j o (inr (e, (c, s, _, manual, switch))) h =
      rw s (ground (arith, got-IsHalted id j e h))

  pub Follows-account_id :
      (id j : String) (o : Option CircuitState) (c : CircuitState)
      → Follows (got k id now (lookup id store)) id j (lookup j store) o
      → o ≡ some c
      → c.account_id ≡ j
  Follows-account_id id j o c (inl e) h = keyed j c (sym e ∙ h)
  Follows-account_id id j o c (inr (e, (c', s, a, _, _))) h = cc

  pub fetch-Follows :
      (id j : String)
      → Follows
          (got k id now (lookup id store))
          id
          j
          (lookup j store)
          (lookup j (get k id now store).1)
  unfolding roll_over
  fetch-Follows id j = elim (Option-cases (lookup id store)) [
    | inl n ↦ inl (ground (arith, get-lookup k id now store keyed j, eq_iff id j))
    | inr (c, s) ↦ elim (Bool-cases (str_eq id j)) [
      | inl same ↦ inr (
        (eq_iff id j).0 same,
        (
          settle k now c,
          ground (arith, get-lookup k id now store keyed j),
          ground (arith, keyed id c s),
          ground arith,
          ground arith,
        ),
      )
      | inr other ↦ inl (ground (arith, get-lookup k id now store keyed j))
    ]
  ]

  saving-Follows :
      (id j : String) (f : CircuitState → CircuitState) (o : Option CircuitState)
      → (f (got k id now (lookup id store))).account_id ≡ id
      → ((got k id now (lookup id store)).manual_reenable_required ≡ true
          → (f (got k id now (lookup id store))).manual_reenable_required ≡ true)
      → ((got k id now (lookup id store)).kill_switch ≡ true
          → (f (got k id now (lookup id store))).kill_switch ≡ true)
      → o ≡ (
          if str_eq id j
          then some (record (f (got k id now (lookup id store))) {
            version = (got k id now (lookup id store)).version + 1;
          })
          else lookup j store)
      → Follows (got k id now (lookup id store)) id j (lookup j store) o
  saving-Follows id j f o a manual switch e = elim (Bool-cases (str_eq id j)) [
    | inl same ↦ inr (
      (eq_iff id j).0 same,
      (
        record (f (got k id now (lookup id store))) {
          version = (got k id now (lookup id store)).version + 1;
        },
        ground arith,
        a,
        manual,
        switch,
      ),
    )
    | inr other ↦ inl (ground arith)
  ]

  pub kill-Follows :
      (id j : String)
      → Follows
          (got k id now (lookup id store))
          id
          j
          (lookup j store)
          (lookup j (activate_kill_switch k id now store).1)
  unfolding activate_kill_switch
  kill-Follows id j =
      saving-Follows id j (killed_state now) _ (got-account_id k id now store keyed) (λ h. h)
        (λ h. refl) (saving-lookup k id now store keyed (killed_state now) (λ c. refl) j)

  pub assess-Follows :
      (l : RiskLimits) (a : AccountSnapshot) (usage : RiskUsage) (j : String)
      → Follows
          (got k a.account_id now (lookup a.account_id store))
          a.account_id
          j
          (lookup j store)
          (lookup j (evaluate k l a usage now store).1)
  unfolding evaluated
  assess-Follows l a usage j =
      let old = got k a.account_id now (lookup a.account_id store) in
      elim (Bool-cases (unchanged (evaluated l a usage now old) old)) [
        | inl same ↦
            rw (evaluate-unchanged k l a usage now store keyed same) (fetch-Follows a.account_id j)
        | inr changed ↦ rw (evaluate_changed k l a usage now store keyed changed) (
            saving-Follows a.account_id j (evaluated l a usage now) _
              (new-account_id k l a usage now store keyed) (λ h. ground arith) (λ h. h)
              (saved-lookup k a.account_id now store keyed (evaluated l a usage now old) j
                (new-account_id k l a usage now store keyed)))
      ]

  pub reset-lookup :
      (id : String) (clear : Bool) (j : String)
      → lookup j (manual_reset k id now true clear store).1 ≡ (
          if str_eq id j
          then some (record (reset_state now clear (got k id now (lookup id store))) {
            version = (got k id now (lookup id store)).version + 1;
          })
          else lookup j store)
  unfolding manual_reset
  reset-lookup id clear j = saving-lookup k id now store keyed (reset_state now clear) (λ c. refl) j

  pub reset_unauthorized :
      (id : String) (clear : Bool) → (manual_reset k id now false clear store).1 ≡ store
  unfolding manual_reset
  reset_unauthorized id clear = refl
