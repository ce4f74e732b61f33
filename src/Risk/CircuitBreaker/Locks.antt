-- ===== src/Risk/CircuitBreaker/Locks.antt =====
-- The store under the operations of app/risk/circuit_breaker.py: what `get`, `evaluate`,
-- `activate_kill_switch` and `manual_reset` return and what they leave behind.
use sarkfxbot.Base.{
  ℕ, ◌+◌, String, str_eq, eq_iff, ◌≡◌, refl, inl, inr, Option, none, some, arith, Option-cases,
  if◌then◌else◌,
}
use sarkfxbot.Base.Dict.{lookup, lookup-insert}
use sarkfxbot.Base.Exec.{ok}
use sarkfxbot.Domain.Models.{Timestamp}
use sarkfxbot.Risk.CircuitBreaker.{
  CircuitState, CircuitStore, Schedule, version_of, save, fresh_state, roll_over, period_changed,
  current, get,
}

-- Each state is stored under its own account.
abbrev pub Keyed : CircuitStore → Type 0
Keyed store = (j : String) (c : CircuitState) → lookup j store ≡ some c → c.account_id ≡ j

-- The state after its period has rolled over.
abbrev pub settle : Schedule → Timestamp → CircuitState → CircuitState
settle k now c =
    if period_changed k now c then record (roll_over k now c) { version = c.version + 1 } else c

abbrev pub got : Schedule → String → Timestamp → Option CircuitState → CircuitState
got k id now none = fresh_state k id now
got k id now (some c) = settle k now c

abbrev pub settled : Schedule → Timestamp → Option CircuitState → Option CircuitState
settled k now none = none
settled k now (some c) = some (settle k now c)

-- A save with the stored version succeeds.
pub save-result :
    (c : CircuitState) (v : ℕ) (store : CircuitStore)
    → version_of (lookup c.account_id store) ≡ v
    → (save c v store).0 ≡ ok (record c { version = v + 1 })
unfolding save
save-result c v store h = ground arith

pub save-lookup :
    (c : CircuitState) (v : ℕ) (store : CircuitStore) (j : String)
    → version_of (lookup c.account_id store) ≡ v
    → lookup j (save c v store).1
      ≡ (if str_eq c.account_id j then some (record c { version = v + 1 }) else lookup j store)
unfolding save
save-lookup c v store j h =
    ground (arith, lookup-insert c.account_id j (record c { version = v + 1 }) store)

module _ (k : Schedule) (id : String) (now : Timestamp) (store : CircuitStore) where
  get-result_some :
      (c : CircuitState)
      → lookup id store ≡ some c
      → c.account_id ≡ id
      → (get k id now store).0 ≡ ok (settle k now c)
  unfolding get roll_over
  get-result_some c e key = ground (arith, save-result (roll_over k now c) c.version store)

  get-lookup-some :
      (c : CircuitState) (j : String)
      → lookup id store ≡ some c
      → c.account_id ≡ id
      → lookup j (get k id now store).1
        ≡ (if str_eq id j then some (settle k now c) else lookup j store)
  unfolding get roll_over
  get-lookup-some c j e key =
      ground (arith, eq_iff id j, save-lookup (roll_over k now c) c.version store j)

  module _ (keyed : Keyed store) where
    pub got-account_id : (got k id now (lookup id store)).account_id ≡ id
    unfolding roll_over
    got-account_id = elim (Option-cases (lookup id store)) [
      | inl e ↦ rw e refl
      | inr (c, e) ↦ rw e (ground (arith, keyed id c e))
    ]

    pub get-result : (get k id now store).0 ≡ ok (got k id now (lookup id store))
    unfolding get
    get-result = elim (Option-cases (lookup id store)) [
      | inl e ↦ rw (e, current) refl
      | inr (c, e) ↦ rw (get-result_some c e (keyed id c e), e) refl
    ]

    pub get-lookup :
        (j : String)
        → lookup j (get k id now store).1
          ≡ (if str_eq id j then settled k now (lookup id store) else lookup j store)
    unfolding get
    get-lookup j = elim (Option-cases (lookup id store)) [
      | inl e ↦ ground (arith, eq_iff id j)
      | inr (c, e) ↦ rw (get-lookup-some c j e (keyed id c e), e) refl
    ]

    pub get-version :
        version_of (lookup id (get k id now store).1) ≡ (got k id now (lookup id store)).version
    get-version = elim (Option-cases (lookup id store)) [
      | inl e ↦ ground (arith, get-lookup id, eq_iff id id)
      | inr (c, e) ↦ ground (arith, get-lookup id, eq_iff id id)
    ]
