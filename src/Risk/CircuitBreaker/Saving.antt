-- ===== src/Risk/CircuitBreaker/Saving.antt =====
-- Operations of app/risk/circuit_breaker.py that save a state computed from the current one.
use sarkfxbot.Base.{◌+◌, String, str_eq, ◌≡◌, refl, some, arith, if◌then◌else◌}
use sarkfxbot.Base.Dict.{lookup}
use sarkfxbot.Base.Exec.{ok, Exec, ◌>>=◌}
use sarkfxbot.Domain.Models.{Timestamp}
use sarkfxbot.Risk.CircuitBreaker.{CircuitState, CircuitStore, Schedule, save, get}
use sarkfxbot.Risk.CircuitBreaker.Locks.{
  Keyed, got, save-result, save-lookup, got-account_id, get-result, get-lookup, get-version,
}

module _ (k : Schedule) (id : String) (now : Timestamp) (store : CircuitStore)
    (keyed : Keyed store) where
  -- The state that `get` returns here, and the store that it leaves.
  abbrev pub before : CircuitState
  before = got k id now (lookup id store)

  abbrev pub middle : CircuitStore
  middle = (get k id now store).1

  -- A state computed from the one that `get` returned is saved under its version.
  pub saved-result :
      (u : CircuitState)
      → u.account_id ≡ id
      → (save u before.version middle).0 ≡ ok (record u { version = before.version + 1 })
  saved-result u e = save-result u before.version middle (rw e (get-version k id now store keyed))

  pub saved-lookup :
      (u : CircuitState) (j : String)
      → u.account_id ≡ id
      → lookup j (save u before.version middle).1
        ≡ (if str_eq id j then some (record u { version = before.version + 1 }) else lookup j store)
  saved-lookup u j e = ground (
    arith,
    save-lookup u before.version middle j (rw e (get-version k id now store keyed)),
    get-lookup k id now store keyed j,
  )

  -- What comes after `get` in an operation.
  pub bind-get :
      {A : Type 0} (f : CircuitState → Exec CircuitStore A)
      → (get k id now >>= f) store ≡ f before middle
  bind-get f = rw (get-result k id now store keyed) refl

  module _ (f : CircuitState → CircuitState)
      (keeps : (c : CircuitState) → (f c).account_id ≡ c.account_id) where
    abbrev pub written : CircuitState
    written = record (f before) { version = before.version + 1 }

    -- An operation that saves a state computed from the current one returns it, and stores it.
    pub saving-result : ((get k id now >>= λ c. save (f c) c.version) store).0 ≡ ok written
    saving-result = ground (
      arith,
      bind-get (λ c. save (f c) c.version),
      saved-result (f before),
      keeps before,
      got-account_id k id now store keyed,
    )

    pub saving-lookup :
        (j : String)
        → lookup j ((get k id now >>= λ c. save (f c) c.version) store).1
          ≡ (if str_eq id j then some written else lookup j store)
    saving-lookup j = ground (
      arith,
      bind-get (λ c. save (f c) c.version),
      saved-lookup (f before) j,
      keeps before,
      got-account_id k id now store keyed,
    )
