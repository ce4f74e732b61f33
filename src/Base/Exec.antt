-- ===== src/Base/Exec.antt =====
-- Calls that change a state and may raise: what was written before a raise stays written.
use mathlib.Core.Path.{◌≡◌, refl}
use mathlib.Core.Logic.{◌⊎◌, inl, inr}
use native.Mathlib.Omega.{arith}
use mathlib.Core.Bool.{Bool, true, false}
use Prim.Native.String.{String}
use sarkfxbot.Base.Tests.{if◌then◌else◌}

-- The subclasses of `BrokerError` (app/domain/errors.py, app/brokers/base.py).
pub data BrokerErrorKind : Type 0 where
  broker_error unavailable unsupported symbol_resolution indeterminate unprotected : BrokerErrorKind

-- The exceptions that the modelled code raises or catches.
pub data Error : Type 0 where
  broker : BrokerErrorKind → String → Error
  risk_rejected : String → Error
  duplicate_order : String → Error
  configuration : String → Error
  invalid_transition : String → Error
  timeout : String → Error
  value_error : String → Error
  type_error : String → Error
  runtime_error : String → Error
  permission_error : String → Error
  key_error : String → Error
  index_error : String → Error

-- isinstance(exc, BrokerError)
abbrev pub is_broker_error : Error → Bool
is_broker_error (broker kind message) = true
is_broker_error _ = false

-- The class name of a broker error.
abbrev pub kind_name : BrokerErrorKind → String
kind_name broker_error = "BrokerError"
kind_name unavailable = "BrokerUnavailableError"
kind_name unsupported = "BrokerOperationUnsupported"
kind_name symbol_resolution = "SymbolResolutionError"
kind_name indeterminate = "IndeterminateBrokerResult"
kind_name unprotected = "UnprotectedPositionError"

pub data Result {ℓ} (A : Type ℓ) : Type ℓ where
  ok : A → Result A
  err : Error → Result A

abbrev pub is_ok {ℓ} : {A : Type ℓ} → Result A → Bool
is_ok (ok a) = true
is_ok (err e) = false

pub Result-cases {ℓ} :
    {A : Type ℓ} → (r : Result A) → ((a : A) × (r ≡ ok a)) ⊎ ((e : Error) × (r ≡ err e))
Result-cases (ok a) = inl (a, refl)
Result-cases (err e) = inr (e, refl)

abbrev pub Exec : Type 0 → Type 0 → Type 0
Exec S A = S → Result A × S

module _ {S A : Type 0} where
  abbrev pub pure : A → Exec S A
  pure a s = (ok a, s)

  abbrev pub raise : Error → Exec S A
  raise e s = (err e, s)

  abbrev pub lift : Result A → Exec S A
  lift r s = (r, s)

module _ {S A B : Type 0} where
  abbrev pub continue : Result A → (A → Exec S B) → Exec S B
  continue (ok a) f s = f a s
  continue (err e) f s = (err e, s)

  continue-eq-ok :
      (r : Result A) (f : A → Exec S B) (s : S) {b : B}
      → (continue r f s).0 ≡ ok b
      → (a : A) × (r ≡ ok a) × ((f a s).0 ≡ ok b)
  continue-eq-ok (ok a) f s h = (a, refl, h)
  continue-eq-ok (err e) f s h = cc

  infixl 5 ◌>>=◌ ◌>>◌
  abbrev pub ◌>>=◌ : Exec S A → (A → Exec S B) → Exec S B
  ◌>>=◌ m f s = let (r, s') = m s in continue r f s'

  abbrev pub ◌>>◌ : Exec S A → Exec S B → Exec S B
  m >> n = m >>= λ _. n

  -- `try: m except: handler`, where the handler also sees the errors that it passes on
  abbrev pub attempt : Exec S A → (A → Exec S B) → (Error → Exec S B) → Exec S B
  attempt m f handler s = let (r, s') = m s in elim r [ ok a ↦ f a s' | err e ↦ handler e s' ]

module _ {S A : Type 0} where
  -- A result with a broker error turned into a default.
  abbrev pub if_recovered : Result A → A → S → Result A × S
  if_recovered (ok a) default s = (ok a, s)
  if_recovered (err e) default s = if is_broker_error e then (ok default, s) else (err e, s)

  -- `try: m except BrokerError: default`
  abbrev pub recover : Exec S A → A → Exec S A
  recover m default s = let (r, s') = m s in if_recovered r default s'

module _ {S A B : Type 0} where
  -- What a bind that returned went through.
  pub bind-eq-ok :
      (m : Exec S A) (f : A → Exec S B) (s : S) {b : B}
      → ((m >>= f) s).0 ≡ ok b
      → (a : A) × ((m s).0 ≡ ok a) × ((f a (m s).1).0 ≡ ok b)
  bind-eq-ok m f s h = let (r, s') = m s in continue-eq-ok r f s' h

module _ {S A : Type 0} where
  recovered-eq-ok :
      (r : Result A) (default : A) (s : S) {a : A}
      → (if_recovered r default s).0 ≡ ok a
      → (r ≡ ok a) ⊎ (a ≡ default)
  recovered-eq-ok (ok x) default s h = inl h
  recovered-eq-ok (err e) default s h = inr (ground arith)

  -- A recovered action that returned did so itself, or returned the default.
  pub recover-eq-ok :
      (m : Exec S A) (default : A) (s : S) {a : A}
      → (recover m default s).0 ≡ ok a
      → ((m s).0 ≡ ok a) ⊎ (a ≡ default)
  recover-eq-ok m default s h = let (r, s') = m s in recovered-eq-ok r default s' h
