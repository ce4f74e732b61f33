-- ===== src/Execution/Json.antt =====
-- The JSON values of app/execution/sqlalchemy_idempotency.py and how they are read. A text that `str`
-- writes of a Decimal, or `isoformat` of a datetime, stands as the value that it names. Reading a
-- value of a type that is never written at its place is an error here.
use sarkfxbot.Base.{ℕ, String, str_eq, Bool, Option, none, some, List, [], ◌∷◌, if◌then◌else◌}
use sarkfxbot.Base.Decimal.{Decimal, of_ℕ}
use sarkfxbot.Base.Dict.{Dict, lookup}
use sarkfxbot.Base.Exec.{Result, ok, err, value_error, key_error}
use sarkfxbot.Domain.Models.{Timestamp}

-- What stands under a key of a report, or in a list.
pub data Value : Type 0 where
  null : Value
  flag : Bool → Value
  number : ℕ → Value
  text : String → Value
  decimal : Decimal → Value
  instant : Timestamp → Value

-- What stands under a key of a payload.
pub data Payload : Type 0 where
  value : Value → Payload
  values : List Value → Payload
  object : Dict Value → Payload

infixl 5 ◌>>=◌
abbrev pub ◌>>=◌ : {A B : Type 0} → Result A → (A → Result B) → Result B
ok a >>= f = f a
err e >>= f = err e

-- payload[key]
abbrev pub required : {A : Type 0} → String → Option A → Result A
required key none = err (key_error key)
required key (some a) = ok a

abbrev pub item : {A : Type 0} → String → Dict A → Result A
item key payload = required key (lookup key payload)

abbrev pub wrong_type : {A : Type 0} → Result A
wrong_type = err (value_error "a value of another type")

abbrev pub text_of : Value → Result String
text_of (text s) = ok s
text_of _ = wrong_type

abbrev pub decimal_of : Value → Result Decimal
decimal_of (decimal d) = ok d
decimal_of (number n) = ok (of_ℕ n)
decimal_of _ = wrong_type

abbrev pub instant_of : Value → Result Timestamp
instant_of (instant t) = ok t
instant_of _ = wrong_type

abbrev pub flag_of : Value → Result Bool
flag_of (flag b) = ok b
flag_of _ = wrong_type

abbrev pub single : Payload → Result Value
single (value v) = ok v
single _ = wrong_type

abbrev pub several : Payload → Result (List Value)
several (values vs) = ok vs
several _ = wrong_type

unfoldable pub decimals_of : List Value → Result (List Decimal)
decimals_of [] = ok []
decimals_of (v ∷ vs) = do d ← decimal_of v; ds ← decimals_of vs; ok (d ∷ ds)

-- Decimal(str(v)) if v is not None else None
abbrev pub decimal_or_none : Value → Result (Option Decimal)
decimal_or_none null = ok none
decimal_or_none v = do d ← decimal_of v; ok (some d)

-- str(v) if v else None
abbrev pub text_or_none : Value → Result (Option String)
text_or_none null = ok none
text_or_none (text s) = if str_eq s "" then ok none else ok (some s)
text_or_none _ = wrong_type

-- datetime.fromisoformat(str(v)) if v else None
abbrev pub instant_or_none : Value → Result (Option Timestamp)
instant_or_none null = ok none
instant_or_none v = do t ← instant_of v; ok (some t)

-- payload.get(key), with the default of it
abbrev pub get_or : Value → Option Payload → Result Value
get_or default none = ok default
get_or default (some p) = single p

abbrev pub single_item : String → Dict Payload → Result Value
single_item key payload = do p ← item key payload; single p
