-- ===== src/Execution/Positions/Looks.antt =====
-- The first look of app/execution/positions.py at a position.
use sarkfxbot.Base.{String, ◌≡◌, refl, ◌∙◌, sym, ap, Option, none, some, List, ◌∷◌, filter, find}
use sarkfxbot.Base.Exec.{ok}
use sarkfxbot.Domain.Orders.{BrokerPosition}
use sarkfxbot.Brokers.Port.{Broker, Call, Trace, ask}
use sarkfxbot.Brokers.Avoids.{is_mutation}
use sarkfxbot.Base.Ensures.{Ensures, Ensures-to, Ensures-pure, Ensures-raise, Ensures-bind, Post-of}
use sarkfxbot.Execution.Positions.{has_ticket, found, position_of}

-- The calls that change the account, the latest first.
abbrev pub mutations : Trace → List Call
mutations calls = filter is_mutation calls

module _ (b : Broker) (ticket : String) (before : Trace) where
  -- The broker showed this position at the start.
  abbrev pub Shown : BrokerPosition → Type 0
  Shown p =
      (ps : List BrokerPosition) × (b.get_positions none before ≡ ok ps)
      × (find (has_ticket ticket) ps ≡ some p)

  abbrev pub IsQuiet : Trace → Type 0
  IsQuiet calls = mutations calls ≡ mutations before

  -- The first look at the positions.
  pub look-Ensures :
      {I : Trace → Type 0}
      → ((calls : Trace) → IsQuiet calls → I calls)
      → Ensures I
          (λ calls. calls ≡ before)
          (position_of b ticket)
          (λ p calls. (calls ≡ Call.get_positions none ∷ before) × Shown p)
  unfolding position_of
  look-Ensures {I} of_quiet =
      Ensures-bind (ask (Call.get_positions none) (b.get_positions none)) _ first
        (λ ps. chosen ps (find (has_ticket ticket) ps) refl)
    where
      first :
          Ensures I
            (λ calls. calls ≡ before)
            (ask (Call.get_positions none) (b.get_positions none))
            (λ ps calls.
              (calls ≡ Call.get_positions none ∷ before) × (b.get_positions none before ≡ ok ps))
      first = record {
        post = λ calls e.
            Post-of I
              (λ ps calls.
                (calls ≡ Call.get_positions none ∷ before) × (b.get_positions none before ≡ ok ps))
              (b.get_positions none calls) (Call.get_positions none ∷ calls)
              (λ ps r. (
                ap (λ t. Call.get_positions none ∷ t) e,
                ap (λ t. b.get_positions none t) (sym e) ∙ r,
              ))
              (λ _ _. of_quiet _ (ap mutations e));
      }

      chosen :
          (ps : List BrokerPosition) (o : Option BrokerPosition)
          → find (has_ticket ticket) ps ≡ o
          → Ensures I
              (λ calls.
                (calls ≡ Call.get_positions none ∷ before) × (b.get_positions none before ≡ ok ps))
              (found o)
              (λ p calls. (calls ≡ Call.get_positions none ∷ before) × Shown p)
      chosen ps none e = Ensures-raise _ (λ calls h. of_quiet calls (ap mutations h.0))
      chosen ps (some p) e = Ensures-pure _ (λ calls h. (h.0, (ps, h.1, e)))

  pub Shown-Ensures :
      {I : Trace → Type 0}
      → ((calls : Trace) → IsQuiet calls → I calls)
      → Ensures I
          (λ calls. calls ≡ before)
          (position_of b ticket)
          (λ p calls. IsQuiet calls × Shown p)
  Shown-Ensures of_quiet = Ensures-to (λ p calls h. (ap mutations h.0, h.1)) (look-Ensures of_quiet)
