-- ===== src/Domain/StateMachine.antt =====
-- app/domain/state_machine.py: the lifecycle of a trade. The clock, `datetime.now(UTC)`, is an
-- argument of the call.
pub mod Transitions
pub mod Lifecycle
use sarkfxbot.Base.{ℕ, String, Bool, true, false, List, [], ◌∷◌, any, if◌then◌else◌, not, ◌==◌}
use sarkfxbot.Base.Exec.{invalid_transition, value_error, Result, ok, err}
use sarkfxbot.Base.Text.{is_blank}
use sarkfxbot.Domain.Enums.{TradeState}

-- The position of a state in its enumeration, by which two states are compared.
abbrev pub index : TradeState → ℕ
index TradeState.scanning = 0
index TradeState.signal_found = 1
index TradeState.waiting_for_entry = 2
index TradeState.entry_ready = 3
index TradeState.order_pending = 4
index TradeState.order_filled = 5
index TradeState.position_open = 6
index TradeState.tp1_hit = 7
index TradeState.break_even = 8
index TradeState.closing = 9
index TradeState.closed = 10
index TradeState.stopped_out = 11
index TradeState.expired = 12
index TradeState.cancelled = 13
index TradeState.error = 14

-- `_ALLOWED[state]`
unfoldable pub allowed : TradeState → List TradeState
allowed TradeState.scanning = TradeState.signal_found ∷ TradeState.error ∷ []
allowed TradeState.signal_found =
    TradeState.waiting_for_entry ∷ TradeState.entry_ready ∷ TradeState.cancelled ∷ TradeState.error
    ∷ []
allowed TradeState.waiting_for_entry =
    TradeState.entry_ready ∷ TradeState.expired ∷ TradeState.cancelled ∷ TradeState.error ∷ []
allowed TradeState.entry_ready =
    TradeState.order_pending ∷ TradeState.order_filled ∷ TradeState.expired ∷ TradeState.error ∷ []
allowed TradeState.order_pending =
    TradeState.order_filled ∷ TradeState.cancelled ∷ TradeState.expired ∷ TradeState.error ∷ []
allowed TradeState.order_filled = TradeState.position_open ∷ TradeState.error ∷ []
allowed TradeState.position_open =
    TradeState.tp1_hit ∷ TradeState.break_even ∷ TradeState.closing ∷ TradeState.closed
    ∷ TradeState.stopped_out ∷ TradeState.error ∷ []
allowed TradeState.tp1_hit =
    TradeState.break_even ∷ TradeState.closing ∷ TradeState.closed ∷ TradeState.stopped_out
    ∷ TradeState.error ∷ []
allowed TradeState.break_even =
    TradeState.closing ∷ TradeState.closed ∷ TradeState.stopped_out ∷ TradeState.error ∷ []
allowed TradeState.closing = TradeState.closed ∷ TradeState.error ∷ []
allowed TradeState.closed = []
allowed TradeState.stopped_out = []
allowed TradeState.expired = []
allowed TradeState.cancelled = []
allowed TradeState.error = TradeState.cancelled ∷ TradeState.closing ∷ TradeState.closed ∷ []

abbrev pub same_state : TradeState → TradeState → Bool
same_state s t = index s == index t

pub record StateTransition : Type 0 where
  pub previous : TradeState
  pub current : TradeState
  pub occurred_at : ℕ
  pub reason : String

pub record TradeStateMachine : Type 0 where
  pub state : TradeState

-- TradeStateMachine.can_transition
unfoldable pub can_transition : TradeStateMachine → TradeState → Bool
unfolding allowed
can_transition m target = any (same_state target) (allowed m.state)

-- TradeStateMachine.transition: the event or the exception, and the machine afterwards.
unfoldable pub transition :
    TradeStateMachine → TradeState → String → ℕ → Result StateTransition × TradeStateMachine
transition m target reason now =
    if is_blank reason
    then (err (value_error "a state transition reason is required"), m)
    else if not (can_transition m target)
    then (err (invalid_transition "cannot transition"), m)
    else (
      ok (record { previous = m.state; current = target; occurred_at = now; reason = reason }),
      record m { state = target },
    )
