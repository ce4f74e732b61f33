-- ===== src/Tests/Lifecycles.antt =====
-- Tests of app/domain/state_machine.py and app/execution/idempotency.py.
use sarkfxbot.Base.{◌≤◌, ◌≡◌, ◌⊎◌, inl, refl, true, false, some, none, List, [], ◌∷◌}
use sarkfxbot.Base.Dict.{lookup}
use sarkfxbot.Base.Exec.{ok, is_ok}
use sarkfxbot.Base.Text.{is_blank}
use sarkfxbot.Domain.Enums.{TradeState}
use sarkfxbot.Domain.StateMachine.{allowed, TradeStateMachine, can_transition, transition}
use sarkfxbot.Domain.StateMachine.Transitions.{◌⟶◌, transition_lem}
use sarkfxbot.Domain.StateMachine.Lifecycle
use sarkfxbot.Domain.StateMachine.Lifecycle.{
  Request, IsRecovering, IsTerminal, run_no_return, run_terminal, run_finishes,
}
use sarkfxbot.Execution.Idempotency.{
  submitted, succeeded, ExecutionRecord, Change, new_record, RecordStore,
}
use sarkfxbot.Execution.Idempotency.History
use sarkfxbot.Execution.Idempotency.History.{
  StoreCall, claims, updates, wins, Descends, wins-le-one, run-Descends, run_final,
}
use sarkfxbot.Tests.Fixtures.{now, request}

abbrev opened : TradeStateMachine
opened = record { state = TradeState.position_open }

transition_lem_example :
    ((is_blank "filled" ≡ false)
      × (opened.state ⟶ TradeState.closing)
      × (transition opened TradeState.closing "filled" 5 ≡ (
        ok (record {
          previous = opened.state;
          current = TradeState.closing;
          occurred_at = 5;
          reason = "filled";
        }),
        record { state = TradeState.closing },
      )))
    ⊎ (((is_blank "filled" ≡ true) ⊎ ¬ (opened.state ⟶ TradeState.closing))
        × (is_ok (transition opened TradeState.closing "filled" 5).0 ≡ false)
        × ((transition opened TradeState.closing "filled" 5).1 ≡ opened))
transition_lem_example = transition_lem opened TradeState.closing "filled" 5

abbrev failing : List Request
failing = (TradeState.error, "lost", 1) ∷ []

abbrev returning : List Request
returning = (TradeState.closing, "found", 2) ∷ []

abbrev at_closing : TradeStateMachine
at_closing = record { state = TradeState.closing }

run_no_return_example :
    ((Lifecycle.run at_closing failing).state ≡ at_closing.state)
    ⊎ (IsRecovering at_closing.state × IsRecovering (Lifecycle.run at_closing failing).state)
unfolding Lifecycle.run transition can_transition allowed is_blank
run_no_return_example = run_no_return at_closing failing returning refl

run_terminal_example :
    Lifecycle.run (record { state = TradeState.closed }) failing
    ≡ record { state = TradeState.closed }
run_terminal_example = run_terminal (record { state = TradeState.closed }) failing (inl refl)

run_finishes_example :
    (calls : List Request) × IsTerminal
      (Lifecycle.run (record { state = TradeState.error }) calls).state
run_finishes_example = run_finishes (record { state = TradeState.error })

abbrev change : Change
change = record { status = submitted; now = now; report = none; reason = "order_send started" }

abbrev history : List StoreCall
history = claims request now ∷ updates "7:s" change ∷ claims request now ∷ []

wins-le-one_example : wins "7:s" history [] ≤ 1
wins-le-one_example = wins-le-one history [] "7:s"

abbrev stored : RecordStore
stored = ("7:s", new_record request now) ∷ []

run-Descends_example :
    (r : ExecutionRecord) × (lookup "7:s" (History.run history stored) ≡ some r)
    × Descends (new_record request now) r
unfolding lookup
run-Descends_example = run-Descends history stored "7:s" (new_record request now) refl

abbrev finished : ExecutionRecord
finished = record (new_record request now) { status = succeeded }

run_final_example : lookup "7:s" (History.run history (("7:s", finished) ∷ [])) ≡ some finished
unfolding lookup
run_final_example = run_final history (("7:s", finished) ∷ []) "7:s" finished refl (inl refl)
