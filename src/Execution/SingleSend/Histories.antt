-- ===== src/Execution/SingleSend/Histories.antt =====
-- Histories of the `TradeExecutor` of app/execution/executor.py: any sequence of its public
-- methods, by any number of executors that share the records.
use sarkfxbot.Base.{◌≤◌, String, Option, none, some, List, [], ◌∷◌, arith}
use sarkfxbot.Base.Dict.{lookup}
use sarkfxbot.Base.Exec.{Result, ok, err}
use sarkfxbot.Execution.Models.{ExecutionCommand}
use sarkfxbot.Execution.Idempotency.{ExecutionRecord}
use sarkfxbot.Execution.World.{World, Executor, on_broker}
use sarkfxbot.Base.Ensures.{Post}
use sarkfxbot.Execution.Executor.{execute}
use sarkfxbot.Execution.Recovery.{reconcile_unknown, cancel_pending_entries}
use sarkfxbot.Execution.SingleSend.{sends_key, sends, room_of, IsSingle}
use sarkfxbot.Execution.SingleSend.Steps.{IsKind-sends, on_broker-Keeps, room_in-le-one}
use sarkfxbot.Execution.SingleSend.Submitting.{IsSingle-Reads}
use sarkfxbot.Execution.SingleSend.Deciding.{execute-Keeps}
use sarkfxbot.Execution.SingleSend.Recovering.{reconcile_unknown-Keeps, cancel_pending-Avoids}

-- A call of a public method.
pub data ServiceCall : Type 0 where
  executes : ExecutionCommand → ServiceCall
  reconciles : String → ServiceCall
  cancels : ServiceCall

-- The state that a call leaves, also when it raises.
abbrev pub apply : Executor → ServiceCall → World → World
apply x (executes c) w = (execute x c w).1
apply x (reconciles key) w = (reconcile_unknown x key w).1
apply x cancels w = (on_broker (cancel_pending_entries x.adapter) w).1

abbrev pub run : List (Executor × ServiceCall) → World → World
run [] w = w
run ((x, c) ∷ cs) w = run cs (apply x c w)

kept_state :
    {A : Type 0} (j : String) (r : Result A × World)
    → Post (IsSingle j) (λ _. IsSingle j) r
    → IsSingle j r.1
kept_state j (ok a, w) h = h
kept_state j (err e, w) h = h

apply-IsSingle :
    (j : String) (x : Executor) (c : ServiceCall) (w : World)
    → IsSingle j w
    → IsSingle j (apply x c w)
apply-IsSingle j x (executes c) w h = kept_state j (execute x c w) ((execute-Keeps j x c).post w h)
apply-IsSingle j x (reconciles key) w h =
    kept_state j (reconcile_unknown x key w) ((reconcile_unknown-Keeps j x key).post w h)
apply-IsSingle j x cancels w h = kept_state j (on_broker (cancel_pending_entries x.adapter) w) (
    (on_broker-Keeps j (IsSingle j) _ (IsSingle-Reads j)
        (cancel_pending-Avoids (sends_key j) x.adapter (IsKind-sends j))).post
      w h)

room-le-one : (o : Option ExecutionRecord) → room_of o ≤ 1
room-le-one none = omega arith
room-le-one (some r) = room_in-le-one r.status

-- In every history of executions, reconciliations and cancellations, with any answers and errors of
-- the broker, a key for which the records allowed every submission so far is submitted at most once
-- in all, and the records go on to allow it.
pub run-IsSingle :
    (cs : List (Executor × ServiceCall)) (w : World) (key : String)
    → IsSingle key w
    → IsSingle key (run cs w) × (sends key (run cs w).calls ≤ 1)
run-IsSingle [] w key h = (h, omega (arith, h, room-le-one (lookup key w.records)))
run-IsSingle ((x, c) ∷ cs) w key h = run-IsSingle cs (apply x c w) key (apply-IsSingle key x c w h)
