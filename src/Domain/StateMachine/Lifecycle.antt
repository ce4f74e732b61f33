-- ===== src/Domain/StateMachine/Lifecycle.antt =====
-- Whole lifecycles of a trade (app/domain/state_machine.py): runs of `transition`, the order in
-- which states can follow one another, and where a lifecycle ends.
use sarkfxbot.Base.{
  ℕ, ◌≤◌, ◌<◌, String, ◌≡◌, refl, ◌⊎◌, inl, inr, List, [], ◌∷◌, arith, ap, sym, subst,
}
use sarkfxbot.Base.Text.{is_blank}
use sarkfxbot.Domain.Enums.{TradeState}
use sarkfxbot.Domain.StateMachine.{allowed, TradeStateMachine, can_transition, transition}
use sarkfxbot.Domain.StateMachine.Transitions.{◌⟶◌, transition_lem}

pub data Reach (s : TradeState) : TradeState → Type 0 where
  here : Reach s s
  next : {t u : TradeState} → Reach s t → t ⟶ u → Reach s u

-- One call of `transition`: its target, its reason and the time.
abbrev pub Request : Type 0
Request = TradeState × String × ℕ

-- A sequence of calls, of which the failed ones change nothing.
unfoldable pub run : TradeStateMachine → List Request → TradeStateMachine
run m [] = m
run m ((target, reason, now) ∷ rest) = run (transition m target reason now).1 rest

-- How far a state is in the lifecycle.
abbrev phase : TradeState → ℕ
phase TradeState.scanning = 0
phase TradeState.signal_found = 1
phase TradeState.waiting_for_entry = 2
phase TradeState.entry_ready = 3
phase TradeState.order_pending = 4
phase TradeState.order_filled = 5
phase TradeState.position_open = 6
phase TradeState.tp1_hit = 7
phase TradeState.break_even = 8
phase TradeState.closing = 9
phase TradeState.error = 9
phase _ = 10

-- The two states that can follow each other in both directions.
abbrev pub IsRecovering : TradeState → Type 0
IsRecovering s = (s ≡ TradeState.closing) ⊎ (s ≡ TradeState.error)

abbrev pub IsTerminal : TradeState → Type 0
IsTerminal s =
    (s ≡ TradeState.closed)
    ⊎ (s ≡ TradeState.stopped_out)
    ⊎ (s ≡ TradeState.expired)
    ⊎ (s ≡ TradeState.cancelled)

⟶-phase : (s t : TradeState) → s ⟶ t → (phase s < phase t) ⊎ (IsRecovering s × IsRecovering t)
unfolding allowed
⟶-phase TradeState.scanning t h = ground arith
⟶-phase _ t h = ground arith

recovering_phase : (s : TradeState) → IsRecovering s → phase s ≡ 9
recovering_phase s h = ground arith

Reach-phase : {s t : TradeState} → Reach s t → phase s ≤ phase t
Reach-phase here = omega arith
Reach-phase {s} (next {t} {u} r e) =
    ground (arith, Reach-phase r, ⟶-phase t u e, recovering_phase t, recovering_phase u)

phase_nine : (s : TradeState) → phase s ≡ 9 → IsRecovering s
phase_nine s h = ground arith

Reach-flat :
    {s t : TradeState} → Reach s t → phase s ≡ phase t → (s ≡ t) ⊎ (IsRecovering s × IsRecovering t)
Reach-flat here h = inl refl
Reach-flat {s} (next {t} {u} r e) h =
    ground
      (arith, Reach-phase r, ⟶-phase t u e, recovering_phase t, recovering_phase u, phase_nine s)

then_Reach : {s t u : TradeState} → s ⟶ t → Reach t u → Reach s u
then_Reach e here = next here e
then_Reach e (next r f) = next (then_Reach e r) f

-- Where one call leads.
transition_state :
    (m : TradeStateMachine) (target : TradeState) (reason : String) (now : ℕ)
    → (m.state ⟶ (transition m target reason now).1.state)
      ⊎ ((transition m target reason now).1 ≡ m)
transition_state m target reason now = elim (transition_lem m target reason now) [
  | inl (_, edge, e) ↦ inl (rw e edge)
  | inr (_, _, e) ↦ inr e
]

-- A run of `transition` follows the table.
pub run-Reach : (m : TradeStateMachine) (calls : List Request) → Reach m.state (run m calls).state
unfolding run
run-Reach m [] = here
run-Reach m ((target, reason, now) ∷ rest) =
    let after = (transition m target reason now).1 in
    let ih : Reach after.state (run after rest).state = run-Reach after rest in
    elim (transition_state m target reason now) [
      | inl edge ↦ then_Reach edge ih
      | inr e ↦ subst (λ a. Reach m.state (run a rest).state) (sym e) (run-Reach m rest)
    ]

-- A trade never comes back to a state that it has left, whatever calls are made, unless both that
-- state and the one it came from are CLOSING or ERROR.
pub run_no_return :
    (m : TradeStateMachine) (out back : List Request)
    → (run (run m out) back).state ≡ m.state
    → ((run m out).state ≡ m.state) ⊎ (IsRecovering m.state × IsRecovering (run m out).state)
run_no_return m out back e = ground (
  arith,
  Reach-phase (run-Reach m out),
  Reach-phase (run-Reach (run m out) back),
  Reach-flat (run-Reach m out),
  ap phase e,
)

terminal_rejects :
    (m : TradeStateMachine) (target : TradeState) (reason : String) (now : ℕ)
    → IsTerminal m.state
    → (transition m target reason now).1 ≡ m
unfolding allowed transition can_transition
terminal_rejects m target reason now h = ground arith

-- CLOSED, STOPPED_OUT, EXPIRED and CANCELLED are final: no sequence of calls changes the machine.
pub run_terminal :
    (m : TradeStateMachine) (calls : List Request) → IsTerminal m.state → run m calls ≡ m
unfolding run
run_terminal m [] h = refl
run_terminal m ((target, reason, now) ∷ rest) h =
    rw (terminal_rejects m target reason now h) (run_terminal m rest h)

abbrev call : TradeState → Request
call target = (target, "lifecycle ends", 0)

-- The targets that finish a trade.
abbrev way_out : TradeState → List Request
way_out TradeState.scanning = call TradeState.error ∷ call TradeState.closed ∷ []
way_out TradeState.signal_found = call TradeState.cancelled ∷ []
way_out TradeState.waiting_for_entry = call TradeState.cancelled ∷ []
way_out TradeState.entry_ready = call TradeState.expired ∷ []
way_out TradeState.order_pending = call TradeState.expired ∷ []
way_out TradeState.order_filled = call TradeState.error ∷ call TradeState.closed ∷ []
way_out TradeState.position_open = call TradeState.closed ∷ []
way_out TradeState.tp1_hit = call TradeState.closed ∷ []
way_out TradeState.break_even = call TradeState.closed ∷ []
way_out TradeState.closing = call TradeState.closed ∷ []
way_out TradeState.error = call TradeState.closed ∷ []
way_out TradeState.closed = []
way_out TradeState.stopped_out = []
way_out TradeState.expired = []
way_out TradeState.cancelled = []

way_out-IsTerminal : (s : TradeState) → IsTerminal (run (record { state = s }) (way_out s)).state
unfolding run transition can_transition allowed is_blank
way_out-IsTerminal TradeState.scanning = ground arith
way_out-IsTerminal _ = ground arith

-- From every state some sequence of calls brings the trade to a final state.
pub run_finishes : (m : TradeStateMachine) → (calls : List Request) × IsTerminal (run m calls).state
run_finishes m = (way_out m.state, way_out-IsTerminal m.state)
