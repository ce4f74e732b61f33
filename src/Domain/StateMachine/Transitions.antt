-- ===== src/Domain/StateMachine/Transitions.antt =====
-- What one call of `transition` does (app/domain/state_machine.py), and which states follow which.
use sarkfxbot.Base.{ℕ, String, ◌≡◌, refl, ◌⊎◌, inl, inr, true, false, any, Bool-cases}
use sarkfxbot.Base.Exec.{ok, is_ok}
use sarkfxbot.Base.Text.{is_blank}
use sarkfxbot.Domain.Enums.{TradeState}
use sarkfxbot.Domain.StateMachine.{
  allowed, same_state, TradeStateMachine, can_transition, transition,
}

-- The table as a step relation.
infix 40 ◌⟶◌
abbrev pub ◌⟶◌ : TradeState → TradeState → Type 0
s ⟶ t = any (same_state t) (allowed s) ≡ true

-- `transition` succeeds exactly on a reason that is not blank and an edge of the table; then the
-- event records both states, the time and the reason, and the machine is in the target state. In
-- every other case the machine is left as it was.
pub transition_lem :
    (m : TradeStateMachine) (target : TradeState) (reason : String) (now : ℕ)
    → ((is_blank reason ≡ false)
        × (m.state ⟶ target)
        × (transition m target reason now ≡ (
          ok (record { previous = m.state; current = target; occurred_at = now; reason = reason }),
          record { state = target },
        )))
      ⊎ (((is_blank reason ≡ true) ⊎ ¬ (m.state ⟶ target))
          × (is_ok (transition m target reason now).0 ≡ false)
          × ((transition m target reason now).1 ≡ m))
unfolding transition can_transition
transition_lem m target reason now = elim (Bool-cases (is_blank reason)) [
  | inl blank ↦ rw blank (inr (inl refl, refl, refl))
  | inr shown ↦ elim (Bool-cases (any (same_state target) (allowed m.state))) [
    | inl edge ↦ rw (shown, edge) (inl (refl, refl, refl))
    | inr none ↦ rw (shown, none) (inr (inr (λ h. cc), refl, refl))
  ]
]
