-- ===== src/Durable/Models/Transitions.antt =====
-- What the two transition tables of src/xyberos/durable/models.py allow.
use xyberos.Prelude.{◌≡◌, ◌↔◌, ◌⊎◌, true, false, arith, refl}
use xyberos.Durable.Models.{
  ExecutionStatus, StepState, execution_is_terminal, step_is_terminal, execution_transition_allowed,
  step_transition_allowed,
}

-- An execution status is terminal exactly when the table lets nothing leave it.
pub execution_is_terminal_iff :
    (s : ExecutionStatus)
    → (execution_is_terminal s ≡ true)
      ↔ ((t : ExecutionStatus) → execution_transition_allowed s t ≡ false)
unfolding execution_is_terminal execution_transition_allowed
execution_is_terminal_iff ExecutionStatus.pending = (λ h t. cc, λ h. cc (h ExecutionStatus.running))
execution_is_terminal_iff ExecutionStatus.running = (λ h t. cc, λ h. cc (h ExecutionStatus.running))
execution_is_terminal_iff ExecutionStatus.retrying =
    (λ h t. cc, λ h. cc (h ExecutionStatus.running))
execution_is_terminal_iff ExecutionStatus.waiting = (λ h t. cc, λ h. cc (h ExecutionStatus.running))
execution_is_terminal_iff _ = (λ h t. refl, λ h. refl)

-- A step state is terminal exactly when the table lets nothing leave it.
pub step_is_terminal_iff :
    (s : StepState)
    → (step_is_terminal s ≡ true) ↔ ((t : StepState) → step_transition_allowed s t ≡ false)
unfolding step_is_terminal step_transition_allowed
step_is_terminal_iff StepState.pending = (λ h t. cc, λ h. cc (h StepState.running))
step_is_terminal_iff StepState.running = (λ h t. cc, λ h. cc (h StepState.running))
step_is_terminal_iff StepState.outcome_unknown = (λ h t. cc, λ h. cc (h StepState.pending))
step_is_terminal_iff _ = (λ h t. refl, λ h. refl)

-- The table allows the move to `completed`, and the move to `pending`, only from `running`.
pub allowed_only_from_running :
    (s t : ExecutionStatus)
    → (t ≡ ExecutionStatus.completed) ⊎ (t ≡ ExecutionStatus.pending)
    → execution_transition_allowed s t ≡ true
    → s ≡ ExecutionStatus.running
unfolding execution_transition_allowed
allowed_only_from_running s t h e = ground arith
