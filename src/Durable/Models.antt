-- ===== src/Durable/Models.antt =====
-- src/xyberos/durable/models.py: statuses, the two transition tables, and what a reconciler and an
-- activity policy may say.
pub mod Transitions
use xyberos.Prelude.{
  ℕ, String, ◌≡◌, ◌↔◌, Bool, true, false, not, ◌&&◌, Option, none, some, List, [], ◌∷◌, arith, Eq,
  ◌==◌, ◌||◌, nat_beq, is_some, if◌then◌else◌,
}
use xyberos.Execution.Models.{contains}
use xyberos.Errors.{Result, ok, err, durable_state}

pub data ExecutionStatus : Type 0 where
  pending running retrying waiting completed failed cancelled timed_out : ExecutionStatus

pub data StepState : Type 0 where
  pending running succeeded skipped failed outcome_unknown : StepState

pub data FailureKind : Type 0 where
  step_failed incompatible_definition definition_conflict outcome_unknown : FailureKind
  timed_out cancelled internal : FailureKind

pub data EventKind : Type 0 where
  submitted claimed lease_renewed recovered step_started step_succeeded step_skipped : EventKind
  step_failed step_outcome_unknown retry_scheduled yielded cancellation_requested : EventKind
  waiting completed failed cancelled timed_out : EventKind

-- The enums' members are told apart by their place in the declaration.
abbrev pub status_index : ExecutionStatus → ℕ
status_index ExecutionStatus.pending = 0
status_index ExecutionStatus.running = 1
status_index ExecutionStatus.retrying = 2
status_index ExecutionStatus.waiting = 3
status_index ExecutionStatus.completed = 4
status_index ExecutionStatus.failed = 5
status_index ExecutionStatus.cancelled = 6
status_index ExecutionStatus.timed_out = 7

abbrev pub state_index : StepState → ℕ
state_index StepState.pending = 0
state_index StepState.running = 1
state_index StepState.succeeded = 2
state_index StepState.skipped = 3
state_index StepState.failed = 4
state_index StepState.outcome_unknown = 5

abbrev pub same_status : ExecutionStatus → ExecutionStatus → Bool
same_status a b = nat_beq (status_index a) (status_index b)

abbrev pub same_state : StepState → StepState → Bool
same_state a b = nat_beq (state_index a) (state_index b)

pub same_status_iff : (a b : ExecutionStatus) → (same_status a b ≡ true) ↔ (a ≡ b)
same_status_iff a b = ground arith

pub same_state_iff : (a b : StepState) → (same_state a b ≡ true) ↔ (a ≡ b)
same_state_iff a b = ground arith

instance abbrev pub status_eq : Eq ExecutionStatus
status_eq = record { beq = same_status; beq_iff = same_status_iff }

instance abbrev pub state_eq : Eq StepState
state_eq = record { beq = same_state; beq_iff = same_state_iff }

abbrev terminal_execution_states : List ExecutionStatus
terminal_execution_states =
    ExecutionStatus.completed ∷ ExecutionStatus.failed ∷ ExecutionStatus.cancelled
    ∷ ExecutionStatus.timed_out ∷ []

abbrev terminal_step_states : List StepState
terminal_step_states = StepState.succeeded ∷ StepState.skipped ∷ StepState.failed ∷ []

abbrev execution_transitions : ExecutionStatus → List ExecutionStatus
execution_transitions ExecutionStatus.pending =
    ExecutionStatus.running ∷ ExecutionStatus.cancelled ∷ ExecutionStatus.timed_out
    ∷ ExecutionStatus.failed ∷ []
execution_transitions ExecutionStatus.running =
    ExecutionStatus.running ∷ ExecutionStatus.pending ∷ ExecutionStatus.retrying
    ∷ ExecutionStatus.waiting ∷ ExecutionStatus.completed ∷ ExecutionStatus.failed
    ∷ ExecutionStatus.cancelled ∷ ExecutionStatus.timed_out ∷ []
execution_transitions ExecutionStatus.retrying =
    ExecutionStatus.running ∷ ExecutionStatus.waiting ∷ ExecutionStatus.failed
    ∷ ExecutionStatus.cancelled ∷ ExecutionStatus.timed_out ∷ []
execution_transitions ExecutionStatus.waiting =
    ExecutionStatus.running ∷ ExecutionStatus.failed ∷ ExecutionStatus.cancelled
    ∷ ExecutionStatus.timed_out ∷ []
execution_transitions ExecutionStatus.completed = []
execution_transitions ExecutionStatus.failed = []
execution_transitions ExecutionStatus.cancelled = []
execution_transitions ExecutionStatus.timed_out = []

abbrev step_transitions : StepState → List StepState
step_transitions StepState.pending =
    StepState.running ∷ StepState.skipped ∷ StepState.failed ∷ StepState.outcome_unknown ∷ []
step_transitions StepState.running =
    StepState.running ∷ StepState.pending ∷ StepState.succeeded ∷ StepState.failed
    ∷ StepState.outcome_unknown ∷ []
step_transitions StepState.outcome_unknown =
    StepState.pending ∷ StepState.succeeded ∷ StepState.failed ∷ []
step_transitions StepState.succeeded = []
step_transitions StepState.skipped = []
step_transitions StepState.failed = []

unfoldable pub execution_is_terminal : ExecutionStatus → Bool
execution_is_terminal status = contains status terminal_execution_states

unfoldable pub step_is_terminal : StepState → Bool
step_is_terminal state = contains state terminal_step_states

unfoldable pub execution_transition_allowed : ExecutionStatus → ExecutionStatus → Bool
execution_transition_allowed current target = contains target (execution_transitions current)

unfoldable pub step_transition_allowed : StepState → StepState → Bool
step_transition_allowed current target = contains target (step_transitions current)

unfoldable pub require_execution_transition : ExecutionStatus → ExecutionStatus → Result (Unit {0})
unfolding execution_transition_allowed
require_execution_transition current target =
    if not (execution_transition_allowed current target) then err durable_state else ok tt

unfoldable pub require_step_transition : StepState → StepState → Result (Unit {0})
unfolding step_transition_allowed
require_step_transition current target =
    if not (step_transition_allowed current target) then err durable_state else ok tt

-- `Reconciliation`: the states that its `__post_init__` admits, over the outputs `V`.
pub record Reconciliation (V : Type 0) : Type 0 where
  pub state : StepState
  pub output : V
  pub detail : Option String

abbrev decidable_states : List StepState
decidable_states =
    StepState.succeeded ∷ StepState.pending ∷ StepState.failed ∷ StepState.outcome_unknown ∷ []

unfoldable pub new_reconciliation :
    {V : Type 0} → StepState → V → Option String → Result (Reconciliation V)
new_reconciliation state output detail =
    if not (contains state decidable_states)
    then err durable_state
    else ok (record { state = state; output = output; detail = detail })

-- `reconcile(step_id, step_input)`
pub record ActivityPolicy (V : Type 0) : Type 0 where
  pub idempotent : Bool
  pub reconcile : Option (String → V → Reconciliation V)

unfoldable pub new_activity_policy :
    {V : Type 0} → Bool → Option (String → V → Reconciliation V) → Result (ActivityPolicy V)
new_activity_policy idempotent reconcile =
    if idempotent && is_some reconcile
    then err durable_state
    else ok (record { idempotent = idempotent; reconcile = reconcile })
