-- ===== src/Durable/Worker.antt =====
-- src/xyberos/durable/worker.py: `DurableWorker.run_once` claims an execution, advances it by one
-- step and lets go of it. The step functions are a parameter: an attempt ends in one of the ways
-- that `_run_step` tells apart. The heartbeat `_watch` only calls `renew_lease` beside the attempt:
-- its calls are among those of others. The texts of reasons and messages are left empty or short.
pub mod Reports
pub mod Bound
pub mod Runs
use Prim.Native.String.{◌++◌}
use xyberos.Prelude.{
  ℕ, zero, suc, ◌+◌, ◌-◌, String, Bool, true, false, not, ◌||◌, ◌&&◌, Option, none, some, List, [],
  ◌∷◌, if◌then◌else◌, leb, nat_beq, ◌==◌, string_eq, is_none, length,
}
use xyberos.Errors.{Result, ok, err, durable_state, durable_version, Error}
use xyberos.Table.{Table, find, upsert}
use xyberos.Execution.Models.{contains, Step, Workflow, is_empty, step_by_id}
use xyberos.Durable.Models.{
  ExecutionStatus, StepState, FailureKind, same_status, same_state, state_eq, ActivityPolicy,
}
use xyberos.Durable.Rows.{Claim}
use xyberos.Durable.Definitions.{DefinitionLookup, require_definition}
use xyberos.Durable.Scheduler.{Plan, PlanKind, plan_next}
use xyberos.Durable.Store.Writes.{Payloads}
use xyberos.Durable.Store.Steps.{
  start_step, complete_step, fail_step, skip_step, yield_execution, time_out_execution,
}
use xyberos.Durable.Store.Endings.{
  acknowledge_cancellation, fail_execution, complete_execution, mark_waiting,
}
use xyberos.Durable.Store.Claims.{claim_next}
use xyberos.Durable.Store.Inspection.{
  running_steps, step_states, completed_outputs, inspected_status,
}
use xyberos.Durable.Work.{Work, Turn, World, pure, lift, ◌>>=◌, ◌>>◌, write, query, clock}
use xyberos.Durable.Recovery.{Python, planned_input, resolve_all}

pub data Action : Type 0 where
  cancelled failed timed_out parked completed retry_scheduled ran_step : Action

-- `WorkOutcome`, without the text of its detail
pub record WorkOutcome : Type 0 where
  pub execution_id : String
  pub action : Action
  pub step_id : Option String
  pub attempt : Option ℕ

-- `Retry` of src/xyberos/execution/policies.py: `allows` by the error's type name, and the delay
-- after an attempt, in microseconds
pub record Retry : Type 0 where
  pub max_attempts : ℕ
  pub allows : String → Bool
  pub delay_for : ℕ → ℕ

-- How `await asyncio.wait_for(step.run(value, context), timeout=budget)` ends
pub data Attempt (V : Type 0) : Type 0 where
  returned : V → Attempt V
  timed_out : Attempt V
  stopped : String → Attempt V
  deadline_hit : Attempt V
  raised : String → String → Attempt V

-- What a worker is made with. `run` is told when it is called, since it may answer differently.
pub record Settings (V : Type 0) : Type 0 where
  pub owner : String
  pub lease_ttl : Option ℕ
  pub lookup : DefinitionLookup V
  pub activities : String → Option (ActivityPolicy V)
  pub retry : String → Option Retry
  pub run : ℕ → String → ℕ → V → Option ℕ → Attempt V

abbrev pub outcome : Claim → Action → Option String → Option ℕ → WorkOutcome
outcome claim action step_id attempt = record {
  execution_id = claim.execution_id;
  action = action;
  step_id = step_id;
  attempt = attempt;
}

-- `f"{claim.execution_id}:{step.id}"`
abbrev pub step_key : Claim → Step → String
step_key claim step = claim.execution_id ++ ":" ++ step.id

abbrev pub id_of : Option Step → Option String
id_of none = none
id_of (some step) = some step.id

-- `_attempt_budget`: what is left until the deadline is 0 once it has passed.
unfoldable pub attempt_budget : Option ℕ → Option ℕ → ℕ → Option ℕ
attempt_budget none timeout now = timeout
attempt_budget (some deadline) none now = some (deadline - now)
attempt_budget (some deadline) (some timeout) now =
    some (if leb timeout (deadline - now) then timeout else deadline - now)

-- `budget is not None and budget <= 0`
abbrev pub no_time : Option ℕ → Bool
no_time none = false
no_time (some budget) = nat_beq budget 0

-- `_deadline_passed`
abbrev pub deadline_passed : Option ℕ → ℕ → Bool
deadline_passed none now = false
deadline_passed (some deadline) now = leb deadline now

-- `_retry_at`
unfoldable pub retry_at : Option Retry → ℕ → String → ℕ → Option ℕ
retry_at none attempt error_type now = none
retry_at (some policy) attempt error_type now =
    if leb policy.max_attempts attempt || not (policy.allows error_type)
    then none
    else some (now + policy.delay_for attempt)

module _ {V : Type 0} (payloads : Payloads V) (blank : String → Bool) (lease_ttl : ℕ)
    (schedule : ℕ → Turn V) (python : Python V) (settings : Settings V) where
  abbrev pub acknowledged : Claim → Option String → Option String → Option ℕ → Work WorkOutcome
  acknowledged claim reason step_id attempt = do
    write payloads blank lease_ttl schedule (λ now later. acknowledge_cancellation claim reason now)
    pure (outcome claim Action.cancelled step_id attempt)

  abbrev pub failed_for : Claim → FailureKind → Option String → Option ℕ → Work WorkOutcome
  failed_for claim kind step_id attempt = do
    write payloads blank lease_ttl schedule (λ now later. fail_execution claim kind now)
    pure (outcome claim Action.failed step_id attempt)

  abbrev pub timed_out_at : Claim → Option String → Option ℕ → Work WorkOutcome
  timed_out_at claim step_id attempt = do
    write payloads blank lease_ttl schedule (λ now later. time_out_execution claim now)
    pure (outcome claim Action.timed_out step_id attempt)

  -- `plan.outputs`, which may be `None`, as a value
  abbrev pub as_value : Option (Table String V) → V
  as_value none = python.null
  as_value (some results) = python.mapping results

  abbrev pub completed_with :
      Claim → Option (Table String V) → Option String → Option ℕ → Work WorkOutcome
  completed_with claim outputs step_id attempt = do
    write payloads blank lease_ttl schedule
        (λ now later. complete_execution payloads claim (as_value outputs) now)
    pure (outcome claim Action.completed step_id attempt)

  -- The end of `_record_failure`
  abbrev pub failure_outcome : Claim → String → ℕ → StepState → ExecutionStatus → WorkOutcome
  failure_outcome claim step_id attempt state status =
      if same_status status ExecutionStatus.timed_out
      then outcome claim Action.timed_out (some step_id) (some attempt)
      else if same_state state StepState.pending
      then outcome claim Action.retry_scheduled (some step_id) (some attempt)
      else outcome claim Action.failed (some step_id) (some attempt)

  unfoldable pub record_failure :
      Claim → String → ℕ → String → String → Option ℕ → String → Work WorkOutcome
  record_failure claim step_id attempt error_type message retry_time detail = do
    state ←
        write payloads blank lease_ttl schedule (λ now later.
          fail_step claim step_id error_type message retry_time (some detail) now later)
    status ←
        query payloads blank lease_ttl schedule (λ now j. inspected_status claim.execution_id j)
    pure (failure_outcome claim step_id attempt state status)

  abbrev pub yielded : Claim → String → ℕ → Work WorkOutcome
  yielded claim step_id attempt = do
    write payloads blank lease_ttl schedule (λ now later. yield_execution claim now)
    pure (outcome claim Action.ran_step (some step_id) (some attempt))

  abbrev pub after_plan : Claim → String → ℕ → Plan V → PlanKind → Work WorkOutcome
  after_plan claim step_id attempt plan PlanKind.complete =
      completed_with claim plan.outputs (some step_id) (some attempt)
  after_plan claim step_id attempt plan PlanKind.conflict =
      failed_for claim FailureKind.definition_conflict (some step_id) (some attempt)
  after_plan claim step_id attempt plan PlanKind.run_step = yielded claim step_id attempt
  after_plan claim step_id attempt plan PlanKind.skip_step = yielded claim step_id attempt
  after_plan claim step_id attempt plan PlanKind.needs_decision = yielded claim step_id attempt

  abbrev pub read_states : Claim → Work (Table String StepState)
  read_states claim =
      query payloads blank lease_ttl schedule (λ now j. ok (step_states claim.execution_id j))

  abbrev pub read_outputs : Claim → Work (Table String V)
  read_outputs claim =
      query payloads blank lease_ttl schedule
        (λ now j. ok (completed_outputs python.null python.loads claim.execution_id j))

  unfoldable pub after_step : Claim → Workflow V → String → ℕ → Work WorkOutcome
  after_step claim workflow step_id attempt = do
    states ← read_states claim
    outputs ← read_outputs claim
    plan ← lift (plan_next python.sorted workflow states outputs)
    after_plan claim step_id attempt plan plan.kind

  -- The `except` clauses of `_run_step`, and its end
  unfoldable pub finish_attempt : Claim → Workflow V → Step → ℕ → Attempt V → Work WorkOutcome
  unfolding record_failure after_step
  finish_attempt claim workflow step attempt (Attempt.returned output) = do
    write payloads blank lease_ttl schedule
        (λ now later. complete_step payloads claim step.id output now)
    after_step claim workflow step.id attempt
  finish_attempt claim workflow step attempt Attempt.timed_out =
      record_failure claim step.id attempt "StepTimeoutError" "" none "step timeout"
  finish_attempt claim workflow step attempt (Attempt.stopped reason) =
      acknowledged claim (some reason) (some step.id) (some attempt)
  finish_attempt claim workflow step attempt Attempt.deadline_hit =
      timed_out_at claim (some step.id) (some attempt)
  finish_attempt claim workflow step attempt (Attempt.raised error_type message) = do
    now ← clock payloads blank lease_ttl schedule
    record_failure claim step.id attempt error_type message
        (retry_at (settings.retry step.id) attempt error_type now) error_type

  -- The call of the step's function; it reads the clock and writes nothing.
  abbrev pub run_attempt : Step → ℕ → V → Option ℕ → Work (Attempt V)
  run_attempt step attempt value budget w =
      (ok (settings.run w.turn step.id attempt value budget), w)

  abbrev pub attempt_within : Claim → Workflow V → Step → V → ℕ → Option ℕ → Work WorkOutcome
  attempt_within claim workflow step value attempt budget =
      if no_time budget then timed_out_at claim (some step.id) (some attempt) else (do
        ended ← run_attempt step attempt value budget
        finish_attempt claim workflow step attempt ended)

  -- `_run_step`
  unfoldable pub run_step : Claim → Workflow V → String → V → Work WorkOutcome
  unfolding finish_attempt record_failure after_step
  run_step claim workflow step_id value = do
    step ← lift (step_by_id workflow step_id)
    attempt ←
        write payloads blank lease_ttl schedule
          (λ now later. start_step claim step.id (some (step_key claim step)) now)
    now ← clock payloads blank lease_ttl schedule
    attempt_within claim workflow step value attempt
        (attempt_budget claim.deadline_at step.timeout now)

  -- What is done about one plan; `again` is the next round of the loop, with the new states.
  abbrev pub act :
      Claim
      → Workflow V
      → Table String StepState
      → (Table String StepState → Work WorkOutcome)
      → Plan V
      → PlanKind
      → Option Step
      → Work WorkOutcome
  act claim workflow states again plan PlanKind.complete step =
      completed_with claim plan.outputs none none
  act claim workflow states again plan PlanKind.conflict step =
      failed_for claim FailureKind.definition_conflict (id_of step) none
  act claim workflow states again plan PlanKind.needs_decision step = do
    write payloads blank lease_ttl schedule (λ now later. mark_waiting claim now)
    pure (outcome claim Action.parked (id_of step) none)
  act claim workflow states again plan PlanKind.skip_step none = lift (err durable_state)
  act claim workflow states again plan PlanKind.skip_step (some step) = do
    write payloads blank lease_ttl schedule (λ now later. skip_step claim step.id "" now)
    again (upsert step.id StepState.skipped states)
  act claim workflow states again plan PlanKind.run_step none = lift (err durable_state)
  act claim workflow states again plan PlanKind.run_step (some step) =
      run_step claim workflow step.id
        (planned_input payloads blank lease_ttl schedule python claim plan)

  -- The loop of `run_once`, of so many rounds
  unfoldable pub advance :
      ℕ → Claim → Workflow V → Table String StepState → Table String V → Work WorkOutcome
  unfolding run_step finish_attempt record_failure after_step
  advance zero claim workflow states outputs = lift (err durable_state)
  advance (suc rounds) claim workflow states outputs = do
    plan ← lift (plan_next python.sorted workflow states outputs)
    act claim workflow states (λ later_states. advance rounds claim workflow later_states outputs)
        plan plan.kind plan.step

  abbrev pub rounds_for : Workflow V → ℕ
  rounds_for workflow = length workflow.steps + 1

  abbrev pub first_of : List String → Option String
  first_of [] = none
  first_of (step_id ∷ rest) = some step_id

  -- The part of `run_once` for interrupted steps
  unfoldable pub take_over :
      Claim → Workflow V → Table String StepState → Table String V → List String → Work WorkOutcome
  unfolding advance
  take_over claim workflow states outputs interrupted = do
    plan ← lift (plan_next python.sorted workflow states outputs)
    outcomes ←
        resolve_all payloads blank lease_ttl schedule python settings.activities claim plan
          interrupted
    if contains StepState.outcome_unknown outcomes
        then pure (outcome claim Action.parked (first_of interrupted) none)
        else (do
          resolved ← read_states claim
          advance (rounds_for workflow) claim workflow resolved outputs)

  unfoldable pub move_on : Claim → Workflow V → Work WorkOutcome
  unfolding take_over advance
  move_on claim workflow = do
    states ← read_states claim
    outputs ← read_outputs claim
    interrupted ←
        query payloads blank lease_ttl schedule (λ now j. ok (running_steps claim.execution_id j))
    if is_empty interrupted
        then advance (rounds_for workflow) claim workflow states outputs
        else take_over claim workflow states outputs interrupted

  abbrev pub in_time : Claim → Workflow V → Work WorkOutcome
  in_time claim workflow = do
    now ← clock payloads blank lease_ttl schedule
    if deadline_passed claim.deadline_at now
        then timed_out_at claim none none
        else move_on claim workflow

  -- `except DurableVersionError` around `require_definition`
  abbrev pub with_definition : Claim → Result (Workflow V) → Work WorkOutcome
  with_definition claim (ok workflow) = in_time claim workflow
  with_definition claim (err durable_version) =
      failed_for claim FailureKind.incompatible_definition none none
  with_definition claim (err e) = lift (err e)

  unfoldable pub work_on : Claim → Work WorkOutcome
  unfolding move_on
  work_on claim =
      if claim.cancellation_requested
      then acknowledged claim (some "cancellation was requested") none none
      else with_definition claim
          (require_definition python.sorted python.digest settings.lookup claim)

  abbrev pub work_on_claimed : Option Claim → Work (Option WorkOutcome)
  work_on_claimed none = pure none
  work_on_claimed (some claim) = do done ← work_on claim; pure (some done)

  unfoldable pub run_once : Work (Option WorkOutcome)
  unfolding work_on
  run_once = do
    claimed ←
        write payloads blank lease_ttl schedule
          (λ now later. claim_next blank lease_ttl settings.owner settings.lease_ttl now)
    work_on_claimed claimed
