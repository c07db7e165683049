-- ===== src/Durable/Worker/Reports.antt =====
-- What `run_once` of src/xyberos/durable/worker.py reports was so in the journal: the rules.
pub mod Endings
pub mod Failures
pub mod Attempts
pub mod Loop
pub mod Turns
use xyberos.Durable.Store.Landing.Failures.{Failed, fail_step-Has}
use xyberos.Prelude.{
  ℕ, zero, suc, String, ◌≡◌, Bool, true, false, Option, none, some, List, [], ◌∷◌, arith, refl, sym,
  subst, ◌⊎◌, inl, inr, if◌then◌else◌, Bool-cases, string_eq, ◌==◌,
}
use xyberos.Errors.{
  Error, durable_state, durable_conflict, durable_version, durable_payload, durable_lease,
  integrity, workflow_validation, Result, ok, err,
}
use xyberos.Table.{Table, find, upsert}
use xyberos.Execution.Models.{Step, Workflow, contains, is_empty, step_by_id}
use xyberos.Durable.Models.{
  ExecutionStatus, StepState, FailureKind, state_eq, same_status, same_status_iff, same_state,
  execution_is_terminal,
}
use xyberos.Durable.Rows.{Claim, Journal}
use xyberos.Durable.Scheduler.{Plan, PlanKind, plan_next}
use xyberos.Durable.Definitions.{require_definition}
use xyberos.Durable.Txn.{Txn}
use xyberos.Durable.Store.Writes.{Payloads}
use xyberos.Durable.Store.Steps.{
  start_step, complete_step, fail_step, skip_step, yield_execution, time_out_execution,
}
use xyberos.Durable.Store.Endings.{
  acknowledge_cancellation, fail_execution, complete_execution, mark_waiting,
}
use xyberos.Durable.Store.Claims.{claim_next}
use xyberos.Durable.Store.History.Evolution.{execution-final}
use xyberos.Durable.Store.Inspection.{
  step_states, completed_outputs, running_steps, inspected_status,
}
use xyberos.Durable.Store.Landing.{Has, Lands}
use xyberos.Durable.Store.Landing.Calls.{
  Lands-complete_execution, Lands-fail_execution, Lands-acknowledge_cancellation,
  Lands-mark_waiting, Lands-yield_execution, Lands-time_out_execution,
}
use xyberos.Durable.Work.{Work, World, Turn, pure, lift, ◌>>=◌, ◌>>◌, write, query, clock}
use xyberos.Durable.Work.Reached.{
  Reached-refl, Reached-trans, Reached, Moment, Runs, IsCall, Moment-extend, Moment-last,
}
use xyberos.Durable.Work.Rules.{
  Runs-pure, Runs-lift, Runs-bind, Runs-write, Runs-query, Runs-clock, Runs-if, Runs-weaken,
}
use xyberos.Durable.Work.Calls.{
  claim_next-IsCall, start_step-IsCall, complete_step-IsCall, yield_execution-IsCall,
  skip_step-IsCall, time_out_execution-IsCall, fail_step-IsCall, complete_execution-IsCall,
  fail_execution-IsCall, acknowledge_cancellation-IsCall, mark_waiting-IsCall,
}
use xyberos.Durable.Recovery.{Python, planned_input, resolve_all}
use xyberos.Durable.Recovery.Reports.{SomeDoubted, Has-Moment, Runs-report, resolve_all-Runs}
use xyberos.Durable.Worker.{
  Action, WorkOutcome, Retry, Attempt, Settings, outcome, id_of, step_key, attempt_budget, no_time,
  deadline_passed, retry_at, acknowledged, failed_for, timed_out_at, completed_with, as_value,
  failure_outcome, record_failure, yielded, after_plan, read_states, read_outputs, after_step,
  finish_attempt, run_attempt, attempt_within, run_step, act, advance, rounds_for, first_of,
  take_over, move_on, in_time, with_definition, work_on, work_on_claimed, run_once,
}

-- The status that an action stands for
abbrev pub reported : Action → ExecutionStatus
reported Action.cancelled = ExecutionStatus.cancelled
reported Action.failed = ExecutionStatus.failed
reported Action.timed_out = ExecutionStatus.timed_out
reported Action.parked = ExecutionStatus.waiting
reported Action.completed = ExecutionStatus.completed
reported Action.retry_scheduled = ExecutionStatus.retrying
reported Action.ran_step = ExecutionStatus.pending

module _ {V : Type 0} (payloads : Payloads V) (blank : String → Bool) (lease_ttl : ℕ) where
  -- At some moment of the run the execution had the status that the outcome stands for.
  abbrev pub Reports : WorkOutcome → Journal → Journal → Type 0
  Reports o j k = Moment payloads blank lease_ttl o.execution_id (reported o.action) j k

  -- Where there was nothing to claim, there is nothing to report.
  abbrev pub ReportsAny : Option WorkOutcome → Journal → Journal → Type 0
  ReportsAny none j k = Unit {0}
  ReportsAny (some o) j k = Reports o j k

  abbrev pub Reporting : Work WorkOutcome → Type 0
  Reporting m = Runs payloads blank lease_ttl Reports m

module _ {V : Type 0} {payloads : Payloads V} {blank : String → Bool} {lease_ttl : ℕ} where
  -- What happens first leaves the rest to report.
  pub after :
      {A : Type 0} (m : Work A) (f : A → Work WorkOutcome)
      → Runs payloads blank lease_ttl (λ a j k. Unit {0}) m
      → ((a : A) → Reporting payloads blank lease_ttl (f a))
      → Reporting payloads blank lease_ttl (m >>= f)
  after m f hm hf =
      Runs-bind (λ a o k l. Reports payloads blank lease_ttl o k l) m f hm hf
        (λ a o j k l before u onwards r. Moment-extend j k l before r)

  pub writes :
      (schedule : ℕ → Turn V) {A : Type 0} (op : ℕ → ℕ → Txn A)
      → IsCall payloads blank lease_ttl op
      → Runs payloads blank lease_ttl
          (λ a j k. Unit {0})
          (write payloads blank lease_ttl schedule op)
  writes schedule op one =
      Runs-write schedule {P = λ a j k. Unit {0}} op one (λ now later i j a k e r. tt)

  pub reads :
      (schedule : ℕ → Turn V) {A : Type 0} (f : ℕ → Journal → Result A)
      → Runs payloads blank lease_ttl
          (λ a j k. Unit {0})
          (query payloads blank lease_ttl schedule f)
  reads schedule f = Runs-query schedule {P = λ a j k. Unit {0}} f (λ now i j a r e. tt)

  pub lifts :
      {A : Type 0} (r : Result A) → Runs payloads blank lease_ttl (λ a j k. Unit {0}) (lift r)
  lifts r = Runs-lift r (λ a j e. tt)

  pub raises : (e : Error) → Reporting payloads blank lease_ttl (lift (err e))
  raises e = Runs-lift (err e) (λ a j h. cc)

  pub either :
      (b : Bool) (m n : Work WorkOutcome)
      → Reporting payloads blank lease_ttl m
      → Reporting payloads blank lease_ttl n
      → Reporting payloads blank lease_ttl (if b then m else n)
  either true m n hm hn = hm
  either false m n hm hn = hn

  pub ends :
      (schedule : ℕ → Turn V) {A : Type 0} (o : WorkOutcome) (op : ℕ → ℕ → Txn A)
      → IsCall payloads blank lease_ttl op
      → ((now later : ℕ) → Lands o.execution_id (reported o.action) (op now later))
      → Reporting payloads blank lease_ttl (write payloads blank lease_ttl schedule op >> pure o)
  ends schedule o op one lands =
      Runs-report schedule o.execution_id (reported o.action) op o one lands (λ j k m. m)
