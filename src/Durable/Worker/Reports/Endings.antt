-- ===== src/Durable/Worker/Reports/Endings.antt =====
-- What `run_once` of src/xyberos/durable/worker.py reports was so: the ends of an execution.
use xyberos.Prelude.{ℕ, String, Bool, Option, some, string_eq}
use xyberos.Errors.{ok}
use xyberos.Table.{Table}
use xyberos.Execution.Models.{Workflow}
use xyberos.Durable.Models.{FailureKind, state_eq}
use xyberos.Durable.Rows.{Claim}
use xyberos.Durable.Scheduler.{Plan, PlanKind, plan_next}
use xyberos.Durable.Store.Writes.{Payloads}
use xyberos.Durable.Store.Steps.{yield_execution, time_out_execution}
use xyberos.Durable.Store.Endings.{acknowledge_cancellation, fail_execution, complete_execution}
use xyberos.Durable.Store.Inspection.{step_states, completed_outputs}
use xyberos.Durable.Store.Landing.Calls.{
  Lands-complete_execution, Lands-fail_execution, Lands-acknowledge_cancellation,
  Lands-yield_execution, Lands-time_out_execution,
}
use xyberos.Durable.Work.{Turn, lift}
use xyberos.Durable.Work.Calls.{
  yield_execution-IsCall, time_out_execution-IsCall, complete_execution-IsCall,
  fail_execution-IsCall, acknowledge_cancellation-IsCall,
}
use xyberos.Durable.Recovery.{Python}
use xyberos.Durable.Worker.{
  Action, Settings, outcome, acknowledged, failed_for, timed_out_at, completed_with, as_value,
  yielded, after_plan, read_states, read_outputs, after_step,
}
use xyberos.Durable.Worker.Reports.{Reporting, after, reads, lifts, ends}

module _ {V : Type 0} (payloads : Payloads V) (blank : String → Bool) (lease_ttl : ℕ)
    (schedule : ℕ → Turn V) (python : Python V) (settings : Settings V) where
  module _ (claim : Claim) where
    pub acknowledged-Reports :
        (reason step_id : Option String) (attempt : Option ℕ)
        → Reporting payloads blank lease_ttl (
            acknowledged payloads blank lease_ttl schedule python settings claim reason step_id
              attempt)
    acknowledged-Reports reason step_id attempt =
        ends schedule (outcome claim Action.cancelled step_id attempt)
          (λ now later. acknowledge_cancellation claim reason now)
          (acknowledge_cancellation-IsCall claim reason)
          (λ now later. Lands-acknowledge_cancellation claim reason now)

    pub failed_for-Reports :
        (kind : FailureKind) (step_id : Option String) (attempt : Option ℕ)
        → Reporting payloads blank lease_ttl (
            failed_for payloads blank lease_ttl schedule python settings claim kind step_id attempt)
    failed_for-Reports kind step_id attempt =
        ends schedule (outcome claim Action.failed step_id attempt)
          (λ now later. fail_execution claim kind now) (fail_execution-IsCall claim kind)
          (λ now later. Lands-fail_execution claim kind now)

    pub timed_out_at-Reports :
        (step_id : Option String) (attempt : Option ℕ)
        → Reporting payloads blank lease_ttl
            (timed_out_at payloads blank lease_ttl schedule python settings claim step_id attempt)
    timed_out_at-Reports step_id attempt =
        ends schedule (outcome claim Action.timed_out step_id attempt)
          (λ now later. time_out_execution claim now) (time_out_execution-IsCall claim)
          (λ now later. Lands-time_out_execution claim now)

    pub completed_with-Reports :
        (outputs : Option (Table String V)) (step_id : Option String) (attempt : Option ℕ)
        → Reporting payloads blank lease_ttl (
            completed_with payloads blank lease_ttl schedule python settings claim outputs step_id
              attempt)
    completed_with-Reports outputs step_id attempt =
        let value = as_value payloads blank lease_ttl schedule python settings outputs in
        ends schedule (outcome claim Action.completed step_id attempt)
          (λ now later. complete_execution payloads claim value now)
          (complete_execution-IsCall claim value)
          (λ now later. Lands-complete_execution payloads claim value now)

    pub yielded-Reports :
        (step_id : String) (attempt : ℕ)
        → Reporting payloads blank lease_ttl
            (yielded payloads blank lease_ttl schedule python settings claim step_id attempt)
    yielded-Reports step_id attempt =
        ends schedule (outcome claim Action.ran_step (some step_id) (some attempt))
          (λ now later. yield_execution claim now) (yield_execution-IsCall claim)
          (λ now later. Lands-yield_execution claim now)

    pub after_plan-Reports :
        (step_id : String) (attempt : ℕ) (plan : Plan V) (kind : PlanKind)
        → Reporting payloads blank lease_ttl (
            after_plan payloads blank lease_ttl schedule python settings claim step_id attempt plan
              kind)
    after_plan-Reports step_id attempt plan PlanKind.complete =
        completed_with-Reports plan.outputs (some step_id) (some attempt)
    after_plan-Reports step_id attempt plan PlanKind.conflict =
        failed_for-Reports FailureKind.definition_conflict (some step_id) (some attempt)
    after_plan-Reports step_id attempt plan PlanKind.run_step = yielded-Reports step_id attempt
    after_plan-Reports step_id attempt plan PlanKind.skip_step = yielded-Reports step_id attempt
    after_plan-Reports step_id attempt plan PlanKind.needs_decision =
        yielded-Reports step_id attempt

    pub after_step-Reports :
        (workflow : Workflow V) (step_id : String) (attempt : ℕ)
        → Reporting payloads blank lease_ttl (
            after_step payloads blank lease_ttl schedule python settings claim workflow step_id
              attempt)
    unfolding after_step
    after_step-Reports workflow step_id attempt =
        after (read_states payloads blank lease_ttl schedule python settings claim) _
          (reads schedule (λ now j. ok (step_states claim.execution_id j)))
          (λ states.
            after (read_outputs payloads blank lease_ttl schedule python settings claim) _
              (reads schedule
                (λ now j. ok (completed_outputs python.null python.loads claim.execution_id j)))
              (λ outputs.
                after (lift (plan_next python.sorted workflow states outputs)) _
                  (lifts (plan_next python.sorted workflow states outputs))
                  (λ plan. after_plan-Reports step_id attempt plan plan.kind)))
