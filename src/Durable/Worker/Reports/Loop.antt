-- ===== src/Durable/Worker/Reports/Loop.antt =====
-- What `run_once` of src/xyberos/durable/worker.py reports was so: the rounds of `run_once`.
use xyberos.Prelude.{ℕ, zero, suc, String, Bool, Option, none, some, string_eq}
use xyberos.Errors.{durable_state}
use xyberos.Table.{Table, upsert}
use xyberos.Execution.Models.{Step, Workflow}
use xyberos.Durable.Models.{StepState, FailureKind, state_eq}
use xyberos.Durable.Rows.{Claim}
use xyberos.Durable.Scheduler.{Plan, PlanKind, plan_next}
use xyberos.Durable.Store.Writes.{Payloads}
use xyberos.Durable.Store.Steps.{skip_step}
use xyberos.Durable.Store.Endings.{mark_waiting}
use xyberos.Durable.Store.Landing.Calls.{Lands-mark_waiting}
use xyberos.Durable.Work.{Work, Turn, lift, write}
use xyberos.Durable.Work.Calls.{skip_step-IsCall, mark_waiting-IsCall}
use xyberos.Durable.Recovery.{Python, planned_input}
use xyberos.Durable.Worker.{Action, WorkOutcome, Settings, outcome, id_of, act, advance}
use xyberos.Durable.Worker.Reports.{Reporting, after, writes, lifts, raises, ends}
use xyberos.Durable.Worker.Reports.Endings.{failed_for-Reports, completed_with-Reports}
use xyberos.Durable.Worker.Reports.Attempts.{run_step-Reports}

module _ {V : Type 0} (payloads : Payloads V) (blank : String → Bool) (lease_ttl : ℕ)
    (schedule : ℕ → Turn V) (python : Python V) (settings : Settings V) where
  module _ (claim : Claim) where
    pub act-Reports :
        (workflow : Workflow V) (states : Table String StepState)
        (again : Table String StepState → Work WorkOutcome) (plan : Plan V) (kind : PlanKind)
        (step : Option Step)
        → ((later_states : Table String StepState)
            → Reporting payloads blank lease_ttl (again later_states))
        → Reporting payloads blank lease_ttl (
            act payloads blank lease_ttl schedule python settings claim workflow states again plan
              kind step)
    act-Reports workflow states again plan PlanKind.complete step hagain =
        completed_with-Reports payloads blank lease_ttl schedule python settings claim plan.outputs
          none none
    act-Reports workflow states again plan PlanKind.conflict step hagain =
        failed_for-Reports payloads blank lease_ttl schedule python settings claim
          FailureKind.definition_conflict (id_of step) none
    act-Reports workflow states again plan PlanKind.needs_decision step hagain =
        ends schedule (outcome claim Action.parked (id_of step) none)
          (λ now later. mark_waiting claim now) (mark_waiting-IsCall claim)
          (λ now later. Lands-mark_waiting claim now)
    act-Reports workflow states again plan PlanKind.skip_step none hagain = raises durable_state
    act-Reports workflow states again plan PlanKind.skip_step (some step) hagain =
        after
          (write payloads blank lease_ttl schedule (λ now later. skip_step claim step.id "" now))
          (λ u. again (upsert step.id StepState.skipped states))
          (writes schedule (λ now later. skip_step claim step.id "" now)
            (skip_step-IsCall claim step.id ""))
          (λ u. hagain (upsert step.id StepState.skipped states))
    act-Reports workflow states again plan PlanKind.run_step none hagain = raises durable_state
    act-Reports workflow states again plan PlanKind.run_step (some step) hagain =
        run_step-Reports payloads blank lease_ttl schedule python settings claim workflow step.id
          (planned_input payloads blank lease_ttl schedule python claim plan)

    pub advance-Reports :
        (rounds : ℕ) (workflow : Workflow V) (states : Table String StepState)
        (outputs : Table String V)
        → Reporting payloads blank lease_ttl (
            advance payloads blank lease_ttl schedule python settings rounds claim workflow states
              outputs)
    unfolding advance
    advance-Reports zero workflow states outputs = raises durable_state
    advance-Reports (suc rounds) workflow states outputs =
        after (lift (plan_next python.sorted workflow states outputs)) _
          (lifts (plan_next python.sorted workflow states outputs))
          (λ plan.
            act-Reports workflow states
              (λ later_states.
                advance payloads blank lease_ttl schedule python settings rounds claim workflow
                  later_states outputs)
              plan plan.kind plan.step
              (λ later_states. advance-Reports rounds workflow later_states outputs))
