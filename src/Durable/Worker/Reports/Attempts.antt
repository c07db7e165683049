-- ===== src/Durable/Worker/Reports/Attempts.antt =====
-- What `run_once` of src/xyberos/durable/worker.py reports was so: one attempt of a step.
use xyberos.Prelude.{ℕ, String, Bool, Option, none, some, string_eq}
use xyberos.Execution.Models.{Step, Workflow, step_by_id}
use xyberos.Durable.Models.{state_eq}
use xyberos.Durable.Rows.{Claim}
use xyberos.Durable.Store.Writes.{Payloads}
use xyberos.Durable.Store.Steps.{start_step, complete_step}
use xyberos.Durable.Work.{Turn, lift, ◌>>=◌, write, clock}
use xyberos.Durable.Work.Reached.{Reached-refl, Runs}
use xyberos.Durable.Work.Rules.{Runs-clock}
use xyberos.Durable.Work.Calls.{start_step-IsCall, complete_step-IsCall}
use xyberos.Durable.Recovery.{Python}
use xyberos.Durable.Worker.{
  Attempt, Settings, step_key, attempt_budget, no_time, retry_at, timed_out_at, record_failure,
  after_step, finish_attempt, run_attempt, attempt_within, run_step,
}
use xyberos.Durable.Worker.Reports.{Reporting, after, writes, lifts, either}
use xyberos.Durable.Worker.Reports.Endings.{
  acknowledged-Reports, timed_out_at-Reports, after_step-Reports,
}
use xyberos.Durable.Worker.Reports.Failures.{record_failure-Reports}

module _ {V : Type 0} (payloads : Payloads V) (blank : String → Bool) (lease_ttl : ℕ)
    (schedule : ℕ → Turn V) (python : Python V) (settings : Settings V) where
  module _ (claim : Claim) where
    pub finish_attempt-Reports :
        (workflow : Workflow V) (step : Step) (attempt : ℕ) (ended : Attempt V)
        → Reporting payloads blank lease_ttl (
            finish_attempt payloads blank lease_ttl schedule python settings claim workflow step
              attempt ended)
    unfolding finish_attempt
    finish_attempt-Reports workflow step attempt (Attempt.returned output) =
        after
          (write payloads blank lease_ttl schedule
            (λ now later. complete_step payloads claim step.id output now))
          (λ u.
            after_step payloads blank lease_ttl schedule python settings claim workflow step.id
              attempt)
          (writes schedule (λ now later. complete_step payloads claim step.id output now)
            (complete_step-IsCall claim step.id output))
          (λ u.
            after_step-Reports payloads blank lease_ttl schedule python settings claim workflow
              step.id attempt)
    finish_attempt-Reports workflow step attempt Attempt.timed_out =
        record_failure-Reports payloads blank lease_ttl schedule python settings claim step.id
          attempt "StepTimeoutError" "" none "step timeout"
    finish_attempt-Reports workflow step attempt (Attempt.stopped reason) =
        acknowledged-Reports payloads blank lease_ttl schedule python settings claim (some reason)
          (some step.id) (some attempt)
    finish_attempt-Reports workflow step attempt Attempt.deadline_hit =
        timed_out_at-Reports payloads blank lease_ttl schedule python settings claim (some step.id)
          (some attempt)
    finish_attempt-Reports workflow step attempt (Attempt.raised error_type message) =
        after (clock payloads blank lease_ttl schedule)
          (λ now.
            record_failure payloads blank lease_ttl schedule python settings claim step.id attempt
              error_type message (retry_at (settings.retry step.id) attempt error_type now)
              error_type)
          (Runs-clock schedule)
          (λ now.
            record_failure-Reports payloads blank lease_ttl schedule python settings claim step.id
              attempt error_type message (retry_at (settings.retry step.id) attempt error_type now)
              error_type)

    pub run_attempt-Runs :
        (step : Step) (attempt : ℕ) (value : V) (budget : Option ℕ)
        → Runs payloads blank lease_ttl
            (λ a j k. Unit {0})
            (run_attempt payloads blank lease_ttl schedule python settings step attempt value
              budget)
    run_attempt-Runs step attempt value budget = record { at = λ w. (Reached-refl w.journal, tt) }

    pub attempt_within-Reports :
        (workflow : Workflow V) (step : Step) (value : V) (attempt : ℕ) (budget : Option ℕ)
        → Reporting payloads blank lease_ttl (
            attempt_within payloads blank lease_ttl schedule python settings claim workflow step
              value attempt budget)
    attempt_within-Reports workflow step value attempt budget =
        either (no_time budget)
          (timed_out_at payloads blank lease_ttl schedule python settings claim (some step.id)
            (some attempt))
          (run_attempt payloads blank lease_ttl schedule python settings step attempt value budget
            >>= finish_attempt payloads blank lease_ttl schedule python settings claim workflow step
                attempt)
          (timed_out_at-Reports payloads blank lease_ttl schedule python settings claim
            (some step.id) (some attempt))
          (after
            (run_attempt payloads blank lease_ttl schedule python settings step attempt value
              budget)
            (finish_attempt payloads blank lease_ttl schedule python settings claim workflow step
              attempt)
            (run_attempt-Runs step attempt value budget)
            (finish_attempt-Reports workflow step attempt))

    pub run_step-Reports :
        (workflow : Workflow V) (step_id : String) (value : V)
        → Reporting payloads blank lease_ttl (
            run_step payloads blank lease_ttl schedule python settings claim workflow step_id value)
    unfolding run_step
    run_step-Reports workflow step_id value =
        after (lift (step_by_id workflow step_id)) _ (lifts (step_by_id workflow step_id)) (λ step.
          after
            (write payloads blank lease_ttl schedule
              (λ now later. start_step claim step.id (some (step_key claim step)) now))
            _
            (writes schedule
              (λ now later. start_step claim step.id (some (step_key claim step)) now)
              (start_step-IsCall claim step.id (some (step_key claim step))))
            (λ attempt.
              after (clock payloads blank lease_ttl schedule) _ (Runs-clock schedule) (λ now.
                attempt_within-Reports workflow step value attempt
                  (attempt_budget claim.deadline_at step.timeout now))))
