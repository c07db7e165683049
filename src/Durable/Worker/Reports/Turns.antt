-- ===== src/Durable/Worker/Reports/Turns.antt =====
-- What `run_once` of src/xyberos/durable/worker.py reports was so: a turn of the worker.
use xyberos.Prelude.{
  ℕ, String, ◌≡◌, Bool, true, Option, none, some, List, refl, sym, subst, ◌⊎◌, inl, inr,
  if◌then◌else◌, string_eq,
}
use xyberos.Errors.{
  durable_state, durable_conflict, durable_version, durable_payload, durable_lease, integrity,
  workflow_validation, Result, ok, err,
}
use xyberos.Table.{Table}
use xyberos.Execution.Models.{Workflow, contains, is_empty}
use xyberos.Durable.Models.{StepState, FailureKind, state_eq}
use xyberos.Durable.Rows.{Claim, Journal}
use xyberos.Durable.Scheduler.{plan_next}
use xyberos.Durable.Definitions.{require_definition}
use xyberos.Durable.Store.Writes.{Payloads}
use xyberos.Durable.Store.Claims.{claim_next}
use xyberos.Durable.Store.Inspection.{step_states, completed_outputs, running_steps}
use xyberos.Durable.Work.{Turn, pure, lift, ◌>>=◌, write, query, clock}
use xyberos.Durable.Work.Reached.{Reached, Runs, Moment-extend, Moment-last}
use xyberos.Durable.Work.Rules.{Runs-pure, Runs-bind, Runs-clock, Runs-if, Runs-weaken}
use xyberos.Durable.Work.Calls.{claim_next-IsCall}
use xyberos.Durable.Recovery.{Python, resolve_all}
use xyberos.Durable.Recovery.Reports.{resolve_all-Runs}
use xyberos.Durable.Worker.{
  Action, WorkOutcome, Settings, outcome, deadline_passed, acknowledged, timed_out_at, read_states,
  read_outputs, advance, rounds_for, first_of, take_over, move_on, with_definition, work_on,
  work_on_claimed, run_once,
}
use xyberos.Durable.Worker.Reports.{
  Reports, ReportsAny, Reporting, after, writes, reads, lifts, raises, either,
}
use xyberos.Durable.Worker.Reports.Endings.{
  acknowledged-Reports, failed_for-Reports, timed_out_at-Reports,
}
use xyberos.Durable.Worker.Reports.Loop.{advance-Reports}

module _ {V : Type 0} (payloads : Payloads V) (blank : String → Bool) (lease_ttl : ℕ)
    (schedule : ℕ → Turn V) (python : Python V) (settings : Settings V) where
  module _ (claim : Claim) where
    pub settled_attempts-Reports :
        (workflow : Workflow V) (outputs : Table String V) (interrupted : List String)
        (outcomes : List StepState)
        → Runs payloads blank lease_ttl
            (λ o k l.
              (contains StepState.outcome_unknown outcomes ≡ true)
                × (o
                    ≡ outcome claim Action.parked
                        (first_of payloads blank lease_ttl schedule python settings interrupted)
                        none)
              ⊎ Reports payloads blank lease_ttl o k l)
            (if contains StepState.outcome_unknown outcomes
              then pure (
                  outcome claim Action.parked
                    (first_of payloads blank lease_ttl schedule python settings interrupted)
                    none)
              else (read_states payloads blank lease_ttl schedule python settings claim
                  >>= λ resolved.
                      advance payloads blank lease_ttl schedule python settings
                        (rounds_for payloads blank lease_ttl schedule python settings workflow)
                        claim
                        workflow
                        resolved
                        outputs))
    settled_attempts-Reports workflow outputs interrupted outcomes =
        Runs-if (contains StepState.outcome_unknown outcomes)
          (pure (
            outcome claim Action.parked
              (first_of payloads blank lease_ttl schedule python settings interrupted) none))
          (read_states payloads blank lease_ttl schedule python settings claim >>= λ resolved.
            advance payloads blank lease_ttl schedule python settings
              (rounds_for payloads blank lease_ttl schedule python settings workflow) claim workflow
              resolved outputs)
          (λ doubted.
            Runs-pure
              (outcome claim Action.parked
                (first_of payloads blank lease_ttl schedule python settings interrupted) none)
              (λ j. inl (doubted, refl)))
          (λ decided.
            Runs-weaken
              (read_states payloads blank lease_ttl schedule python settings claim >>= λ resolved.
                advance payloads blank lease_ttl schedule python settings
                  (rounds_for payloads blank lease_ttl schedule python settings workflow) claim
                  workflow resolved outputs)
              (after (read_states payloads blank lease_ttl schedule python settings claim)
                (λ resolved.
                  advance payloads blank lease_ttl schedule python settings
                    (rounds_for payloads blank lease_ttl schedule python settings workflow) claim
                    workflow resolved outputs)
                (reads schedule (λ now j. ok (step_states claim.execution_id j)))
                (λ resolved.
                  advance-Reports payloads blank lease_ttl schedule python settings claim
                    (rounds_for payloads blank lease_ttl schedule python settings workflow) workflow
                    resolved outputs))
              (λ o j l reached r. inr r))

    pub take_over-Reports :
        (workflow : Workflow V) (states : Table String StepState) (outputs : Table String V)
        (interrupted : List String)
        → Reporting payloads blank lease_ttl (
            take_over payloads blank lease_ttl schedule python settings claim workflow states
              outputs interrupted)
    unfolding take_over
    take_over-Reports workflow states outputs interrupted =
        after (lift (plan_next python.sorted workflow states outputs)) _
          (lifts (plan_next python.sorted workflow states outputs))
          (λ plan.
            Runs-bind
              (λ outcomes o k l.
                (contains StepState.outcome_unknown outcomes ≡ true)
                  × (o
                      ≡ outcome claim Action.parked
                          (first_of payloads blank lease_ttl schedule python settings interrupted)
                          none)
                ⊎ Reports payloads blank lease_ttl o k l)
              (resolve_all payloads blank lease_ttl schedule python settings.activities claim plan
                interrupted)
              _ (resolve_all-Runs schedule python settings.activities claim plan interrupted)
              (settled_attempts-Reports workflow outputs interrupted)
              (λ outcomes o j k l before doubts onwards either_way. elim either_way [
                | inl (doubted, is) ↦
                    subst (λ x. Reports payloads blank lease_ttl x j l) (sym is)
                      (Moment-last j k l (doubts doubted) onwards)
                | inr r ↦ Moment-extend j k l before r
              ]))

    pub move_on-Reports :
        (workflow : Workflow V)
        → Reporting payloads blank lease_ttl
            (move_on payloads blank lease_ttl schedule python settings claim workflow)
    unfolding move_on
    move_on-Reports workflow =
        after (read_states payloads blank lease_ttl schedule python settings claim) _
          (reads schedule (λ now j. ok (step_states claim.execution_id j)))
          (λ states.
            after (read_outputs payloads blank lease_ttl schedule python settings claim) _
              (reads schedule
                (λ now j. ok (completed_outputs python.null python.loads claim.execution_id j)))
              (λ outputs.
                after
                  (query payloads blank lease_ttl schedule
                    (λ now j. ok (running_steps claim.execution_id j)))
                  _ (reads schedule (λ now j. ok (running_steps claim.execution_id j)))
                  (λ interrupted.
                    either (is_empty interrupted)
                      (advance payloads blank lease_ttl schedule python settings
                        (rounds_for payloads blank lease_ttl schedule python settings workflow)
                        claim workflow states outputs)
                      (take_over payloads blank lease_ttl schedule python settings claim workflow
                        states outputs interrupted)
                      (advance-Reports payloads blank lease_ttl schedule python settings claim
                        (rounds_for payloads blank lease_ttl schedule python settings workflow)
                        workflow states outputs)
                      (take_over-Reports workflow states outputs interrupted))))

    pub with_definition-Reports :
        (found : Result (Workflow V))
        → Reporting payloads blank lease_ttl
            (with_definition payloads blank lease_ttl schedule python settings claim found)
    with_definition-Reports (ok workflow) =
        after (clock payloads blank lease_ttl schedule) _ (Runs-clock schedule) (λ now.
          either (deadline_passed claim.deadline_at now)
            (timed_out_at payloads blank lease_ttl schedule python settings claim none none)
            (move_on payloads blank lease_ttl schedule python settings claim workflow)
            (timed_out_at-Reports payloads blank lease_ttl schedule python settings claim none none)
            (move_on-Reports workflow))
    with_definition-Reports (err durable_version) =
        failed_for-Reports payloads blank lease_ttl schedule python settings claim
          FailureKind.incompatible_definition none none
    with_definition-Reports (err durable_state) = raises durable_state
    with_definition-Reports (err durable_conflict) = raises durable_conflict
    with_definition-Reports (err durable_payload) = raises durable_payload
    with_definition-Reports (err (durable_lease problem)) = raises (durable_lease problem)
    with_definition-Reports (err integrity) = raises integrity
    with_definition-Reports (err workflow_validation) = raises workflow_validation

    pub work_on-Reports :
        Reporting payloads blank lease_ttl
          (work_on payloads blank lease_ttl schedule python settings claim)
    unfolding work_on
    work_on-Reports =
        either claim.cancellation_requested
          (acknowledged payloads blank lease_ttl schedule python settings claim
            (some "cancellation was requested") none none)
          (with_definition payloads blank lease_ttl schedule python settings claim
            (require_definition python.sorted python.digest settings.lookup claim))
          (acknowledged-Reports payloads blank lease_ttl schedule python settings claim
            (some "cancellation was requested") none none)
          (with_definition-Reports
            (require_definition python.sorted python.digest settings.lookup claim))

  work_on_claimed-Reports :
      (claimed : Option Claim)
      → Runs payloads blank lease_ttl
          (ReportsAny payloads blank lease_ttl)
          (work_on_claimed payloads blank lease_ttl schedule python settings claimed)
  work_on_claimed-Reports none = Runs-pure none (λ j. tt)
  work_on_claimed-Reports (some claim) =
      Runs-bind (λ o r k l. (r ≡ some o) × (k ≡ l))
        (work_on payloads blank lease_ttl schedule python settings claim) (λ o. pure (some o))
        (work_on-Reports claim) (λ o. Runs-pure (some o) (λ j. (refl, refl)))
        (λ o r j k l before reports onwards same.
          let (is, stays) = same in
          subst (λ x. ReportsAny payloads blank lease_ttl x j l) (sym is)
            (subst (λ x. Reports payloads blank lease_ttl o j x) stays reports))

  ReportsAny-extend :
      (r : Option WorkOutcome) (j k l : Journal)
      → Reached payloads blank lease_ttl j k
      → ReportsAny payloads blank lease_ttl r k l
      → ReportsAny payloads blank lease_ttl r j l
  ReportsAny-extend none j k l before u = tt
  ReportsAny-extend (some o) j k l before m = Moment-extend j k l before m

  -- Whatever others do between its transactions, and whatever the step functions do, a turn of the
  -- worker takes the journal only where a history of calls of `JournalStore` takes it, and what the
  -- turn reports is true: at some moment of it the execution had the status that the outcome
  -- stands for (completed, failed, cancelled, timed out, waiting for a decision where it was
  -- parked, retrying where a retry was scheduled, pending where a step ran).
  pub run_once-Reports :
      Runs payloads blank lease_ttl
        (ReportsAny payloads blank lease_ttl)
        (run_once payloads blank lease_ttl schedule python settings)
  unfolding run_once
  run_once-Reports =
      Runs-bind (λ claimed r k l. ReportsAny payloads blank lease_ttl r k l)
        (write payloads blank lease_ttl schedule
          (λ now later. claim_next blank lease_ttl settings.owner settings.lease_ttl now))
        (work_on_claimed payloads blank lease_ttl schedule python settings)
        (writes schedule
          (λ now later. claim_next blank lease_ttl settings.owner settings.lease_ttl now)
          (claim_next-IsCall settings.owner settings.lease_ttl))
        work_on_claimed-Reports
        (λ claimed r j k l before u onwards reports. ReportsAny-extend r j k l before reports)
