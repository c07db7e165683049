-- ===== src/Durable/Examples/Working.antt =====
-- A turn of a worker of src/xyberos/durable/worker.py on a small journal.
use xyberos.Prelude.{ℕ, String, ◌≡◌, none, some, [], ◌∷◌, refl, string_eq, pair_eq, arith}
use xyberos.Durable.Models.{ExecutionStatus, StepState}
use xyberos.Durable.Rows.{Journal, empty}
use xyberos.Durable.Store.Submission.{new_step}
use xyberos.Durable.Work.{Turn, World}
use xyberos.Durable.Work.Reached.{Reached, Moment}
use xyberos.Durable.Recovery.{Python}
use xyberos.Durable.Worker.{Action, WorkOutcome, Attempt, Settings, run_once, advance}
use xyberos.Durable.Worker.Runs.{run_once-Moment}
use xyberos.Durable.Worker.Bound.{advance_bounded}
use xyberos.Durable.Examples.{payloads, blank, pending_row, flow, as_is, claim, loaded, recorded}
use xyberos.Durable.Txn.{
  commit, execution_row, step_row, update_execution, update_step, update_lease, upsert_lease,
  delete_retry, append_event,
}
use xyberos.Table.{find, update, upsert, delete}
use xyberos.Durable.Store.Claims.{
  claim_next, oldest, eligible, claim_candidate, may_claim, finish_claim, take_lease,
}
use xyberos.Durable.Store.History.{replay}
use xyberos.Durable.Rows.{lease_guard}
use xyberos.Durable.Store.Writes.{
  set_execution_status, set_step_state, dump, release_owned_lease, explain_refused_write,
}
use xyberos.Durable.Store.Steps.{
  start_step, start_attempt, announce_start, complete_step, record_output, yield_execution,
}
use xyberos.Durable.Store.Submission.{definition_fingerprint, shape}
use xyberos.Durable.Definitions.{require_definition}
use xyberos.Durable.Store.Inspection.{
  step_states, rows_of, completed_outputs, output_entry, running_steps,
}
use xyberos.Durable.Scheduler.{
  plan_next, decide, verdict, taken_edges, taken_from, reached, unresolved, select_edge, results,
}
use xyberos.Execution.Models.{incoming, outgoing, entries, exits, select, find_step, step_by_id}
use xyberos.Durable.Models.{
  step_is_terminal, execution_is_terminal, execution_transition_allowed, step_transition_allowed,
  require_execution_transition, require_step_transition,
}
use xyberos.Durable.Worker.{
  work_on, move_on, run_step, finish_attempt, after_step, attempt_budget, retry_at,
}
use xyberos.Durable.Models.{ActivityPolicy}
use xyberos.Durable.Store.Inspection.{expired_leases, orphaned, by_expiry, insert_by_expiry}
use xyberos.Durable.Store.Steps.{resolve_step, record_resolution}
use xyberos.Durable.Recovery.{
  RecoveryAction, Decision, recover, recover_each, recover_one, recover_running, resolve_all,
  resolve_interrupted_attempt, settle_as, input_for, take,
}
use xyberos.Durable.Recovery.Decisions.{DecidesAll}
use xyberos.Durable.Recovery.Runs.{recover-DecidesAll}
use xyberos.Durable.Examples.{running_row, lease}
use xyberos.Prelude.{true, Option}
use xyberos.Table.{Table}

-- The submitted execution, with none of its steps started
abbrev ready : Journal
ready = record empty {
  executions = ("run", pending_row) ∷ [];
  steps =
      (("run", "load"), new_step) ∷ (("run", "send"), new_step) ∷ (("run", "drop"), new_step) ∷ [];
}

abbrev quiet : ℕ → Turn String
quiet turn = record { others = []; now = 20; later = 20 }

abbrev python : Python String
python = record {
  null = "null";
  loads = λ payload. payload;
  mapping = λ results. "results";
  sorted = as_is;
  digest = λ shape. "f";
}

abbrev settings : Settings String
settings = record {
  owner = "w";
  lease_ttl = none;
  lookup = λ name version. some flow;
  activities = λ step_id. none;
  retry = λ step_id. none;
  run = λ turn step_id attempt value budget. Attempt.returned "1";
}

abbrev start : World
start = record { journal = ready; turn = 0 }

abbrev ran_load : WorkOutcome
ran_load = record {
  execution_id = "run";
  action = Action.ran_step;
  step_id = some "load";
  attempt = some 1;
}

advance_bounded_example :
    advance payloads blank 10 quiet python settings 9 claim flow loaded recorded start
    ≡ advance payloads blank 10 quiet python settings 4 claim flow loaded recorded start
advance_bounded_example =
    advance_bounded payloads blank 10 quiet python settings claim flow 9 loaded recorded start
      (omega arith)

run_once-Moment_example :
    Moment payloads blank 10 "run" ExecutionStatus.pending ready
      (run_once payloads blank 10 quiet python settings start).1.journal
unfolding run_once advance commit execution_row step_row update_execution update_step update_lease
    upsert_lease delete_retry append_event find update upsert delete claim_next oldest eligible
    claim_candidate may_claim finish_claim take_lease replay lease_guard set_execution_status
    set_step_state dump release_owned_lease explain_refused_write start_step start_attempt
    announce_start complete_step record_output yield_execution definition_fingerprint shape
    require_definition step_states rows_of completed_outputs output_entry running_steps plan_next
    decide verdict taken_edges taken_from reached unresolved select_edge results incoming outgoing
    entries exits select find_step step_by_id step_is_terminal execution_is_terminal
    execution_transition_allowed step_transition_allowed require_execution_transition
    require_step_transition work_on move_on run_step finish_attempt after_step attempt_budget
    retry_at
run_once-Moment_example =
    run_once-Moment payloads blank 10 quiet python settings start ran_load refl

-- The journal that a worker left in the middle of the first step
abbrev abandoned : Journal
abandoned = record empty {
  executions = ("run", running_row) ∷ [];
  steps = (("run", "load"), record new_step { state = StepState.running }) ∷ [];
  leases = ("run", lease) ∷ [];
}

abbrev repeatable : String → Option (ActivityPolicy String)
repeatable step_id = some (record { idempotent = true; reconcile = none })

abbrev resumed : Table String Decision
resumed = ("run", record { action = RecoveryAction.resumed; state = StepState.pending }) ∷ []

recover-DecidesAll_example :
    Reached payloads blank 10 abandoned
      (recover payloads blank 10 quiet python repeatable settings.lookup "r" none 100
        (record { journal = abandoned; turn = 0 })).1.journal
    × DecidesAll payloads blank 10 resumed abandoned
        (recover payloads blank 10 quiet python repeatable settings.lookup "r" none 100
          (record { journal = abandoned; turn = 0 })).1.journal
unfolding recover recover_each recover_one recover_running resolve_all resolve_interrupted_attempt
    settle_as input_for take expired_leases orphaned by_expiry insert_by_expiry resolve_step
    record_resolution commit execution_row step_row update_execution update_step update_lease
    upsert_lease delete_retry append_event find update upsert delete claim_next oldest eligible
    claim_candidate may_claim finish_claim take_lease replay lease_guard set_execution_status
    set_step_state dump release_owned_lease explain_refused_write start_step start_attempt
    announce_start complete_step record_output yield_execution definition_fingerprint shape
    require_definition step_states rows_of completed_outputs output_entry running_steps plan_next
    decide verdict taken_edges taken_from reached unresolved select_edge results incoming outgoing
    entries exits select find_step step_by_id step_is_terminal execution_is_terminal
    execution_transition_allowed step_transition_allowed require_execution_transition
    require_step_transition work_on move_on run_step finish_attempt after_step attempt_budget
    retry_at
recover-DecidesAll_example =
    recover-DecidesAll payloads blank 10 quiet python repeatable settings.lookup "r" none 100
      (record { journal = abandoned; turn = 0 }) resumed refl
