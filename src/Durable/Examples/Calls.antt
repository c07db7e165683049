-- ===== src/Durable/Examples/Calls.antt =====
-- Single calls of src/xyberos/durable/store.py, and of the transition tables, on a small journal.
use xyberos.Prelude.{
  ℕ, List, String, ◌≡◌, ◌⊎◌, ◌↔◌, true, false, none, some, [], ◌∷◌, ◌++◌, refl, inr, arith,
  string_eq, pair_eq,
}
use xyberos.Errors.{ok}
use xyberos.Table.{find, update}
use xyberos.Durable.Models.{
  ExecutionStatus, StepState, EventKind, execution_is_terminal, step_is_terminal,
  execution_transition_allowed, step_transition_allowed, require_step_transition,
  require_execution_transition,
}
use xyberos.Durable.Models.Transitions.{execution_is_terminal_iff, step_is_terminal_iff}
use xyberos.Durable.Rows.{ExecutionRow, Claim, Journal, lease_guard}
use xyberos.Durable.Txn.{
  commit, step_row, execution_row, update_step, update_execution, update_lease, append_event,
}
use xyberos.Durable.Store.Writes.{set_step_state, set_execution_status, dump, release_owned_lease}
use xyberos.Durable.Store.Fencing.{authority, last_reading}
use xyberos.Durable.Store.History
use xyberos.Durable.Store.History.{Call, replay}
use xyberos.Durable.Store.Success.{set_execution_status-from_running}
use xyberos.Durable.Store.Claims.{claim_next, eligible}
use xyberos.Durable.Store.Oldest.{Every, IsOldest}
use xyberos.Durable.Store.Claiming.{claim_next-IsOldest, IsClaimed}
use xyberos.Durable.Store.Steps.{
  no_step, start_step, start_attempt, announce_start, complete_step, record_output, resolve_step,
  record_resolution,
}
use xyberos.Durable.Store.Spent.{resolve_step-spends_claim}
use xyberos.Durable.Store.Attempts.{complete_step-start_step}
use xyberos.Durable.Examples.{payloads, blank, claim, journal}

claim_next-IsOldest_example :
    (claim_next blank 10 "x" none 20 journal ≡ ok (none, journal))
      × Every (λ k e. eligible 20 journal k e ≡ false) journal.executions
    ⊎ ((i : String) × (row : ExecutionRow) × (c : Claim) × (k : Journal) × (claim_next blank 10 "x"
            none 20 journal
          ≡ ok (some c, k))
        × IsOldest (eligible 20 journal) journal.executions i row
        × IsClaimed 20 30 "x" i row c journal k)
unfolding find
claim_next-IsOldest_example =
    claim_next-IsOldest blank 10 "x" none 20 journal (refl, (refl, (refl, (refl, tt)))) refl

abbrev after_start : Journal
after_start = (commit (start_step claim "send" none 5) journal).1

abbrev after_success : Journal
after_success = (commit (complete_step payloads claim "send" "2" 6) after_start).1

complete_step-start_step_example :
    after_success.events
    ≡ []
      ++ record {
        execution_id = "run";
        kind = EventKind.step_started;
        step_id = some "send";
        attempt = some 1;
        at = 5;
      }
        ∷ record {
          execution_id = "run";
          kind = EventKind.step_succeeded;
          step_id = some "send";
          attempt = some 2;
          at = 6;
        }
        ∷ []
unfolding commit start_step start_attempt announce_start set_step_state step_row
    require_step_transition step_transition_allowed lease_guard update_step update_execution
    append_event complete_step record_output dump find update
complete_step-start_step_example =
    complete_step-start_step payloads claim "send" none 5 6 "2" journal after_start after_success 1
      refl refl

abbrev after_resolution : Journal
after_resolution =
    (commit (resolve_step payloads claim "send" StepState.pending "" none 6) after_start).1

-- The claim tries to start the step again, and then to renew its lease.
abbrev own_calls : List (Call String × ℕ)
own_calls = (History.starts claim "send" none, 7) ∷ (History.renews claim none, 8) ∷ []

resolve_step-spends_claim_example :
    replay payloads blank 10 own_calls after_resolution ≡ after_resolution
unfolding commit start_step start_attempt announce_start set_step_state step_row
    require_step_transition step_transition_allowed lease_guard update_step update_execution
    append_event find update resolve_step record_resolution set_execution_status execution_row
    require_execution_transition execution_transition_allowed release_owned_lease update_lease
    authority last_reading
resolve_step-spends_claim_example =
    resolve_step-spends_claim payloads blank 10 claim 6 "send" StepState.pending "" none after_start
      after_resolution tt own_calls refl
      (refl, omega arith, omega arith, (refl, omega arith, omega arith, tt))

execution_is_terminal_iff_example :
    (execution_is_terminal ExecutionStatus.failed ≡ true)
    ↔ ((t : ExecutionStatus) → execution_transition_allowed ExecutionStatus.failed t ≡ false)
execution_is_terminal_iff_example = execution_is_terminal_iff ExecutionStatus.failed

step_is_terminal_iff_example :
    (step_is_terminal StepState.running ≡ true)
    ↔ ((t : StepState) → step_transition_allowed StepState.running t ≡ false)
step_is_terminal_iff_example = step_is_terminal_iff StepState.running

abbrev after_yield : Journal
after_yield =
    (commit (set_execution_status claim ExecutionStatus.pending 6 no_step false) journal).1

set_execution_status-from_running_example :
    (row : ExecutionRow) × (find "run" journal.executions ≡ some row)
    × (row.status ≡ ExecutionStatus.running)
    × (lease_guard claim 6 journal ≡ true)
    × ((false ≡ true) ⊎ (row.cancellation_requested_at ≡ none))
unfolding commit set_execution_status execution_row require_execution_transition
    execution_transition_allowed lease_guard update_execution find update
set_execution_status-from_running_example =
    set_execution_status-from_running claim ExecutionStatus.pending 6 no_step false journal tt
      after_yield (inr refl) refl
