-- ===== src/Durable/Store/Steps.antt =====
-- Step transitions of src/xyberos/durable/store.py: `start_step`, `complete_step`,
-- `yield_execution`, `skip_step`, `fail_step`, `mark_step_outcome_unknown`, `resolve_step`, and
-- `time_out_execution`, to which `fail_step` turns when the deadline is reached.
use xyberos.Prelude.{
  ℕ, ◌+◌, String, Bool, true, false, ◌||◌, Option, none, some, List, [], ◌∷◌, leb, if◌then◌else◌,
}
use xyberos.Errors
use xyberos.Errors.{Result, ok}
use xyberos.Durable.Models.{ExecutionStatus, StepState, FailureKind, EventKind, same_state}
use xyberos.Durable.Rows.{ExecutionRow, StepRow, Claim, lease_guard}
use xyberos.Durable.Txn.{
  Txn, pure, lift, read, ◌>>=◌, ◌>>◌, step_row, update_execution, upsert_retry, append_event,
}
use xyberos.Durable.Store.Writes.{
  Payloads, dump, explain_refused_write, release_owned_lease, set_execution_status, set_step_state,
}

-- `extra=", current_step = NULL"`
abbrev pub no_step : ExecutionRow → ExecutionRow
no_step e = record e { current_step = none }

-- `extra=", failure_kind = :kind, …, current_step = NULL"`
abbrev pub failed_as : FailureKind → ExecutionRow → ExecutionRow
failed_as kind e = record e { failure_kind = some kind; current_step = none }

-- What one attempt's start writes into its step row
abbrev pub started : ℕ → Option String → ℕ → StepRow → StepRow
started attempt idempotency_key now s = record s {
  attempts = attempt;
  started_at = some now;
  finished_at = none;
  idempotency_key = idempotency_key;
}

-- The end of `start_step`: the execution names the step, and the event is appended.
unfoldable pub announce_start : Claim → String → ℕ → ℕ → Txn ℕ
announce_start claim step_id attempt now = do
  guarded ← read (lease_guard claim now)
  updated ←
      update_execution claim.execution_id (λ e. guarded)
        (λ e. record e { current_step = some step_id; attempts = e.attempts + 1; updated_at = now })
  if updated then pure tt else explain_refused_write claim false
  append_event claim.execution_id EventKind.step_started now (some step_id) (some attempt)
  pure attempt

abbrev pub startable : List StepState
startable = StepState.pending ∷ StepState.running ∷ []

unfoldable pub start_attempt : Claim → String → Option String → ℕ → ℕ → Txn ℕ
start_attempt claim step_id idempotency_key attempt now = do
  set_step_state claim step_id StepState.running now (started attempt idempotency_key now) startable
  announce_start claim step_id attempt now

unfoldable pub start_step : Claim → String → Option String → ℕ → Txn ℕ
start_step claim step_id idempotency_key now = do
  row ← step_row claim.execution_id step_id
  start_attempt claim step_id idempotency_key (row.attempts + 1) now

-- The transaction of `complete_step`, on the dumped output
unfoldable pub record_output : Claim → String → String → ℕ → Txn (Unit {0})
record_output claim step_id payload now = do
  row ← step_row claim.execution_id step_id
  set_step_state claim step_id StepState.succeeded now
      (λ s. record s {
        output = some payload;
        finished_at = some now;
        error_type = none;
        error_message = none;
        state_detail = none;
      })
      []
  guarded ← read (lease_guard claim now)
  updated ←
      update_execution claim.execution_id (λ e. guarded)
        (λ e. record e { current_step = none; updated_at = now })
  append_event claim.execution_id EventKind.step_succeeded now (some step_id)
      (some (row.attempts + 1))

unfoldable pub complete_step : {V : Type 0} → Payloads V → Claim → String → V → ℕ → Txn (Unit {0})
complete_step payloads claim step_id output now = do
  payload ← lift (dump payloads output)
  record_output claim step_id payload now

unfoldable pub yield_execution : Claim → ℕ → Txn (Unit {0})
yield_execution claim now = do
  set_execution_status claim ExecutionStatus.pending now no_step false
  release_owned_lease claim now
  append_event claim.execution_id EventKind.yielded now none none

unfoldable pub skip_step : Claim → String → String → ℕ → Txn (Unit {0})
skip_step claim step_id reason now = do
  set_step_state claim step_id StepState.skipped now
      (λ s. record s { finished_at = some now; state_detail = some reason }) []
  append_event claim.execution_id EventKind.step_skipped now (some step_id) none

unfoldable pub time_out_execution : Claim → ℕ → Txn StepState
time_out_execution claim now = do
  set_execution_status claim ExecutionStatus.timed_out now (failed_as FailureKind.timed_out) false
  append_event claim.execution_id EventKind.timed_out now none none
  pure StepState.failed

-- What a failed attempt writes into its step row
abbrev pub failure : ℕ → String → String → Option String → StepRow → StepRow
failure now error_type error_message reason s = record s {
  finished_at = some now;
  error_type = some error_type;
  error_message = some error_message;
  state_detail = reason;
}

-- `fail_step`, `retry_at is None`
unfoldable pub fail_for_good : Claim → String → String → String → Option String → ℕ → Txn StepState
fail_for_good claim step_id error_type error_message reason now = do
  row ← step_row claim.execution_id step_id
  set_step_state claim step_id StepState.failed now (failure now error_type error_message reason) []
  set_execution_status claim ExecutionStatus.failed now (failed_as FailureKind.step_failed) false
  append_event claim.execution_id EventKind.step_failed now (some step_id) (some row.attempts)
  append_event claim.execution_id EventKind.failed now (some step_id) none
  pure StepState.failed

-- `fail_step` with a retry
unfoldable pub fail_and_retry :
    Claim → String → String → String → ℕ → Option String → ℕ → Txn StepState
fail_and_retry claim step_id error_type error_message retry_at reason now = do
  row ← step_row claim.execution_id step_id
  set_step_state claim step_id StepState.pending now (failure now error_type error_message reason)
      []
  upsert_retry claim.execution_id (record {
    step_id = step_id;
    attempt = row.attempts + 1;
    due_at = retry_at;
    error_type = some error_type;
    reason = reason;
  })
  set_execution_status claim ExecutionStatus.retrying now no_step false
  append_event claim.execution_id EventKind.step_failed now (some step_id) (some row.attempts)
  release_owned_lease claim now
  append_event claim.execution_id EventKind.retry_scheduled now (some step_id)
      (some (row.attempts + 1))
  pure StepState.pending

abbrev at_or_after : Option ℕ → ℕ → Bool
at_or_after none deadline = false
at_or_after (some retry_at) deadline = leb deadline retry_at

-- `passed` of `fail_step`
unfoldable pub out_of_time : Option ℕ → Option ℕ → ℕ → Bool
out_of_time none retry_at now = false
out_of_time (some deadline) retry_at now = leb deadline now || at_or_after retry_at deadline

abbrev pub fail_or_retry :
    Claim → String → String → String → Option ℕ → Option String → ℕ → Txn StepState
fail_or_retry claim step_id error_type error_message none reason now =
    fail_for_good claim step_id error_type error_message reason now
fail_or_retry claim step_id error_type error_message (some retry_at) reason now =
    fail_and_retry claim step_id error_type error_message retry_at reason now

-- `time_out_execution` reads the clock again: `later`.
unfoldable pub fail_step :
    Claim → String → String → String → Option ℕ → Option String → ℕ → ℕ → Txn StepState
fail_step claim step_id error_type error_message retry_at reason now later =
    if out_of_time claim.deadline_at retry_at now
    then time_out_execution claim later
    else fail_or_retry claim step_id error_type error_message retry_at reason now

unfoldable pub mark_step_outcome_unknown : Claim → String → String → ℕ → Txn (Unit {0})
mark_step_outcome_unknown claim step_id reason now = do
  row ← step_row claim.execution_id step_id
  set_step_state claim step_id StepState.outcome_unknown now
      (λ s. record s { state_detail = some reason }) []
  set_execution_status claim ExecutionStatus.waiting now no_step false
  append_event claim.execution_id EventKind.step_outcome_unknown now (some step_id)
      (some row.attempts)
  append_event claim.execution_id EventKind.waiting now (some step_id) none

abbrev pub optional : {A : Type 0} → Bool → Result A → Result (Option A)
optional false r = ok none
optional true r = Errors.◌>>=◌ r (λ a. ok (some a))

-- The transaction of `resolve_step`, on the dumped output
unfoldable pub record_resolution :
    Claim → String → StepState → Option String → Option String → ℕ → Txn (Unit {0})
record_resolution claim step_id state payload detail now = do
  set_step_state claim step_id state now
      (λ s. record s { output = payload; finished_at = some now; state_detail = detail }) []
  set_execution_status claim ExecutionStatus.pending now no_step false
  release_owned_lease claim now
  append_event claim.execution_id EventKind.recovered now (some step_id) none

unfoldable pub resolve_step :
    {V : Type 0} → Payloads V → Claim → String → StepState → V → Option String → ℕ → Txn (Unit {0})
resolve_step payloads claim step_id state output detail now = do
  payload ← lift (optional (same_state state StepState.succeeded) (dump payloads output))
  record_resolution claim step_id state payload detail now
