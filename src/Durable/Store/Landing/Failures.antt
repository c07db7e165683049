-- ===== src/Durable/Store/Landing/Failures.antt =====
-- The status and the answer of a failed attempt: `fail_step` of src/xyberos/durable/store.py.
use xyberos.Prelude.{false, true, ℕ, String, ◌≡◌, Bool, Option, none, some, refl, ◌⊎◌, inl, inr}
use xyberos.Prelude.{[], if◌then◌else◌, ◌+◌}
use xyberos.Durable.Txn.{step_row, upsert_retry}
use xyberos.Durable.Store.Landing.{Returns, Returns-bind, Returns-then, Returns-pure}
use xyberos.Durable.Store.Steps.{out_of_time, fail_or_retry}
use xyberos.Durable.Models.{ExecutionStatus, StepState, EventKind, FailureKind}
use xyberos.Durable.Rows.{Claim, Journal}
use xyberos.Durable.Txn.Ensures.{Ensures-pure}
use xyberos.Durable.Txn.{step_row, upsert_retry, append_event}
use xyberos.Durable.Store.Writes.{set_execution_status, set_step_state, release_owned_lease}
use xyberos.Durable.Store.Steps.{
  time_out_execution, fail_step, fail_for_good, fail_and_retry, no_step, failed_as, failure,
}
use xyberos.Durable.Store.Landing.{
  Has, Lands, Lands-bind, Lands-set, same, same-then, Ensures-release_owned_lease-same,
}
use xyberos.Errors.{ok}
use xyberos.Durable.Store.Landing.Calls.{noted, Lands-time_out_execution}

module _ (claim : Claim) (step_id error_type message : String) (now later : ℕ) where
  Lands-fail_for_good :
      (reason : Option String)
      → Lands claim.execution_id ExecutionStatus.failed
          (fail_for_good claim step_id error_type message reason now)
  unfolding fail_for_good
  Lands-fail_for_good reason = Lands-bind (step_row claim.execution_id step_id) _ (λ row.
      Lands-bind
        (set_step_state claim step_id StepState.failed now (failure now error_type message reason)
          [])
        _
        (λ u.
          Lands-set claim ExecutionStatus.failed now (failed_as FailureKind.step_failed) false _
            (λ r. refl)
            (noted claim EventKind.step_failed now (some step_id) (some row.attempts) _
              (noted claim EventKind.failed now (some step_id) none _ (Ensures-pure same _)))))

  Lands-fail_and_retry :
      (due : ℕ) (reason : Option String)
      → Lands claim.execution_id ExecutionStatus.retrying
          (fail_and_retry claim step_id error_type message due reason now)
  unfolding fail_and_retry
  Lands-fail_and_retry due reason = Lands-bind (step_row claim.execution_id step_id) _ (λ row.
      Lands-bind
        (set_step_state claim step_id StepState.pending now (failure now error_type message reason)
          [])
        _
        (λ u.
          Lands-bind
            (upsert_retry claim.execution_id (record {
              step_id = step_id;
              attempt = row.attempts + 1;
              due_at = due;
              error_type = some error_type;
              reason = reason;
            }))
            _
            (λ v.
              Lands-set claim ExecutionStatus.retrying now no_step false _ (λ r. refl)
                (noted claim EventKind.step_failed now (some step_id) (some row.attempts) _ (
                  same-then (release_owned_lease claim now) _
                    (Ensures-release_owned_lease-same claim now)
                    (noted claim EventKind.retry_scheduled now (some step_id)
                      (some (row.attempts + 1)) _ (Ensures-pure same _)))))))

  fail_for_good-Returns :
      (reason : Option String)
      → Returns StepState.failed (fail_for_good claim step_id error_type message reason now)
  unfolding fail_for_good
  fail_for_good-Returns reason = Returns-bind (step_row claim.execution_id step_id) _ (λ row.
      Returns-then
        (set_step_state claim step_id StepState.failed now (failure now error_type message reason)
          [])
        _
        (Returns-then
          (set_execution_status claim ExecutionStatus.failed now (failed_as FailureKind.step_failed)
            false)
          _
          (Returns-then
            (append_event claim.execution_id EventKind.step_failed now (some step_id)
              (some row.attempts))
            _
            (Returns-then (append_event claim.execution_id EventKind.failed now (some step_id) none)
              _ (Returns-pure _)))))

  fail_and_retry-Returns :
      (due : ℕ) (reason : Option String)
      → Returns StepState.pending (fail_and_retry claim step_id error_type message due reason now)
  unfolding fail_and_retry
  fail_and_retry-Returns due reason = Returns-bind (step_row claim.execution_id step_id) _ (λ row.
      Returns-then
        (set_step_state claim step_id StepState.pending now (failure now error_type message reason)
          [])
        _
        (Returns-then
          (upsert_retry claim.execution_id (record {
            step_id = step_id;
            attempt = row.attempts + 1;
            due_at = due;
            error_type = some error_type;
            reason = reason;
          }))
          _
          (Returns-then (set_execution_status claim ExecutionStatus.retrying now no_step false) _ (
            Returns-then
              (append_event claim.execution_id EventKind.step_failed now (some step_id)
                (some row.attempts))
              _
              (Returns-then (release_owned_lease claim now) _ (
                Returns-then
                  (append_event claim.execution_id EventKind.retry_scheduled now (some step_id)
                    (some (row.attempts + 1)))
                  _ (Returns-pure _)))))))

  abbrev pub Failed : StepState → Journal → Type 0
  Failed state k =
      Has claim.execution_id ExecutionStatus.timed_out k
      ⊎ ((state ≡ StepState.pending) × Has claim.execution_id ExecutionStatus.retrying k)
      ⊎ ((state ≡ StepState.failed) × Has claim.execution_id ExecutionStatus.failed k)

  by_time :
      (over : Bool) (retry : Option ℕ) (reason : Option String) (j : Journal) {state : StepState}
      {k : Journal}
      → (if over
            then time_out_execution claim later
            else fail_or_retry claim step_id error_type message retry reason now)
          j
        ≡ ok (state, k)
      → Failed state k
  by_time true retry reason j e = inl ((Lands-time_out_execution claim later).at j e)
  by_time false none reason j e =
      inr (inr ((fail_for_good-Returns reason).at j e, (Lands-fail_for_good reason).at j e))
  by_time false (some due) reason j e =
      inr
        (inl ((fail_and_retry-Returns due reason).at j e, (Lands-fail_and_retry due reason).at j e))

  -- A failed attempt: out of time, to be retried, or failed for good
  pub fail_step-Has :
      (retry : Option ℕ) (reason : Option String) (j : Journal) {state : StepState} {k : Journal}
      → fail_step claim step_id error_type message retry reason now later j ≡ ok (state, k)
      → Failed state k
  unfolding fail_step
  fail_step-Has retry reason j e =
      by_time (out_of_time claim.deadline_at retry now) retry reason j e
