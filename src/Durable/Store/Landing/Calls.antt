-- ===== src/Durable/Store/Landing/Calls.antt =====
-- Each operation that ends a claim, and the status that it leaves.
use xyberos.Prelude.{false, true, ℕ, String, Option, none, some, refl}
use xyberos.Prelude.{[], if◌then◌else◌, is_none}
use xyberos.Durable.Txn.{◌>>◌, step_row, execution_row}
use xyberos.Durable.Store.Endings.{request_by_owner}
use xyberos.Durable.Models.{same_state}
use xyberos.Durable.Txn.{lift}
use xyberos.Durable.Store.Writes.{dump}
use xyberos.Durable.Store.Steps.{resolve_step, record_resolution, optional}
use xyberos.Durable.Models.{ExecutionStatus, StepState, EventKind, FailureKind}
use xyberos.Durable.Rows.{Claim}
use xyberos.Durable.Txn.Ensures.{Ensures, Ensures-pure}
use xyberos.Durable.Txn.{execution_row, step_row, Txn, pure, append_event, delete_retry}
use xyberos.Durable.Store.Writes.{Payloads, set_step_state, release_owned_lease}
use xyberos.Durable.Store.Steps.{
  yield_execution, time_out_execution, mark_step_outcome_unknown, no_step, failed_as,
}
use xyberos.Durable.Store.Endings.{
  complete_execution, record_result, fail_execution, acknowledge_cancellation, acknowledge,
  mark_waiting,
}
use xyberos.Durable.Store.Landing.{
  Lands, Lands-bind, Lands-set, same, same-then, SameExecutions, Ensures-append_event-same,
  Ensures-delete_retry-same, Ensures-release_owned_lease-same,
}

pub noted :
    {B : Type 0} (claim : Claim) (kind : EventKind) (now : ℕ) (step_id : Option String)
    (attempt : Option ℕ) (k : Txn B)
    → Ensures SameExecutions k
    → Ensures SameExecutions (append_event claim.execution_id kind now step_id attempt >> k)
noted claim kind now step_id attempt k hk =
    same-then (append_event claim.execution_id kind now step_id attempt) k
      (Ensures-append_event-same claim.execution_id kind now step_id attempt) hk

pub Lands-complete_execution :
    {V : Type 0} (payloads : Payloads V) (claim : Claim) (outputs : V) (now : ℕ)
    → Lands claim.execution_id ExecutionStatus.completed
        (complete_execution payloads claim outputs now)
unfolding complete_execution record_result
Lands-complete_execution payloads claim outputs now = Lands-bind _ _ (λ payload.
    Lands-set claim ExecutionStatus.completed now
      (λ e. record e { result = some payload; current_step = none }) false _ (λ r. refl)
      (Ensures-append_event-same _ _ _ _ _))

pub Lands-fail_execution :
    (claim : Claim) (kind : FailureKind) (now : ℕ)
    → Lands claim.execution_id ExecutionStatus.failed (fail_execution claim kind now)
unfolding fail_execution
Lands-fail_execution claim kind now =
    Lands-set claim ExecutionStatus.failed now (failed_as kind) false _ (λ r. refl)
      (Ensures-append_event-same _ _ _ _ _)

pub Lands-acknowledge_cancellation :
    (claim : Claim) (reason : Option String) (now : ℕ)
    → Lands claim.execution_id ExecutionStatus.cancelled (acknowledge_cancellation claim reason now)
unfolding acknowledge_cancellation acknowledge
Lands-acknowledge_cancellation claim reason now =
    Lands-bind (execution_row claim.execution_id) _ (λ row.
      Lands-bind
        (if is_none row.cancellation_requested_at
          then request_by_owner claim.execution_id reason now
          else pure tt)
        _
        (λ u.
          Lands-set claim ExecutionStatus.cancelled now (failed_as FailureKind.cancelled) true _
            (λ r. refl)
            (same-then (delete_retry claim.execution_id) _
              (Ensures-delete_retry-same claim.execution_id)
              (Ensures-append_event-same claim.execution_id EventKind.cancelled now none none))))

pub Lands-mark_waiting :
    (claim : Claim) (now : ℕ)
    → Lands claim.execution_id ExecutionStatus.waiting (mark_waiting claim now)
unfolding mark_waiting
Lands-mark_waiting claim now =
    Lands-set claim ExecutionStatus.waiting now no_step false _ (λ r. refl)
      (Ensures-append_event-same _ _ _ _ _)

pub Lands-yield_execution :
    (claim : Claim) (now : ℕ)
    → Lands claim.execution_id ExecutionStatus.pending (yield_execution claim now)
unfolding yield_execution
Lands-yield_execution claim now =
    Lands-set claim ExecutionStatus.pending now no_step false _ (λ r. refl)
      (same-then _ _ (Ensures-release_owned_lease-same _ _) (Ensures-append_event-same _ _ _ _ _))

pub Lands-time_out_execution :
    (claim : Claim) (now : ℕ)
    → Lands claim.execution_id ExecutionStatus.timed_out (time_out_execution claim now)
unfolding time_out_execution
Lands-time_out_execution claim now =
    Lands-set claim ExecutionStatus.timed_out now (failed_as FailureKind.timed_out) false _
      (λ r. refl) (same-then _ _ (Ensures-append_event-same _ _ _ _ _) (Ensures-pure same _))

pub Lands-mark_step_outcome_unknown :
    (claim : Claim) (step_id reason : String) (now : ℕ)
    → Lands claim.execution_id ExecutionStatus.waiting
        (mark_step_outcome_unknown claim step_id reason now)
unfolding mark_step_outcome_unknown
Lands-mark_step_outcome_unknown claim step_id reason now =
    Lands-bind (step_row claim.execution_id step_id) _ (λ row.
      Lands-bind
        (set_step_state claim step_id StepState.outcome_unknown now
          (λ s. record s { state_detail = some reason }) [])
        _
        (λ u.
          Lands-set claim ExecutionStatus.waiting now no_step false _ (λ r. refl)
            (noted claim EventKind.step_outcome_unknown now (some step_id) (some row.attempts) _ (
              Ensures-append_event-same claim.execution_id EventKind.waiting now (some step_id)
                none))))

pub Lands-resolve_step :
    {V : Type 0} (payloads : Payloads V) (claim : Claim) (step_id : String) (state : StepState)
    (output : V) (detail : Option String) (now : ℕ)
    → Lands claim.execution_id ExecutionStatus.pending
        (resolve_step payloads claim step_id state output detail now)
unfolding resolve_step record_resolution
Lands-resolve_step payloads claim step_id state output detail now =
    Lands-bind (lift (optional (same_state state StepState.succeeded) (dump payloads output))) _
      (λ payload.
        Lands-bind
          (set_step_state claim step_id state now
            (λ s. record s { output = payload; finished_at = some now; state_detail = detail }) [])
          _
          (λ u.
            Lands-set claim ExecutionStatus.pending now no_step false _ (λ r. refl)
              (same-then (release_owned_lease claim now) _
                (Ensures-release_owned_lease-same claim now)
                (Ensures-append_event-same claim.execution_id EventKind.recovered now (some step_id)
                  none))))
