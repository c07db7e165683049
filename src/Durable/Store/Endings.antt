-- ===== src/Durable/Store/Endings.antt =====
-- Terminal transitions, cancellation and parking of src/xyberos/durable/store.py:
-- `complete_execution`, `fail_execution`, `request_cancellation`, `_finish_cancelled`,
-- `acknowledge_cancellation`, `mark_waiting`, `resume_waiting`.
use xyberos.Prelude.{
  ℕ, String, Bool, true, false, not, Option, none, some, is_none, ltb, if◌then◌else◌, string_eq,
}
use xyberos.Errors.{durable_state}
use xyberos.Table.{find}
use xyberos.Durable.Models.{
  ExecutionStatus, FailureKind, EventKind, same_status, execution_is_terminal,
  require_execution_transition,
}
use xyberos.Durable.Rows.{ExecutionRow, LeaseRow, Claim}
use xyberos.Durable.Txn.{
  Txn, pure, raise, lift, read, ◌>>=◌, ◌>>◌, execution_row, update_execution, delete_retry,
  append_event,
}
use xyberos.Durable.Store.Writes.{Payloads, dump, set_execution_status}
use xyberos.Durable.Store.Steps.{no_step, failed_as}

-- The transaction of `complete_execution`, on the dumped result
unfoldable pub record_result : Claim → String → ℕ → Txn (Unit {0})
record_result claim payload now = do
  set_execution_status claim ExecutionStatus.completed now
      (λ e. record e { result = some payload; current_step = none }) false
  append_event claim.execution_id EventKind.completed now none none

unfoldable pub complete_execution : {V : Type 0} → Payloads V → Claim → V → ℕ → Txn (Unit {0})
complete_execution payloads claim outputs now = do
  payload ← lift (dump payloads outputs)
  record_result claim payload now

unfoldable pub fail_execution : Claim → FailureKind → ℕ → Txn (Unit {0})
fail_execution claim kind now = do
  set_execution_status claim ExecutionStatus.failed now (failed_as kind) false
  append_event claim.execution_id EventKind.failed now none none

-- COALESCE(cancellation_requested_at, :now)
abbrev pub requested_by : Option ℕ → ℕ → Option ℕ
requested_by none now = some now
requested_by (some t) now = some t

unfoldable pub cancel_row : String → ExecutionRow → ℕ → Txn (Unit {0})
cancel_row execution_id row now = do
  lift (require_execution_transition row.status ExecutionStatus.cancelled)
  written ←
      update_execution execution_id (λ e. same_status e.status row.status)
        (λ e. record e {
          status = ExecutionStatus.cancelled;
          failure_kind = some FailureKind.cancelled;
          current_step = none;
          updated_at = now;
          cancellation_requested_at = requested_by e.cancellation_requested_at now;
        })
  delete_retry execution_id
  append_event execution_id EventKind.cancelled now none none

unfoldable pub finish_cancelled : String → ℕ → Txn (Unit {0})
finish_cancelled execution_id now = do
  row ← execution_row execution_id
  if execution_is_terminal row.status then pure tt else cancel_row execution_id row now

abbrev live : ℕ → Option LeaseRow → Bool
live now none = false
live now (some l) = ltb now l.expires_at

-- The request itself, of a row that has none
unfoldable pub note_cancellation : String → ExecutionRow → Option String → ℕ → Txn (Unit {0})
note_cancellation execution_id row reason now = do
  written ←
      update_execution execution_id (λ e. same_status e.status row.status)
        (λ e. record e {
          updated_at = now;
          cancellation_requested_at = some now;
          cancellation_reason = reason;
        })
  append_event execution_id EventKind.cancellation_requested now none none

unfoldable pub cancel_unowned : String → ℕ → Txn (Unit {0})
cancel_unowned execution_id now = do
  lease ← read (λ j. find execution_id j.leases)
  if live now lease then pure tt else finish_cancelled execution_id now

unfoldable pub request_open : String → ExecutionRow → Option String → ℕ → Txn (Unit {0})
request_open execution_id row reason now = do
  if is_none row.cancellation_requested_at
      then note_cancellation execution_id row reason now
      else pure tt
  cancel_unowned execution_id now

unfoldable pub request_cancellation : String → Option String → ℕ → Txn (Unit {0})
request_cancellation execution_id reason now = do
  row ← execution_row execution_id
  if execution_is_terminal row.status then pure tt else request_open execution_id row reason now

-- The part of `acknowledge_cancellation` for a row without a request
unfoldable pub request_by_owner : String → Option String → ℕ → Txn (Unit {0})
request_by_owner execution_id reason now = do
  written ←
      update_execution execution_id (λ e. true)
        (λ e. record e { cancellation_requested_at = some now; cancellation_reason = reason })
  append_event execution_id EventKind.cancellation_requested now none none

-- The rest of `acknowledge_cancellation`
unfoldable pub acknowledge : Claim → ℕ → Txn (Unit {0})
acknowledge claim now = do
  set_execution_status claim ExecutionStatus.cancelled now (failed_as FailureKind.cancelled) true
  delete_retry claim.execution_id
  append_event claim.execution_id EventKind.cancelled now none none

unfoldable pub acknowledge_cancellation : Claim → Option String → ℕ → Txn (Unit {0})
acknowledge_cancellation claim reason now = do
  row ← execution_row claim.execution_id
  if is_none row.cancellation_requested_at
      then request_by_owner claim.execution_id reason now
      else pure tt
  acknowledge claim now

unfoldable pub mark_waiting : Claim → ℕ → Txn (Unit {0})
mark_waiting claim now = do
  set_execution_status claim ExecutionStatus.waiting now no_step false
  append_event claim.execution_id EventKind.waiting now none none

unfoldable pub resume_row : String → ℕ → Txn (Unit {0})
resume_row execution_id now = do
  written ←
      update_execution execution_id (λ e. same_status e.status ExecutionStatus.waiting)
        (λ e. record e { status = ExecutionStatus.pending; updated_at = now })
  append_event execution_id EventKind.recovered now none none

unfoldable pub resume_waiting : String → ℕ → Txn (Unit {0})
resume_waiting execution_id now = do
  row ← execution_row execution_id
  if not (same_status row.status ExecutionStatus.waiting)
      then raise durable_state
      else resume_row execution_id now
