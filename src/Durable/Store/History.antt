-- ===== src/Durable/Store/History.antt =====
-- Histories of the journal: any sequence of the operations of src/xyberos/durable/store.py, called by
-- any workers, operators and submitters, each in its own transaction.
pub mod Evolution
use xyberos.Prelude.{ℕ, String, Bool, Option, List, [], ◌∷◌, map}
use xyberos.Errors.{Result}
use xyberos.Durable.Models.{StepState, FailureKind}
use xyberos.Durable.Rows.{Journal, Claim}
use xyberos.Durable.Txn.{Txn, commit}
use xyberos.Durable.Store.Writes.{Payloads}
use xyberos.Durable.Store.Submission.{Submission, register_row, submit_row}
use xyberos.Durable.Store.Claims.{claim_next, renew_lease, release_lease, expire_deadlines}
use xyberos.Durable.Store.Steps.{
  start_step, complete_step, yield_execution, skip_step, time_out_execution, fail_step,
  mark_step_outcome_unknown, resolve_step,
}
use xyberos.Durable.Store.Endings.{
  complete_execution, fail_execution, request_cancellation, acknowledge_cancellation, mark_waiting,
  resume_waiting,
}

-- One call of a method of `JournalStore` that writes, with the clock reading that it takes. The
-- name of a worker is blank if the code's `owner.strip()` is empty.
pub data Call (V : Type 0) : Type 0 where
  registers : String → String → String → String → Call V
  submits : Submission → Call V
  claims : String → Option ℕ → Call V
  renews : Claim → Option ℕ → Call V
  releases : Claim → Call V
  expires : Call V
  starts : Claim → String → Option String → Call V
  completes_step : Claim → String → V → Call V
  yields : Claim → Call V
  skips : Claim → String → String → Call V
  fails_step : Claim → String → String → String → Option ℕ → Option String → ℕ → Call V
  doubts : Claim → String → String → Call V
  resolves : Claim → String → StepState → V → Option String → Call V
  completes : Claim → V → Call V
  fails : Claim → FailureKind → Call V
  times_out : Claim → Call V
  cancels : String → Option String → Call V
  acknowledges : Claim → Option String → Call V
  parks : Claim → Call V
  resumes : String → Option String → Call V

module _ {V : Type 0} (payloads : Payloads V) (blank : String → Bool) (lease_ttl : ℕ) where
  abbrev after : {A : Type 0} → Txn A → Journal → Journal
  after m j = (commit m j).1

  -- The journal after one call at the clock reading `now`
  unfoldable pub perform : Call V → ℕ → Journal → Journal
  unfolding commit
  perform (registers name version fingerprint metadata) now =
      after (register_row name version fingerprint metadata now)
  perform (submits s) now = after (submit_row s now)
  perform (claims owner ttl) now = after (claim_next blank lease_ttl owner ttl now)
  perform (renews claim ttl) now = after (renew_lease lease_ttl claim ttl now)
  perform (releases claim) now = after (release_lease claim now)
  perform expires now = after (expire_deadlines now)
  perform (starts claim step_id key) now = after (start_step claim step_id key now)
  perform (completes_step claim step_id output) now =
      after (complete_step payloads claim step_id output now)
  perform (yields claim) now = after (yield_execution claim now)
  perform (skips claim step_id reason) now = after (skip_step claim step_id reason now)
  perform (fails_step claim step_id error_type error_message retry_at reason later) now =
      after (fail_step claim step_id error_type error_message retry_at reason now later)
  perform (doubts claim step_id reason) now =
      after (mark_step_outcome_unknown claim step_id reason now)
  perform (resolves claim step_id state output detail) now =
      after (resolve_step payloads claim step_id state output detail now)
  perform (completes claim outputs) now = after (complete_execution payloads claim outputs now)
  perform (fails claim kind) now = after (fail_execution claim kind now)
  perform (times_out claim) now = after (time_out_execution claim now)
  perform (cancels execution_id reason) now = after (request_cancellation execution_id reason now)
  perform (acknowledges claim reason) now = after (acknowledge_cancellation claim reason now)
  perform (parks claim) now = after (mark_waiting claim now)
  perform (resumes execution_id reason) now = after (resume_waiting execution_id now)

  -- A history: calls with their clock readings, in the order of their transactions
  unfoldable pub replay : List (Call V × ℕ) → Journal → Journal
  replay [] j = j
  replay ((call, now) ∷ rest) j = replay rest (perform call now j)
