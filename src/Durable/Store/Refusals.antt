-- ===== src/Durable/Store/Refusals.antt =====
-- Every operation of src/xyberos/durable/store.py that a claim makes raises where the claim holds no
-- live lease: its statements carry the lease guard.
use xyberos.Prelude.{ℕ, String, ◌≡◌, Bool, false, Option, none, some, List, arith, string_eq}
use xyberos.Errors.{ok}
use xyberos.Durable.Models.{ExecutionStatus, StepState, FailureKind}
use xyberos.Durable.Rows.{ExecutionRow, StepRow, Claim, Journal, lease_guard}
use xyberos.Durable.Txn.{Txn, update_execution, append_event, update_lease}
use xyberos.Durable.Txn.Ensures.{Ensures, ensures_rules}
use xyberos.Durable.Txn.Blocked.{
  Blocked, Keeping, Keeping-preorder, Blocked-first, Blocked-then, Blocked-if,
}
use xyberos.Durable.Store.Writes.{
  Payloads, set_execution_status, set_step_state, explain_refused_write,
}
use xyberos.Durable.Store.Success.{set_execution_status-eq-ok, set_step_state-eq-ok}
use xyberos.Durable.Store.Claims.{renew_lease, release_lease}
use xyberos.Durable.Store.Steps.{
  start_step, start_attempt, complete_step, record_output, yield_execution, skip_step,
  time_out_execution, fail_step, fail_for_good, fail_and_retry, out_of_time,
  mark_step_outcome_unknown, resolve_step, record_resolution,
}
use xyberos.Durable.Store.Endings.{
  complete_execution, record_result, fail_execution, acknowledge_cancellation, acknowledge,
  request_by_owner, mark_waiting,
}

-- The claim holds no live lease at this reading of the clock.
abbrev pub IsLost : Claim → ℕ → Journal → Type 0
IsLost claim now j = lease_guard claim now j ≡ false

module _ (claim : Claim) (now : ℕ) where
  Blocked-set_execution_status :
      (target : ExecutionStatus) (extra : ExecutionRow → ExecutionRow) (allow : Bool)
      → Blocked (IsLost claim now) (set_execution_status claim target now extra allow)
  Blocked-set_execution_status target extra allow = record {
    at = λ j u k lost e.
        let w = set_execution_status-eq-ok claim target now extra allow j e in cc (w.guarded, lost);
  }

  Blocked-set_step_state :
      (step_id : String) (target : StepState) (extra : StepRow → StepRow) (sources : List StepState)
      → Blocked (IsLost claim now) (set_step_state claim step_id target now extra sources)
  Blocked-set_step_state step_id target extra sources = record {
    at = λ j u k lost e.
        let w = set_step_state-eq-ok claim step_id target now extra sources j e in
        cc (w.guarded, lost);
  }

ruleset fencing_rules = (
  Blocked-first, Blocked-then, Keeping-preorder, ensures_rules, Blocked-set_execution_status,
  Blocked-set_step_state,
)

module _ (claim : Claim) (now : ℕ) where
  pub Blocked-yield_execution : Blocked (IsLost claim now) (yield_execution claim now)
  unfolding yield_execution
  Blocked-yield_execution = search fencing_rules

  pub Blocked-time_out_execution : Blocked (IsLost claim now) (time_out_execution claim now)
  unfolding time_out_execution
  Blocked-time_out_execution = search fencing_rules

  pub Blocked-start_step :
      (step_id : String) (key : Option String)
      → Blocked (IsLost claim now) (start_step claim step_id key now)
  unfolding start_step start_attempt
  Blocked-start_step step_id key = search fencing_rules

  pub Blocked-complete_step :
      {V : Type 0} (p : Payloads V) (step_id : String) (output : V)
      → Blocked (IsLost claim now) (complete_step p claim step_id output now)
  unfolding complete_step record_output
  Blocked-complete_step p step_id output = search fencing_rules depth 8

  pub Blocked-skip_step :
      (step_id reason : String) → Blocked (IsLost claim now) (skip_step claim step_id reason now)
  unfolding skip_step
  Blocked-skip_step step_id reason = search fencing_rules

  pub Blocked-mark_step_outcome_unknown :
      (step_id reason : String)
      → Blocked (IsLost claim now) (mark_step_outcome_unknown claim step_id reason now)
  unfolding mark_step_outcome_unknown
  Blocked-mark_step_outcome_unknown step_id reason = search fencing_rules

  pub Blocked-resolve_step :
      {V : Type 0} (p : Payloads V) (step_id : String) (state : StepState) (output : V)
      (detail : Option String)
      → Blocked (IsLost claim now) (resolve_step p claim step_id state output detail now)
  unfolding resolve_step record_resolution
  Blocked-resolve_step p step_id state output detail = search fencing_rules depth 8

  pub Blocked-fail_for_good :
      (step_id error_type error_message : String) (reason : Option String)
      → Blocked (IsLost claim now) (fail_for_good claim step_id error_type error_message reason now)
  unfolding fail_for_good
  Blocked-fail_for_good step_id error_type error_message reason = search fencing_rules

  pub Blocked-fail_and_retry :
      (step_id error_type error_message : String) (retry_at : ℕ) (reason : Option String)
      → Blocked
          (IsLost claim now)
          (fail_and_retry claim step_id error_type error_message retry_at reason now)
  unfolding fail_and_retry
  Blocked-fail_and_retry step_id error_type error_message retry_at reason = search fencing_rules

  pub Blocked-complete_execution :
      {V : Type 0} (p : Payloads V) (outputs : V)
      → Blocked (IsLost claim now) (complete_execution p claim outputs now)
  unfolding complete_execution record_result
  Blocked-complete_execution p outputs = search fencing_rules

  pub Blocked-fail_execution :
      (kind : FailureKind) → Blocked (IsLost claim now) (fail_execution claim kind now)
  unfolding fail_execution
  Blocked-fail_execution kind = search fencing_rules

  pub Blocked-mark_waiting : Blocked (IsLost claim now) (mark_waiting claim now)
  unfolding mark_waiting
  Blocked-mark_waiting = search fencing_rules

  -- A request writes no lease.
  leases-request_by_owner :
      (i : String) (reason : Option String) (j : Journal) {u : Unit {0}} {k : Journal}
      → request_by_owner i reason now j ≡ ok (u, k)
      → k.leases ≡ j.leases
  unfolding request_by_owner update_execution append_event
  leases-request_by_owner i reason j h = ground arith

  Keeping-request_by_owner :
      (i : String) (reason : Option String)
      → Ensures (Keeping (IsLost claim now)) (request_by_owner i reason now)
  unfolding lease_guard
  Keeping-request_by_owner i reason = record {
    at = λ j e lost. rw (leases-request_by_owner i reason j e) lost;
  }

  pub Blocked-acknowledge : Blocked (IsLost claim now) (acknowledge claim now)
  unfolding acknowledge
  Blocked-acknowledge = search fencing_rules

  pub Blocked-renew_lease :
      (lease_ttl : ℕ) (ttl : Option ℕ)
      → Blocked (IsLost claim now) (renew_lease lease_ttl claim ttl now)
  unfolding renew_lease update_lease explain_refused_write lease_guard
  Blocked-renew_lease lease_ttl ttl = record { at = λ j c k lost e. ground (arith, lost) }

  pub Blocked-release_lease : Blocked (IsLost claim now) (release_lease claim now)
  unfolding release_lease update_lease explain_refused_write lease_guard
  Blocked-release_lease = record { at = λ j u k lost e. ground (arith, lost) }

module _ (claim : Claim) where
  pub Blocked-acknowledge_cancellation :
      (reason : Option String) (now : ℕ)
      → Blocked (IsLost claim now) (acknowledge_cancellation claim reason now)
  unfolding acknowledge_cancellation
  Blocked-acknowledge_cancellation reason now =
      search (fencing_rules, Blocked-acknowledge, Keeping-request_by_owner)

  weaker :
      {A : Type 0} (P Q : Journal → Type 0) (m : Txn A)
      → Blocked Q m
      → ((j : Journal) → P j → Q j)
      → Blocked P m
  weaker P Q m blocked h = record { at = λ j a k p e. blocked.at j a k (h j p) e }

  -- `fail_step` reads the clock again where the deadline has passed.
  abbrev pub IsLostTwice : ℕ → ℕ → Journal → Type 0
  IsLostTwice now later j = IsLost claim now j × IsLost claim later j

  pub Blocked-fail_step :
      (step_id error_type error_message : String) (retry_at : Option ℕ) (reason : Option String)
      (now later : ℕ)
      → Blocked
          (IsLostTwice now later)
          (fail_step claim step_id error_type error_message retry_at reason now later)
  unfolding fail_step
  Blocked-fail_step step_id error_type error_message none reason now later =
      Blocked-if (out_of_time claim.deadline_at none now) _ _
        (weaker (IsLostTwice now later) (IsLost claim later) _
          (Blocked-time_out_execution claim later) (λ j p. p.1))
        (weaker (IsLostTwice now later) (IsLost claim now) _
          (Blocked-fail_for_good claim now step_id error_type error_message reason) (λ j p. p.0))
  Blocked-fail_step step_id error_type error_message (some at) reason now later =
      Blocked-if (out_of_time claim.deadline_at (some at) now) _ _
        (weaker (IsLostTwice now later) (IsLost claim later) _
          (Blocked-time_out_execution claim later) (λ j p. p.1))
        (weaker (IsLostTwice now later) (IsLost claim now) _
          (Blocked-fail_and_retry claim now step_id error_type error_message at reason)
          (λ j p. p.0))
