-- ===== src/Durable/Store/Evolution/Steps.antt =====
-- The step transitions of src/xyberos/durable/store.py respect `Evolves`.
use xyberos.Prelude.{
  subst, sym, string_eq, pair_eq, ℕ, ◌+◌, ◌≤◌, String, ◌≡◌, refl, false, Option, none, some, arith,
}
use xyberos.Table.{find}
use xyberos.Errors.{ok}
use native.Mathlib.Nat.{le_refl}
use xyberos.Durable.Models.{ExecutionStatus, StepState, FailureKind}
use xyberos.Durable.Rows.{ExecutionRow, StepRow, Claim, Journal}
use xyberos.Durable.Txn.{step_row}
use xyberos.Durable.Txn.Ensures.{Ensures, >>=-eq-ok}
use xyberos.Durable.Store.Writes.{Payloads, set_execution_status, set_step_state}
use xyberos.Durable.Store.Steps.{
  no_step, failed_as, started, announce_start, startable, start_attempt, start_step, record_output,
  complete_step, yield_execution, skip_step, time_out_execution, fail_for_good, fail_and_retry,
  fail_step, mark_step_outcome_unknown, record_resolution, resolve_step,
}
use xyberos.Durable.Store.Evolution.{
  Evolves, Evolves-trans, ExecutionEvolves, ExecutionEvolves-refl,
}
use xyberos.Durable.Store.Evolution.Primitives.{
  Ensures-update_execution, Ensures-update_lease, evolution_rules,
}
use xyberos.Durable.Store.Evolution.Guarded.{
  Kept, Sets, set_step_state-Evolves, Ensures-set_execution_status, Ensures-set_step_state,
  Ensures-explain_refused_write, Ensures-release_owned_lease,
}

pub Sets-no_step : Sets no_step
Sets-no_step target now e = (
  record {
    workflow = refl;
    version = refl;
    fingerprint = refl;
    input = refl;
    submitted_at = refl;
    deadline_at = refl;
    cancellation_requested_at = refl;
  },
  refl,
)

pub Sets-failed_as : (kind : FailureKind) → Sets (failed_as kind)
Sets-failed_as kind target now e = (
  record {
    workflow = refl;
    version = refl;
    fingerprint = refl;
    input = refl;
    submitted_at = refl;
    deadline_at = refl;
    cancellation_requested_at = refl;
  },
  refl,
)

pub Ensures-set_no_step :
    (claim : Claim) (target : ExecutionStatus) (now : ℕ)
    → Ensures Evolves (set_execution_status claim target now no_step false)
Ensures-set_no_step claim target now =
    Ensures-set_execution_status claim target now no_step Sets-no_step false (λ e. refl)

pub Ensures-set_failed_as :
    (claim : Claim) (target : ExecutionStatus) (now : ℕ) (kind : FailureKind)
    → Ensures Evolves (set_execution_status claim target now (failed_as kind) false)
Ensures-set_failed_as claim target now kind =
    Ensures-set_execution_status claim target now (failed_as kind) (Sets-failed_as kind) false
      (λ e. refl)

pub Ensures-yield_execution :
    (claim : Claim) (now : ℕ) → Ensures Evolves (yield_execution claim now)
unfolding yield_execution
Ensures-yield_execution claim now =
    search (evolution_rules, Ensures-set_no_step, Ensures-release_owned_lease)

pub Ensures-time_out_execution :
    (claim : Claim) (now : ℕ) → Ensures Evolves (time_out_execution claim now)
unfolding time_out_execution
Ensures-time_out_execution claim now = search (evolution_rules, Ensures-set_failed_as)

pub ruleset step_rules = (
  evolution_rules, Ensures-set_no_step, Ensures-set_failed_as, Ensures-release_owned_lease,
  Ensures-set_step_state, Ensures-explain_refused_write, le_refl,
)

pub Ensures-fail_for_good :
    (claim : Claim) (step_id error_type error_message : String) (reason : Option String) (now : ℕ)
    → Ensures Evolves (fail_for_good claim step_id error_type error_message reason now)
unfolding fail_for_good
Ensures-fail_for_good claim step_id error_type error_message reason now = search step_rules depth 12

pub Ensures-fail_and_retry :
    (claim : Claim) (step_id error_type error_message : String) (retry_at : ℕ)
    (reason : Option String) (now : ℕ)
    → Ensures Evolves (fail_and_retry claim step_id error_type error_message retry_at reason now)
unfolding fail_and_retry
Ensures-fail_and_retry claim step_id error_type error_message retry_at reason now =
    search step_rules depth 12

pub Ensures-fail_step :
    (claim : Claim) (step_id error_type error_message : String) (retry_at : Option ℕ)
    (reason : Option String) (now later : ℕ)
    → Ensures Evolves (fail_step claim step_id error_type error_message retry_at reason now later)
unfolding fail_step
Ensures-fail_step claim step_id error_type error_message none reason now later =
    search (step_rules, Ensures-time_out_execution, Ensures-fail_for_good)
Ensures-fail_step claim step_id error_type error_message (some at) reason now later =
    search (step_rules, Ensures-time_out_execution, Ensures-fail_and_retry)

pub Ensures-skip_step :
    (claim : Claim) (step_id reason : String) (now : ℕ)
    → Ensures Evolves (skip_step claim step_id reason now)
unfolding skip_step
Ensures-skip_step claim step_id reason now = search step_rules depth 9

pub Ensures-mark_step_outcome_unknown :
    (claim : Claim) (step_id reason : String) (now : ℕ)
    → Ensures Evolves (mark_step_outcome_unknown claim step_id reason now)
unfolding mark_step_outcome_unknown
Ensures-mark_step_outcome_unknown claim step_id reason now = search step_rules depth 9

pub Ensures-resolve_step :
    {V : Type 0} (p : Payloads V) (claim : Claim) (step_id : String) (state : StepState)
    (output : V) (detail : Option String) (now : ℕ)
    → Ensures Evolves (resolve_step p claim step_id state output detail now)
unfolding resolve_step record_resolution
Ensures-resolve_step p claim step_id state output detail now = search step_rules depth 7

pub touched :
    (e : ExecutionRow) (step : Option String) (n now : ℕ)
    → ExecutionEvolves e (record e { current_step = step; attempts = n; updated_at = now })
touched e step n now =
    let same = ExecutionEvolves-refl e in
    record {
      workflow = refl;
      version = refl;
      fingerprint = refl;
      input = refl;
      submitted_at = refl;
      deadline_at = refl;
      final = same.final;
      requested = same.requested;
      not_completed = same.not_completed;
    }

pub Ensures-complete_step :
    {V : Type 0} (p : Payloads V) (claim : Claim) (step_id : String) (output : V) (now : ℕ)
    → Ensures Evolves (complete_step p claim step_id output now)
unfolding complete_step record_output
Ensures-complete_step p claim step_id output now =
    search (step_rules, touched, Ensures-update_execution) depth 8

Ensures-announce_start :
    (claim : Claim) (step_id : String) (attempt now : ℕ)
    → Ensures Evolves (announce_start claim step_id attempt now)
unfolding announce_start
Ensures-announce_start claim step_id attempt now =
    search (step_rules, touched, Ensures-update_execution) depth 8

step_row-eq-ok :
    (i s : String) (j : Journal) {row : StepRow} {k : Journal}
    → step_row i s j ≡ ok (row, k)
    → (find (i, s) j.steps ≡ some row) × (j ≡ k)
unfolding step_row
step_row-eq-ok i s j h = ground arith

start_attempt-Evolves :
    (claim : Claim) (step_id : String) (key : Option String) (attempt now : ℕ) (j k : Journal)
    {n : ℕ} (row : StepRow)
    → find (claim.execution_id, step_id) j.steps ≡ some row
    → row.attempts ≤ attempt
    → start_attempt claim step_id key attempt now j ≡ ok (n, k)
    → Evolves j k
unfolding start_attempt
start_attempt-Evolves claim step_id key attempt now j k row found counts h =
    let (u, m, wrote, announced) =
      >>=-eq-ok
        (set_step_state claim step_id StepState.running now (started attempt key now) startable)
        (λ u. announce_start claim step_id attempt now) j h in
    Evolves-trans j m k
      (set_step_state-Evolves claim step_id StepState.running now (started attempt key now)
        startable j (λ s f. grind (arith, f, found, counts)) wrote)
      ((Ensures-announce_start claim step_id attempt now).at m announced)

pub Ensures-start_step :
    (claim : Claim) (step_id : String) (key : Option String) (now : ℕ)
    → Ensures Evolves (start_step claim step_id key now)
unfolding start_step
Ensures-start_step claim step_id key now = record {
  at = λ j {a = n} {j' = l} h.
      let attempt = λ (row : StepRow). start_attempt claim step_id key (row.attempts + 1) now in
      let (row, k, selected, rest) = >>=-eq-ok (step_row claim.execution_id step_id) attempt j h in
      let (found, unchanged) = step_row-eq-ok claim.execution_id step_id j selected in
      start_attempt-Evolves claim step_id key (row.attempts + 1) now j l row found (omega arith)
        (subst (λ k. attempt row k ≡ ok (n, l)) (sym unchanged) rest);
}
