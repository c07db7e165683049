-- ===== src/Durable/Store/Evolution/Endings.antt =====
-- Terminal transitions and parking of src/xyberos/durable/store.py respect `Evolves`.
use xyberos.Prelude.{ℕ, String, ◌≡◌, refl, true, false, none, some, arith, string_eq}
use xyberos.Durable.Models.{
  ExecutionStatus, FailureKind, EventKind, same_status, execution_is_terminal,
}
use xyberos.Durable.Rows.{Claim}
use xyberos.Durable.Txn.Ensures.{Ensures, Ensures-bind}
use xyberos.Durable.Store.Writes.{Payloads, set_execution_status}
use xyberos.Durable.Store.Endings.{
  record_result, complete_execution, fail_execution, mark_waiting, resume_row, resume_waiting,
}
use xyberos.Durable.Store.Evolution.{Evolves, Evolves-preorder, ExecutionEvolves-refl}
use xyberos.Durable.Store.Evolution.Primitives.{
  Ensures-update_execution, Ensures-append_event, evolution_rules,
}
use xyberos.Durable.Store.Evolution.Guarded.{Sets, Ensures-set_execution_status}
use xyberos.Durable.Store.Evolution.Steps.{step_rules}

Sets-result :
    (payload : String) → Sets (λ e. record e { result = some payload; current_step = none })
Sets-result payload target now e = (
  record {
    workflow = refl;
    version = refl;
    fingerprint = refl;
    input = refl;
    submitted_at = refl;
    deadline_at = refl;
    cancellation_requested_at = refl;
  },
  refl,
)

Ensures-set_completed :
    (claim : Claim) (now : ℕ) (payload : String)
    → Ensures Evolves (
        set_execution_status claim ExecutionStatus.completed now
          (λ e. record e { result = some payload; current_step = none })
          false)
Ensures-set_completed claim now payload =
    Ensures-set_execution_status claim ExecutionStatus.completed now _ (Sets-result payload) false
      (λ e. refl)

pub Ensures-complete_execution :
    {V : Type 0} (p : Payloads V) (claim : Claim) (outputs : V) (now : ℕ)
    → Ensures Evolves (complete_execution p claim outputs now)
unfolding complete_execution record_result
Ensures-complete_execution p claim outputs now =
    search (evolution_rules, Ensures-set_completed) depth 7

pub Ensures-fail_execution :
    (claim : Claim) (kind : FailureKind) (now : ℕ) → Ensures Evolves (fail_execution claim kind now)
unfolding fail_execution
Ensures-fail_execution claim kind now = search step_rules

pub Ensures-mark_waiting : (claim : Claim) (now : ℕ) → Ensures Evolves (mark_waiting claim now)
unfolding mark_waiting
Ensures-mark_waiting claim now = search step_rules

waiting_is_open :
    (s : ExecutionStatus)
    → same_status s ExecutionStatus.waiting ≡ true
    → execution_is_terminal s ≡ false
unfolding execution_is_terminal
waiting_is_open s h = ground arith

-- A parked execution may be set back to the ready queue.
Ensures-resume_row : (i : String) (now : ℕ) → Ensures Evolves (resume_row i now)
unfolding resume_row
Ensures-resume_row i now =
    let p = Evolves-preorder in
    Ensures-bind p _ _
      (Ensures-update_execution i (λ e. same_status e.status ExecutionStatus.waiting) _
        λ e passed.
          let same = ExecutionEvolves-refl e in
          record {
            workflow = refl;
            version = refl;
            fingerprint = refl;
            input = refl;
            submitted_at = refl;
            deadline_at = refl;
            final = λ t. cc (waiting_is_open e.status passed);
            requested = same.requested;
            not_completed = λ t c. cc;
          })
      λ written. Ensures-append_event i EventKind.recovered now none none

pub Ensures-resume_waiting : (i : String) (now : ℕ) → Ensures Evolves (resume_waiting i now)
unfolding resume_waiting
Ensures-resume_waiting i now = search (evolution_rules, Ensures-resume_row)
