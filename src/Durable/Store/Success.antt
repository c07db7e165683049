-- ===== src/Durable/Store/Success.antt =====
-- What a guarded write of src/xyberos/durable/store.py that returned has checked and written.
use xyberos.Prelude.{ℕ, String, ◌≡◌, ◌⊎◌, Bool, true, none, some, List, arith, string_eq, pair_eq}
use xyberos.Table.{find, update}
use xyberos.Errors.{ok}
use xyberos.Durable.Models.{
  ExecutionStatus, StepState, state_eq, execution_transition_allowed, step_transition_allowed,
  require_execution_transition, require_step_transition,
}
use xyberos.Durable.Models.Transitions.{allowed_only_from_running}
use xyberos.Execution.Models.{contains}
use xyberos.Durable.Rows.{ExecutionRow, StepRow, Claim, Journal, lease_guard}
use xyberos.Durable.Txn.{execution_row, step_row, update_execution, update_step}
use xyberos.Durable.Store.Writes.{
  set_execution_status, set_step_state, explain_refused_write, sources_or,
}

-- The execution's row was there in a status from which the table allows the move, no cancellation
-- stood against it, and the claim's lease was live; the row was written and nothing else.
pub record StatusSet (claim : Claim) (target : ExecutionStatus) (now : ℕ)
    (extra : ExecutionRow → ExecutionRow) (allow : Bool) (j k : Journal) : Type 0 where
  pub row : ExecutionRow
  pub found : find claim.execution_id j.executions ≡ some row
  pub legal : execution_transition_allowed row.status target ≡ true
  pub uncancelled : (allow ≡ true) ⊎ (row.cancellation_requested_at ≡ none)
  pub guarded : lease_guard claim now j ≡ true
  pub written : k ≡ record j {
    executions =
        update claim.execution_id
          (λ r. extra (record r { status = target; updated_at = now }))
          j.executions;
  }

pub set_execution_status-eq-ok :
    (claim : Claim) (target : ExecutionStatus) (now : ℕ) (extra : ExecutionRow → ExecutionRow)
    (allow : Bool) (j : Journal) {u : Unit {0}} {k : Journal}
    → set_execution_status claim target now extra allow j ≡ ok (u, k)
    → StatusSet claim target now extra allow j k
unfolding set_execution_status execution_row update_execution explain_refused_write
    require_execution_transition
set_execution_status-eq-ok claim target now extra allow j h = ground arith

-- A status write under a claim, `_set_execution_status`, that sets `completed` or `pending` and
-- returns has found the execution running, under the claim's live lease, and without a requested
-- cancellation unless the operation allows one.
pub set_execution_status-from_running :
    (claim : Claim) (target : ExecutionStatus) (now : ℕ) (extra : ExecutionRow → ExecutionRow)
    (allow : Bool) (j : Journal) (u : Unit {0}) (k : Journal)
    → (target ≡ ExecutionStatus.completed) ⊎ (target ≡ ExecutionStatus.pending)
    → set_execution_status claim target now extra allow j ≡ ok (u, k)
    → (row : ExecutionRow) × (find claim.execution_id j.executions ≡ some row)
      × (row.status ≡ ExecutionStatus.running)
      × (lease_guard claim now j ≡ true)
      × ((allow ≡ true) ⊎ (row.cancellation_requested_at ≡ none))
set_execution_status-from_running claim target now extra allow j u k which h =
    let set = set_execution_status-eq-ok claim target now extra allow j h in
    (
      set.row,
      set.found,
      allowed_only_from_running set.row.status target which set.legal,
      set.guarded,
      set.uncancelled,
    )

pub record StateSet (claim : Claim) (step_id : String) (target : StepState) (now : ℕ)
    (extra : StepRow → StepRow) (sources : List StepState) (j k : Journal) : Type 0 where
  pub row : StepRow
  pub found : find (claim.execution_id, step_id) j.steps ≡ some row
  pub legal : step_transition_allowed row.state target ≡ true
  pub source : contains row.state (sources_or row.state sources) ≡ true
  pub guarded : lease_guard claim now j ≡ true
  pub written : k ≡ record j {
    steps = update (claim.execution_id, step_id) (λ r. extra (record r { state = target })) j.steps;
  }

pub set_step_state-eq-ok :
    (claim : Claim) (step_id : String) (target : StepState) (now : ℕ) (extra : StepRow → StepRow)
    (sources : List StepState) (j : Journal) {u : Unit {0}} {k : Journal}
    → set_step_state claim step_id target now extra sources j ≡ ok (u, k)
    → StateSet claim step_id target now extra sources j k
unfolding set_step_state step_row update_step explain_refused_write require_step_transition
set_step_state-eq-ok claim step_id target now extra sources j h = ground arith
