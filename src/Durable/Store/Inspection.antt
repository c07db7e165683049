-- ===== src/Durable/Store/Inspection.antt =====
-- The queries of src/xyberos/durable/store.py on which the worker and the recovery act, as functions
-- of the journal.
use xyberos.Prelude.{
  ℕ, String, Bool, false, Option, none, some, List, [], ◌∷◌, map, leb, is_some, if◌then◌else◌, ◌==◌,
  ◌&&◌, string_eq,
}
use xyberos.Errors.{Result, ok, err, durable_state}
use xyberos.Table.{Table, find}
use xyberos.Execution.Models.{select}
use xyberos.Durable.Models.{ExecutionStatus, StepState, same_status, same_state}
use xyberos.Durable.Rows.{ExecutionRow, StepRow, LeaseRow, Journal}

-- SELECT … FROM execution_steps WHERE execution_id = …, with the step's id for the key
unfoldable pub rows_of : String → Table (String × String) StepRow → Table String StepRow
rows_of execution_id [] = []
rows_of execution_id (((owner, step_id), row) ∷ t) =
    let rest = rows_of execution_id t in
    if owner == execution_id then (step_id, row) ∷ rest else rest

abbrev pub state_entry : String × StepRow → String × StepState
state_entry (step_id, row) = (step_id, row.state)

unfoldable pub step_states : String → Journal → Table String StepState
unfolding rows_of
step_states execution_id j = map state_entry (rows_of execution_id j.steps)

abbrev has_state : StepState → String × StepRow → Bool
has_state state (step_id, row) = same_state row.state state

abbrev key : {A : Type 0} → String × A → String
key (step_id, row) = step_id

unfoldable pub running_steps : String → Journal → List String
unfolding rows_of
running_steps execution_id j =
    map key (select (has_state StepState.running) (rows_of execution_id j.steps))

-- `_load`, which is `None` for NULL: `loads` is `json.loads`.
abbrev pub load : {V : Type 0} → V → (String → V) → Option String → V
load null loads none = null
load null loads (some payload) = loads payload

unfoldable pub output_entry : {V : Type 0} → V → (String → V) → String × StepRow → String × V
output_entry null loads (step_id, row) = (step_id, load null loads row.output)

unfoldable pub completed_outputs :
    {V : Type 0} → V → (String → V) → String → Journal → Table String V
unfolding rows_of output_entry
completed_outputs null loads execution_id j =
    map (output_entry null loads)
      (select (has_state StepState.succeeded) (rows_of execution_id j.steps))

abbrev requested : Option ExecutionRow → Result Bool
requested none = err durable_state
requested (some row) = ok (is_some row.cancellation_requested_at)

unfoldable pub cancellation_requested : String → Journal → Result Bool
cancellation_requested execution_id j = requested (find execution_id j.executions)

-- The status in `inspect`, which raises where the execution is not there
abbrev status_of : Option ExecutionRow → Result ExecutionStatus
status_of none = err durable_state
status_of (some row) = ok row.status

unfoldable pub inspected_status : String → Journal → Result ExecutionStatus
inspected_status execution_id j = status_of (find execution_id j.executions)

abbrev is_running : Option ExecutionRow → Bool
is_running none = false
is_running (some row) = same_status row.status ExecutionStatus.running

-- The rows of `expired_leases`, before ORDER BY
unfoldable pub orphaned : Journal → ℕ → Table String LeaseRow → Table String LeaseRow
orphaned j now [] = []
orphaned j now ((execution_id, lease) ∷ t) =
    let rest = orphaned j now t in
    if leb lease.expires_at now && is_running (find execution_id j.executions)
    then (execution_id, lease) ∷ rest
    else rest

-- ORDER BY l.expires_at, by insertion
unfoldable pub insert_by_expiry : String × LeaseRow → Table String LeaseRow → Table String LeaseRow
insert_by_expiry (i, lease) [] = (i, lease) ∷ []
insert_by_expiry (i, lease) ((k, other) ∷ t) =
    if leb lease.expires_at other.expires_at
    then (i, lease) ∷ (k, other) ∷ t
    else (k, other) ∷ insert_by_expiry (i, lease) t

unfoldable pub by_expiry : Table String LeaseRow → Table String LeaseRow
by_expiry [] = []
by_expiry (entry ∷ t) = insert_by_expiry entry (by_expiry t)

unfoldable pub expired_leases : ℕ → Journal → List String
unfolding orphaned by_expiry insert_by_expiry
expired_leases now j = map key (by_expiry (orphaned j now j.leases))
