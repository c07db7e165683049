-- ===== src/Durable/Scheduler/Validated.antt =====
-- The scheduler of src/xyberos/durable/scheduler.py on definitions that passed
-- src/xyberos/execution/validation.py.
use xyberos.Prelude.{String, ◌≡◌, Bool, List}
use xyberos.Errors.{ok}
use xyberos.Table.{Table}
use xyberos.Execution.Models.{Workflow}
use xyberos.Execution.Validation.{validate_steps, validate_edges}
use xyberos.Execution.Validation.Acyclic.{validate_acyclic}
use xyberos.Execution.Validation.Acyclic.Decides.{validate_acyclic_iff}
use xyberos.Durable.Models.{StepState}
use xyberos.Durable.Scheduler.{Plan, plan_next}
use xyberos.Durable.Scheduler.Progress.{plan_next-total}

-- For a definition that passed the checks of its steps, its edges and its cycles, `plan_next` returns
-- a plan, whatever states and outputs are persisted.
pub plan_next-validated :
    {V : Type 0} (sorted : List String → List String) (blank : String → Bool) (w : Workflow V)
    (states : Table String StepState) (outputs : Table String V)
    → validate_steps blank w ≡ ok tt
    → validate_edges w ≡ ok tt
    → validate_acyclic w ≡ ok tt
    → (p : Plan V) × (plan_next sorted w states outputs ≡ ok p)
plan_next-validated sorted blank w states outputs steps edges acyclic =
    let (rank, ranked) = (validate_acyclic_iff blank w steps edges).0 acyclic in
    plan_next-total sorted w states outputs rank ranked
