-- ===== src/Durable/Examples.antt =====
-- A small journal and a small workflow on which the witnesses of src/xyberos/durable run.
mod Store
mod Calls
mod Definitions
mod Outcomes
mod Planning
mod Submitting
mod Working
use xyberos.Prelude.{
  ℕ, String, Bool, true, false, Option, none, some, List, [], ◌∷◌, string_eq, ◌==◌,
}
use xyberos.Table.{Table}
use xyberos.Execution.Models.{Step, Edge, Workflow}
use xyberos.Durable.Models.{ExecutionStatus, StepState}
use xyberos.Durable.Rows.{ExecutionRow, StepRow, LeaseRow, DefinitionRow, Claim, Journal, empty}
use xyberos.Durable.Store.Writes.{Payloads}
use xyberos.Durable.Store.Submission.{Submission, new_execution, new_step}

abbrev pub payloads : Payloads String
payloads = record { dumps = λ v. some v; limit = 100 }

abbrev pub blank : String → Bool
blank owner = owner == ""

abbrev pub submission : Submission
submission = record {
  execution_id = "run";
  name = "flow";
  version = "1";
  fingerprint = "f";
  payload = "{}";
  step_ids = "load" ∷ "send" ∷ [];
  deadline = none;
}

abbrev pub pending_row : ExecutionRow
pending_row = new_execution submission 1

abbrev pub running_row : ExecutionRow
running_row = record pending_row { status = ExecutionStatus.running }

abbrev pub completed_row : ExecutionRow
completed_row = record pending_row { status = ExecutionStatus.completed; result = some "done" }

abbrev pub cancelling_row : ExecutionRow
cancelling_row = record running_row { cancellation_requested_at = some 3 }

abbrev pub lease : LeaseRow
lease = record { owner = "w"; fence = 2; acquired_at = 2; heartbeat_at = 2; expires_at = 12 }

abbrev pub claim : Claim
claim = record {
  execution_id = "run";
  owner = "w";
  fence = 2;
  workflow = "flow";
  version = "1";
  fingerprint = "f";
  input = "{}";
  execution_status = ExecutionStatus.running;
  expires_at = 12;
  deadline_at = none;
  cancellation_requested = false;
}

-- The claim that the lease's last takeover passed
abbrev pub old_claim : Claim
old_claim = record claim { owner = "v"; fence = 1 }

abbrev pub done_step : StepRow
done_step = record new_step { state = StepState.succeeded; attempts = 1; output = some "1" }

abbrev pub definition : DefinitionRow
definition = record { fingerprint = "f"; metadata = "{}"; registered_at = 0 }

abbrev pub journal : Journal
journal = record {
  definitions = (("flow", "1"), definition) ∷ [];
  executions =
      ("run", running_row)
      ∷ ("old", completed_row)
      ∷ ("stop", cancelling_row)
      ∷ ("next", pending_row)
      ∷ [];
  steps = (("run", "load"), done_step) ∷ (("run", "send"), new_step) ∷ [];
  leases = ("run", lease) ∷ [];
  retries = [];
  events = [];
}

-- `load`, then `send` or `drop` by its output
abbrev pub named : String → Step
named step_id = record { id = step_id; timeout = none }

abbrev pub is_one : Option String → Bool
is_one none = false
is_one (some v) = v == "1"

abbrev pub to_send : Edge String
to_send = record { source = "load"; target = "send"; when = some is_one }

abbrev pub to_drop : Edge String
to_drop = record { source = "load"; target = "drop"; when = none }

abbrev pub flow : Workflow String
flow = record {
  name = "flow";
  version = "1";
  steps = named "load" ∷ named "send" ∷ named "drop" ∷ [];
  edges = to_send ∷ to_drop ∷ [];
}

abbrev pub loaded : Table String StepState
loaded =
    ("load", StepState.succeeded) ∷ ("send", StepState.pending) ∷ ("drop", StepState.pending) ∷ []

abbrev pub all_done : Table String StepState
all_done =
    ("load", StepState.succeeded) ∷ ("send", StepState.succeeded) ∷ ("drop", StepState.skipped) ∷ []

abbrev pub recorded : Table String String
recorded = ("load", "1") ∷ []

abbrev pub as_is : List String → List String
as_is l = l
