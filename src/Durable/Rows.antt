-- ===== src/Durable/Rows.antt =====
-- The schema of src/xyberos/durable/journal.py: one record for a row of each table, its primary
-- key left out, and the journal, which holds the tables. Of the columns, only the texts
-- `executions.failure_message` and `execution_events.detail` are left out: no code reads them.
use xyberos.Prelude.{
  ℕ, String, Option, none, some, List, [], Bool, false, ltb, nat_beq, ◌&&◌, ◌==◌, string_eq,
}
use xyberos.Table.{Table, find}
use xyberos.Durable.Models.{ExecutionStatus, StepState, FailureKind, EventKind}

pub record ExecutionRow : Type 0 where
  pub workflow : String
  pub version : String
  pub fingerprint : String
  pub status : ExecutionStatus
  pub input : String
  pub result : Option String
  pub failure_kind : Option FailureKind
  pub current_step : Option String
  pub attempts : ℕ
  pub submitted_at : ℕ
  pub updated_at : ℕ
  pub deadline_at : Option ℕ
  pub cancellation_requested_at : Option ℕ
  pub cancellation_reason : Option String

pub record StepRow : Type 0 where
  pub state : StepState
  pub state_detail : Option String
  pub attempts : ℕ
  pub output : Option String
  pub error_type : Option String
  pub error_message : Option String
  pub started_at : Option ℕ
  pub finished_at : Option ℕ
  pub idempotency_key : Option String

pub record LeaseRow : Type 0 where
  pub owner : String
  pub fence : ℕ
  pub acquired_at : ℕ
  pub heartbeat_at : ℕ
  pub expires_at : ℕ

pub record RetryRow : Type 0 where
  pub step_id : String
  pub attempt : ℕ
  pub due_at : ℕ
  pub error_type : Option String
  pub reason : Option String

pub record EventRow : Type 0 where
  pub execution_id : String
  pub kind : EventKind
  pub step_id : Option String
  pub attempt : Option ℕ
  pub at : ℕ

pub record DefinitionRow : Type 0 where
  pub fingerprint : String
  pub metadata : String
  pub registered_at : ℕ

pub record Journal : Type 0 where
  -- by (workflow, version)
  pub definitions : Table (String × String) DefinitionRow
  -- by execution_id
  pub executions : Table String ExecutionRow
  -- by (execution_id, step_id)
  pub steps : Table (String × String) StepRow
  pub leases : Table String LeaseRow
  pub retries : Table String RetryRow
  pub events : List EventRow

abbrev pub empty : Journal
empty = record {
  definitions = [];
  executions = [];
  steps = [];
  leases = [];
  retries = [];
  events = [];
}

-- `Claim` of src/xyberos/durable/models.py. `input` is the persisted text: `json.loads` is not
-- modelled.
pub record Claim : Type 0 where
  pub execution_id : String
  pub owner : String
  pub fence : ℕ
  pub workflow : String
  pub version : String
  pub fingerprint : String
  pub input : String
  pub execution_status : ExecutionStatus
  pub expires_at : ℕ
  pub deadline_at : Option ℕ
  pub cancellation_requested : Bool

-- `_LEASE_GUARD`, of the lease row of the claim's execution
abbrev pub holds : Claim → ℕ → Option LeaseRow → Bool
holds claim now none = false
holds claim now (some lease) =
    lease.owner == claim.owner && (nat_beq lease.fence claim.fence && ltb now lease.expires_at)

unfoldable pub lease_guard : Claim → ℕ → Journal → Bool
lease_guard claim now j = holds claim now (find claim.execution_id j.leases)
