-- ===== src/Durable/Store/Submission.antt =====
-- Definitions and submission of src/xyberos/durable/store.py: `definition_fingerprint`,
-- `register_definition` and `submit`. Three things that the code calls are parameters: the hash of
-- the JSON text of a definition's shape, `uuid4`, and Python's `sorted` on texts.
use xyberos.Prelude.{
  ℕ, String, Bool, not, ◌&&◌, Option, none, some, List, [], ◌∷◌, map, is_some, if◌then◌else◌, ◌==◌,
  string_eq, pair_eq,
}
use xyberos.Errors.{Result, ok, err, durable_version, durable_conflict}
use xyberos.Table.{find}
use xyberos.Execution.Models.{Workflow, incoming}
use xyberos.Durable.Models.{ExecutionStatus, StepState, EventKind}
use xyberos.Durable.Rows.{ExecutionRow, StepRow, DefinitionRow, Journal}
use xyberos.Durable.Txn.{
  Txn, commit, pure, raise, read, ◌>>=◌, ◌>>◌, insert_definition, insert_execution, insert_step,
  append_event,
}

-- `payload` of `definition_fingerprint`: what the fingerprint sees of a definition
pub record StepShape : Type 0 where
  pub id : String
  pub timeout : Option ℕ
  pub sources : List String

pub record EdgeShape : Type 0 where
  pub source : String
  pub target : String
  pub conditioned : Bool

pub record Shape : Type 0 where
  pub name : String
  pub version : String
  pub steps : List StepShape
  pub edges : List EdgeShape

unfoldable pub shape : {V : Type 0} → (List String → List String) → Workflow V → Shape
shape sorted w = record {
  name = w.name;
  version = w.version;
  steps =
      map
        (λ s. record {
          id = s.id;
          timeout = s.timeout;
          sources = sorted (map (λ e. e.source) (incoming w s.id));
        })
        w.steps;
  edges =
      map (λ e. record { source = e.source; target = e.target; conditioned = is_some e.when })
        w.edges;
}

unfoldable pub definition_fingerprint :
    {V : Type 0} → (List String → List String) → (Shape → String) → Workflow V → String
unfolding shape
definition_fingerprint sorted digest w = digest (shape sorted w)

abbrev pub register_found :
    String → String → String → String → ℕ → Option DefinitionRow → Txn String
register_found name version fingerprint metadata now none = do
  insert_definition name version
      (record { fingerprint = fingerprint; metadata = metadata; registered_at = now })
  pure fingerprint
register_found name version fingerprint metadata now (some existing) =
    if not (existing.fingerprint == fingerprint) then raise durable_version else pure fingerprint

-- The transaction of `register_definition`, on the dumped metadata
unfoldable pub register_row : String → String → String → String → ℕ → Txn String
register_row name version fingerprint metadata now = do
  existing ← read (λ j. find (name, version) j.definitions)
  register_found name version fingerprint metadata now existing

pub record ExecutionHandle : Type 0 where
  pub execution_id : String
  pub workflow : String
  pub version : String
  pub status : ExecutionStatus

-- What a submission writes, worked out before its transaction
pub record Submission : Type 0 where
  pub execution_id : String
  pub name : String
  pub version : String
  pub fingerprint : String
  pub payload : String
  pub step_ids : List String
  pub deadline : Option ℕ

abbrev pub new_execution : Submission → ℕ → ExecutionRow
new_execution s now = record {
  workflow = s.name;
  version = s.version;
  fingerprint = s.fingerprint;
  status = ExecutionStatus.pending;
  input = s.payload;
  result = none;
  failure_kind = none;
  current_step = none;
  attempts = 0;
  submitted_at = now;
  updated_at = now;
  deadline_at = s.deadline;
  cancellation_requested_at = none;
  cancellation_reason = none;
}

abbrev pub new_step : StepRow
new_step = record {
  state = StepState.pending;
  state_detail = none;
  attempts = 0;
  output = none;
  error_type = none;
  error_message = none;
  started_at = none;
  finished_at = none;
  idempotency_key = none;
}

-- `same` of `submit`
abbrev pub same_work : Submission → ExecutionRow → Bool
same_work s row =
    row.workflow == s.name
    && (row.version == s.version && (row.fingerprint == s.fingerprint && row.input == s.payload))

abbrev pub handle_of : Submission → ExecutionRow → ExecutionHandle
handle_of s row = record {
  execution_id = s.execution_id;
  workflow = row.workflow;
  version = row.version;
  status = row.status;
}

unfoldable pub insert_steps : String → List String → Txn (Unit {0})
insert_steps execution_id [] = pure tt
insert_steps execution_id (k ∷ ks) = do
  insert_step execution_id k new_step
  insert_steps execution_id ks

unfoldable pub insert_submission : Submission → ℕ → Txn ExecutionHandle
insert_submission s now = do
  insert_execution s.execution_id (new_execution s now)
  insert_steps s.execution_id s.step_ids
  append_event s.execution_id EventKind.submitted now none none
  pure (handle_of s (new_execution s now))

abbrev pub submit_found : Submission → ℕ → Option ExecutionRow → Txn ExecutionHandle
submit_found s now none = insert_submission s now
submit_found s now (some existing) =
    if not (same_work s existing) then raise durable_conflict else pure (handle_of s existing)

-- The second transaction of `submit`
unfoldable pub submit_row : Submission → ℕ → Txn ExecutionHandle
submit_row s now = do
  existing ← read (λ j. find s.execution_id j.executions)
  submit_found s now existing

-- Of `submit`, the second transaction runs where `register_definition` returned; `others` is what
-- other callers do to the journal between the two transactions.
abbrev pub then_submit :
    (Journal → Journal)
    → Submission
    → ℕ
    → Result String × Journal
    → Result ExecutionHandle × Journal
then_submit others s now (ok fingerprint, j) = commit (submit_row s now) (others j)
then_submit others s now (err e, j) = (err e, j)

-- `submit`, on the dumped metadata and input: two transactions, each with its own clock reading
unfoldable pub submit :
    (Journal → Journal) → Submission → String → ℕ → ℕ → Journal → Result ExecutionHandle × Journal
submit others s metadata now later j =
    then_submit others s later (commit (register_row s.name s.version s.fingerprint metadata now) j)
