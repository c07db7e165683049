-- ===== src/Durable/Store/Writes.antt =====
-- The guarded writes of src/xyberos/durable/store.py on which every operation of a claim is built:
-- `_explain_refused_write`, `_release_lease`, `_set_execution_status`, `_set_step_state`, `_dump`.
use Prim.Native.String.{len}
use xyberos.Prelude.{
  ℕ, String, Bool, false, not, ◌&&◌, ◌||◌, Option, none, some, List, [], ◌∷◌, is_none, is_some, ltb,
  nat_beq, if◌then◌else◌, ◌==◌, string_eq, pair_eq,
}
use xyberos.Errors.{
  Error, durable_state, durable_lease, durable_payload, missing, taken, expired, Result, ok, err,
}
use xyberos.Table.{find}
use xyberos.Durable.Models.{
  ExecutionStatus, StepState, same_status, state_eq, require_execution_transition,
  require_step_transition,
}
use xyberos.Execution.Models.{contains}
use xyberos.Durable.Rows.{ExecutionRow, StepRow, LeaseRow, Journal, Claim, lease_guard}
use xyberos.Durable.Txn.{
  Txn, pure, lift, read, ◌>>=◌, ◌>>◌, execution_row, step_row, update_execution, update_step,
  update_lease,
}

-- What `json.dumps` makes of a value: `none` where the value is not JSON-serializable. The limit
-- is `max_payload_bytes`. The text is ASCII, so that its length is its size in bytes.
pub record Payloads (V : Type 0) : Type 0 where
  pub dumps : V → Option String
  pub limit : ℕ

unfoldable pub dump : {V : Type 0} → Payloads V → V → Result String
dump p value = elim (p.dumps value) [
  | none ↦ err durable_payload
  | some text_value ↦ if ltb p.limit (len text_value) then err durable_payload else ok text_value
]

abbrev pub lease_problem : Claim → Option LeaseRow → Error
lease_problem claim none = durable_lease missing
lease_problem claim (some lease) =
    if not (lease.owner == claim.owner) || not (nat_beq lease.fence claim.fence)
    then durable_lease taken
    else durable_lease expired

unfoldable pub refusal : Claim → Bool → Journal → Error
refusal claim allow_cancelled j = elim (find claim.execution_id j.executions) [
  | none ↦ durable_state
  | some row ↦
      if is_some row.cancellation_requested_at && not allow_cancelled
      then durable_state
      else lease_problem claim (find claim.execution_id j.leases)
]

-- `_explain_refused_write` always raises.
unfoldable pub explain_refused_write : Claim → Bool → Txn (Unit {0})
explain_refused_write claim allow_cancelled j = err (refusal claim allow_cancelled j)

unfoldable pub release_owned_lease : Claim → ℕ → Txn (Unit {0})
release_owned_lease claim now = do
  written ←
      update_lease claim.execution_id (λ l. l.owner == claim.owner && nat_beq l.fence claim.fence)
        (λ l. record l { expires_at = now })
  pure tt

-- The WHERE clause: the status that was read, no cancellation request unless that is allowed, and
-- the lease guard
abbrev pub in_status : ExecutionStatus → Bool → Bool → ExecutionRow → Bool
in_status source allow_cancelled guarded r =
    same_status r.status source
    && ((allow_cancelled || is_none r.cancellation_requested_at) && guarded)

unfoldable pub set_execution_status :
    Claim → ExecutionStatus → ℕ → (ExecutionRow → ExecutionRow) → Bool → Txn (Unit {0})
set_execution_status claim target now extra allow_cancelled = do
  row ← execution_row claim.execution_id
  let source = row.status
  lift (require_execution_transition source target)
  guarded ← read (lease_guard claim now)
  written ←
      update_execution claim.execution_id (in_status source allow_cancelled guarded)
        (λ r. extra (record r { status = target; updated_at = now }))
  if written then pure tt else explain_refused_write claim allow_cancelled

abbrev pub in_state : List StepState → Bool → StepRow → Bool
in_state sources guarded r = contains r.state sources && guarded

abbrev pub sources_or : StepState → List StepState → List StepState
sources_or source [] = source ∷ []
sources_or source (s ∷ ss) = s ∷ ss

-- `allowed_sources`: the states from which the caller allows the move, or `[]` for the one that was read
unfoldable pub set_step_state :
    Claim → String → StepState → ℕ → (StepRow → StepRow) → List StepState → Txn (Unit {0})
set_step_state claim step_id target now extra allowed_sources = do
  row ← step_row claim.execution_id step_id
  let source = row.state
  lift (require_step_transition source target)
  guarded ← read (lease_guard claim now)
  written ←
      update_step claim.execution_id step_id (in_state (sources_or source allowed_sources) guarded)
        (λ r. extra (record r { state = target }))
  if written then pure tt else explain_refused_write claim false
