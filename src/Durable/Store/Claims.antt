-- ===== src/Durable/Store/Claims.antt =====
-- Claims of src/xyberos/durable/store.py: `claim_next`, `renew_lease`, `release_lease` and
-- `expire_deadlines`. Times are microseconds; `lease_ttl` is the journal's default lease lifetime.
use xyberos.Prelude.{
  ℕ, ◌+◌, String, Bool, true, false, not, ◌&&◌, ◌||◌, Option, none, some, List, [], ◌∷◌, is_none,
  ltb, leb, nat_beq, if◌then◌else◌, ◌==◌, string_eq,
}
use xyberos.Errors.{durable_state, durable_lease, missing}
use xyberos.Table.{Table, find}
use xyberos.Durable.Models.{
  ExecutionStatus, FailureKind, EventKind, same_status, execution_is_terminal,
}
use xyberos.Durable.Rows.{ExecutionRow, LeaseRow, RetryRow, Journal, Claim}
use xyberos.Durable.Txn.{
  Txn, pure, raise, read, or_raise, ◌>>=◌, ◌>>◌, execution_row, update_execution, update_lease,
  upsert_lease, delete_retry, append_event,
}
use xyberos.Durable.Store.Writes.{explain_refused_write}

-- `ttl`, or the default
abbrev pub lifetime : ℕ → Option ℕ → ℕ
lifetime lease_ttl none = lease_ttl
lifetime lease_ttl (some ttl) = ttl

abbrev pub is_ready : ExecutionStatus → Bool
is_ready s = same_status s ExecutionStatus.pending || same_status s ExecutionStatus.retrying

abbrev pub due : ℕ → Option RetryRow → Bool
due now none = true
due now (some r) = leb r.due_at now

abbrev pub lease_over : ℕ → Option LeaseRow → Bool
lease_over now none = true
lease_over now (some l) = leb l.expires_at now

abbrev pub before_deadline : ℕ → Option ℕ → Bool
before_deadline now none = true
before_deadline now (some d) = ltb now d

-- The WHERE clause of the SELECT, of a row joined with its retry and its lease
unfoldable pub eligible : ℕ → Journal → String → ExecutionRow → Bool
eligible now j execution_id e =
    (is_none e.cancellation_requested_at || same_status e.status ExecutionStatus.running)
    && (before_deadline now e.deadline_at
        && (is_ready e.status && due now (find execution_id j.retries)
            || same_status e.status ExecutionStatus.running
              && lease_over now (find execution_id j.leases)))

-- ORDER BY submitted_at LIMIT 1: of rows submitted at one instant, the one stored first
abbrev pub earlier :
    String × ExecutionRow → Option (String × ExecutionRow) → Option (String × ExecutionRow)
earlier x none = some x
earlier x (some y) = if ltb y.1.submitted_at x.1.submitted_at then some y else some x

unfoldable pub oldest :
    (String → ExecutionRow → Bool) → Table String ExecutionRow → Option (String × ExecutionRow)
oldest test [] = none
oldest test ((k, e) ∷ t) =
    let rest = oldest test t in if test k e then earlier (k, e) rest else rest

-- The WHERE clause of the claiming UPDATE
unfoldable pub may_claim : ℕ → Option LeaseRow → ExecutionRow → Bool
may_claim now lease e =
    (is_ready e.status || same_status e.status ExecutionStatus.running)
    && ((is_none e.cancellation_requested_at || same_status e.status ExecutionStatus.running)
        && (is_ready e.status || lease_over now lease))

abbrev pub next_fence : Option LeaseRow → ℕ
next_fence none = 1
next_fence (some l) = l.fence + 1

-- The row that the upsert leaves: a first lease at fence 1, or the last lease's fence and one.
abbrev pub new_lease : String → ℕ → ℕ → Option LeaseRow → LeaseRow
new_lease owner now expires last = record {
  owner = owner;
  fence = next_fence last;
  acquired_at = now;
  heartbeat_at = now;
  expires_at = expires;
}

unfoldable pub take_lease : String → String → ℕ → ℕ → Txn (Unit {0})
take_lease execution_id owner now expires = do
  last ← read (λ j. find execution_id j.leases)
  upsert_lease execution_id (new_lease owner now expires last)

abbrev pub claim_of : String → String → LeaseRow → ExecutionRow → Claim
claim_of execution_id owner lease row = record {
  execution_id = execution_id;
  owner = owner;
  fence = lease.fence;
  workflow = row.workflow;
  version = row.version;
  fingerprint = row.fingerprint;
  input = row.input;
  execution_status = row.status;
  expires_at = lease.expires_at;
  deadline_at = row.deadline_at;
  cancellation_requested = not (is_none row.cancellation_requested_at);
}

-- What follows a claiming UPDATE that wrote its row
unfoldable pub finish_claim : String → String → ℕ → ℕ → Txn (Option Claim)
finish_claim execution_id owner now expires = do
  take_lease execution_id owner now expires
  lease ← read (λ j. find execution_id j.leases)
  delete_retry execution_id
  row ← execution_row execution_id
  taken ← or_raise lease (durable_lease missing)
  append_event execution_id EventKind.claimed now none none
  pure (some (claim_of execution_id owner taken row))

unfoldable pub claim_candidate : String → String → ℕ → ℕ → Txn (Option Claim)
claim_candidate execution_id owner now expires = do
  lease ← read (λ j. find execution_id j.leases)
  claimed ←
      update_execution execution_id (may_claim now lease)
        (λ e. record e { status = ExecutionStatus.running; updated_at = now })
  if claimed then finish_claim execution_id owner now expires else pure none

abbrev pub claim_or_none : Option (String × ExecutionRow) → String → ℕ → ℕ → Txn (Option Claim)
claim_or_none none owner now expires = pure none
claim_or_none (some (execution_id, _)) owner now expires =
    claim_candidate execution_id owner now expires

-- `blank`: whether `owner.strip()` is empty
unfoldable pub claim_next : (String → Bool) → ℕ → String → Option ℕ → ℕ → Txn (Option Claim)
claim_next blank lease_ttl owner ttl now = if blank owner then raise durable_state else do
  candidate ← read (λ j. oldest (eligible now j) j.executions)
  claim_or_none candidate owner now (now + lifetime lease_ttl ttl)

-- The WHERE clause by which a claim addresses its own live lease
abbrev pub own_live : Claim → ℕ → LeaseRow → Bool
own_live claim now l =
    l.owner == claim.owner && (nat_beq l.fence claim.fence && ltb now l.expires_at)

unfoldable pub renew_lease : ℕ → Claim → Option ℕ → ℕ → Txn Claim
renew_lease lease_ttl claim ttl now = do
  let expires = now + lifetime lease_ttl ttl
  renewed ←
      update_lease claim.execution_id (own_live claim now)
        (λ l. record l { expires_at = expires; heartbeat_at = now })
  if renewed then pure tt else explain_refused_write claim false
  append_event claim.execution_id EventKind.lease_renewed now none none
  pure (record claim { expires_at = expires })

unfoldable pub release_lease : Claim → ℕ → Txn (Unit {0})
release_lease claim now = do
  released ←
      update_lease claim.execution_id (own_live claim now) (λ l. record l { expires_at = now })
  if released then pure tt else explain_refused_write claim false

abbrev pub passed : ℕ → Option ℕ → Bool
passed now none = false
passed now (some d) = leb d now

-- The rows that `expire_deadlines` selects
unfoldable pub overdue : ℕ → Table String ExecutionRow → List String
overdue now [] = []
overdue now ((k, e) ∷ t) =
    let rest = overdue now t in
    if not (execution_is_terminal e.status) && passed now e.deadline_at then k ∷ rest else rest

unfoldable pub expire_one : String → ℕ → Txn (Unit {0})
expire_one execution_id now = do
  written ←
      update_execution execution_id (λ e. not (execution_is_terminal e.status))
        (λ e. record e {
          status = ExecutionStatus.timed_out;
          failure_kind = some FailureKind.timed_out;
          current_step = none;
          updated_at = now;
        })
  delete_retry execution_id
  append_event execution_id EventKind.timed_out now none none

unfoldable pub expire_all : List String → ℕ → Txn (Unit {0})
expire_all [] now = pure tt
expire_all (k ∷ ks) now = do expire_one k now; expire_all ks now

unfoldable pub expire_deadlines : ℕ → Txn (List String)
expire_deadlines now = do
  rows ← read (λ j. overdue now j.executions)
  expire_all rows now
  pure rows
