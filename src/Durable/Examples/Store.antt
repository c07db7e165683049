-- ===== src/Durable/Examples/Store.antt =====
-- Runs of src/xyberos/durable/store.py on a small journal.
use xyberos.Prelude.{
  ℕ, ◌≤◌, String, ◌≡◌, ◌≢◌, true, none, some, List, [], ◌∷◌, ◌++◌, refl, arith, string_eq, pair_eq,
}
use xyberos.Table.{find}
use xyberos.Durable.Models.{ExecutionStatus, StepState, execution_is_terminal, step_is_terminal}
use xyberos.Durable.Rows.{ExecutionRow, StepRow, LeaseRow, EventRow}
use xyberos.Durable.Store.History
use xyberos.Durable.Store.History.{Call, perform, replay}
use xyberos.Durable.Store.History.Evolution.{
  execution-final, request-stands, submission-fixed, step-final, lease-fence, events-append,
  definition-fixed,
}
use xyberos.Durable.Store.Fencing.{authority, stale_claim-writes_nothing}
use xyberos.Durable.Examples.{
  payloads, blank, running_row, completed_row, cancelling_row, lease, claim, old_claim, done_step,
  definition, journal,
}

-- A worker claims what there is, one starts a step, and an operator cancels.
abbrev calls : List (Call String × ℕ)
calls =
    (History.claims "x" none, 20)
    ∷ (History.starts claim "send" none, 5)
    ∷ (History.cancels "old" none, 21)
    ∷ []

execution-final_example :
    (s : ExecutionRow) × (find "old" (replay payloads blank 10 calls journal).executions ≡ some s)
    × (s.status ≡ ExecutionStatus.completed)
    × (s.result ≡ some "done")
    × (s.failure_kind ≡ none)
unfolding find execution_is_terminal
execution-final_example =
    execution-final payloads blank 10 calls journal "old" completed_row refl refl

request-stands_example :
    (s : ExecutionRow) × (find "stop" (replay payloads blank 10 calls journal).executions ≡ some s)
    × (s.cancellation_requested_at ≡ some 3)
    × (ExecutionStatus.running ≢ ExecutionStatus.completed → s.status ≢ ExecutionStatus.completed)
unfolding find
request-stands_example =
    request-stands payloads blank 10 calls journal "stop" cancelling_row refl refl

submission-fixed_example :
    (s : ExecutionRow) × (find "run" (replay payloads blank 10 calls journal).executions ≡ some s)
    × (s.workflow ≡ "flow")
    × (s.version ≡ "1")
    × (s.fingerprint ≡ "f")
    × (s.input ≡ "{}")
    × (s.submitted_at ≡ 1)
    × (s.deadline_at ≡ none)
unfolding find
submission-fixed_example = submission-fixed payloads blank 10 calls journal "run" running_row refl

step-final_example :
    (s : StepRow) × (find ("run", "load") (replay payloads blank 10 calls journal).steps ≡ some s)
    × (1 ≤ s.attempts)
    × (step_is_terminal StepState.succeeded ≡ true
        → (s.state ≡ StepState.succeeded) × (s.output ≡ some "1"))
unfolding find
step-final_example = step-final payloads blank 10 calls journal "run" "load" done_step refl

lease-fence_example :
    (s : LeaseRow) × (find "run" (replay payloads blank 10 calls journal).leases ≡ some s)
    × (2 ≤ s.fence)
    × (2 ≡ s.fence → s.owner ≡ "w")
unfolding find
lease-fence_example = lease-fence payloads blank 10 calls journal "run" lease refl

events-append_example :
    (more : List EventRow) × ((replay payloads blank 10 calls journal).events ≡ [] ++ more)
events-append_example = events-append payloads blank 10 calls journal

definition-fixed_example :
    find ("flow", "1") (replay payloads blank 10 calls journal).definitions ≡ some definition
unfolding find
definition-fixed_example =
    definition-fixed payloads blank 10 calls journal "flow" "1" definition refl

stale_claim-writes_nothing_example :
    perform payloads blank 10
      (History.completes_step old_claim "send" "2")
      5
      (replay payloads blank 10 calls journal)
    ≡ replay payloads blank 10 calls journal
unfolding find authority
stale_claim-writes_nothing_example =
    stale_claim-writes_nothing payloads blank 10 calls journal
      (History.completes_step old_claim "send" "2") old_claim lease 5 refl refl (omega arith)
