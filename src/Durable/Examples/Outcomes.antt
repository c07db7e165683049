-- ===== src/Durable/Examples/Outcomes.antt =====
-- What single calls of src/xyberos/durable/store.py on a small journal leave behind for good.
use xyberos.Prelude.{
  ℕ, ◌<◌, String, ◌≡◌, ◌≢◌, ◌⊎◌, inl, true, false, none, some, List, [], ◌∷◌, refl, string_eq,
  pair_eq,
}
use xyberos.Errors.{taken, ok}
use xyberos.Table.{find, update, upsert, delete}
use xyberos.Durable.Models.{
  ExecutionStatus, StepState, step_transition_allowed, execution_transition_allowed,
  require_step_transition, require_execution_transition,
}
use xyberos.Durable.Rows.{ExecutionRow, StepRow, LeaseRow, Claim, Journal, lease_guard}
use xyberos.Durable.Txn.{
  commit, step_row, execution_row, update_step, update_execution, upsert_lease, delete_retry,
  append_event,
}
use xyberos.Durable.Store.Writes.{
  explain_refused_write, refusal, dump, set_step_state, set_execution_status,
}
use xyberos.Durable.Store.Claims.{
  claim_next, claim_candidate, finish_claim, take_lease, eligible, oldest, may_claim,
}
use xyberos.Durable.Store.Steps.{complete_step, record_output, start_step, start_attempt}
use xyberos.Durable.Store.Endings.{complete_execution, record_result}
use xyberos.Durable.Store.Submission.{new_step}
use xyberos.Durable.Store.History
use xyberos.Durable.Store.History.{Call, replay}
use xyberos.Durable.Store.Explanation.{refused_step_write-IsMeant}
use xyberos.Durable.Store.Exclusion.{claim_next-exclusive}
use xyberos.Durable.Store.Durability.{
  complete_step_returns, complete_step-durable, complete_execution-durable,
}
use xyberos.Durable.Examples.{payloads, blank, claim, old_claim, lease, journal}

-- The journal while `send` runs
abbrev sending : Journal
sending = record journal {
  steps = (("run", "send"), record new_step { state = StepState.running; attempts = 1 }) ∷ [];
}

complete_step_returns_example :
    (k : Journal) × (complete_step payloads claim "send" "2" 6 sending ≡ ok (tt, k))
unfolding find lease_guard dump
complete_step_returns_example =
    complete_step_returns payloads claim 6 sending refl "send" "2"
      (record new_step { state = StepState.running; attempts = 1 }) "2" refl refl refl

abbrev later_calls : List (Call String × ℕ)
later_calls = (History.skips claim "send" "late", 7) ∷ (History.cancels "run" none, 30) ∷ []

abbrev sent : Journal
sent = (commit (complete_step payloads claim "send" "2" 6) sending).1

complete_step-durable_example :
    (payload : String) × (row : StepRow) × (dump payloads "2" ≡ ok payload)
    × (find ("run", "send") (replay payloads blank 10 later_calls sent).steps ≡ some row)
    × (row.state ≡ StepState.succeeded)
    × (row.output ≡ some payload)
unfolding commit complete_step record_output set_step_state step_row require_step_transition
    step_transition_allowed lease_guard update_step update_execution append_event dump find update
complete_step-durable_example =
    complete_step-durable payloads claim 6 sending sent blank 10 later_calls "send" "2" refl

abbrev ended : Journal
ended = (commit (complete_execution payloads claim "ok" 6) journal).1

complete_execution-durable_example :
    (payload : String) × (row : ExecutionRow) × (dump payloads "ok" ≡ ok payload)
    × (find "run" (replay payloads blank 10 later_calls ended).executions ≡ some row)
    × (row.status ≡ ExecutionStatus.completed)
    × (row.result ≡ some payload)
unfolding commit complete_execution record_result set_execution_status execution_row
    require_execution_transition execution_transition_allowed lease_guard update_execution
    append_event dump find update
complete_execution-durable_example =
    complete_execution-durable payloads claim 6 journal ended blank 10 later_calls "ok" refl

-- At 20 the lease of "run" is over, and the worker "x" takes it.
abbrev taken_over : Journal
taken_over = (commit (claim_next blank 10 "x" none 20) journal).1

abbrev new_claim : Claim
new_claim = record claim { owner = "x"; fence = 3; expires_at = 30 }

claim_next-exclusive_example :
    ((t : ℕ) → t < 30 → lease_guard new_claim t taken_over ≡ true)
    × ((d : Claim) (t u : ℕ)
        → d.execution_id ≡ "run"
        → lease_guard d t journal ≡ true
        → lease_guard d u taken_over ≡ false)
unfolding commit claim_next claim_candidate finish_claim take_lease eligible oldest may_claim
    upsert_lease delete_retry update_execution execution_row append_event find update upsert delete
claim_next-exclusive_example =
    claim_next-exclusive blank 10 "x" none 20 journal new_claim taken_over
      (refl, (refl, (refl, (refl, tt)))) refl refl

refused_step_write-IsMeant_example :
    (l : LeaseRow) × (some lease ≡ some l)
    × ((l.owner ≢ old_claim.owner) ⊎ (l.fence ≢ old_claim.fence))
unfolding start_step start_attempt set_step_state step_row require_step_transition
    step_transition_allowed lease_guard update_step explain_refused_write refusal find
refused_step_write-IsMeant_example =
    refused_step_write-IsMeant old_claim "send" StepState.running 5 (λ s. s) none journal taken
      (inl refl)
