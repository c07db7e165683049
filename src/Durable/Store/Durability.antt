-- ===== src/Durable/Store/Durability.antt =====
-- What `complete_step` and `complete_execution` of src/xyberos/durable/store.py promise to the worker
-- that called them: when they return, and what they recorded for good.
use xyberos.Prelude.{
  ℕ, ◌+◌, String, ◌≡◌, Bool, true, false, none, some, List, [], arith, ap, ◌≢◌, ◌∙◌, refl,
  string_eq, pair_eq,
}
use text.Mathlib.TextPositions.{eq_refl}
use xyberos.Errors.{Error, Result, ok, err}
use xyberos.Table.{find, find-update}
use xyberos.Durable.Models.{
  ExecutionStatus, StepState, EventKind, execution_is_terminal, step_is_terminal,
  require_step_transition, step_transition_allowed,
}
use xyberos.Durable.Rows.{ExecutionRow, StepRow, Claim, Journal, lease_guard}
use xyberos.Durable.Txn.{◌>>◌, lift, step_row, update_step, update_execution, append_event}
use xyberos.Durable.Txn.Ensures.{>>=-eq-ok}
use xyberos.Durable.Store.Writes.{Payloads, dump, set_step_state, set_execution_status}
use xyberos.Durable.Store.Success.{set_execution_status-eq-ok}
use xyberos.Durable.Store.Steps.{complete_step, record_output}
use xyberos.Durable.Store.Endings.{complete_execution, record_result}
use xyberos.Durable.Store.Attempts.{
  finish, finish-eq-ok, lift-eq-ok, set_step_state-found, step_row-eq-ok, succeeded,
}
use xyberos.Durable.Store.History.{Call, replay}
use xyberos.Durable.Store.History.Evolution.{step-final, execution-final}

record_output-found :
    (claim : Claim) (step_id payload : String) (now : ℕ) (j : Journal) {u : Unit {0}} {k : Journal}
    → record_output claim step_id payload now j ≡ ok (u, k)
    → (row : StepRow) × (find (claim.execution_id, step_id) k.steps ≡ some row)
      × (row.state ≡ StepState.succeeded)
      × (row.output ≡ some payload)
unfolding record_output
record_output-found claim step_id payload now j e =
    let (row, m, first, second) =
      >>=-eq-ok (step_row claim.execution_id step_id)
        (λ (r : StepRow).
          set_step_state claim step_id StepState.succeeded now (succeeded payload now) []
          >> finish claim step_id (r.attempts + 1) now)
        j e in
    let (u, l, third, last) =
      >>=-eq-ok (set_step_state claim step_id StepState.succeeded now (succeeded payload now) [])
        (λ u. finish claim step_id (row.attempts + 1) now) m second in
    let (found, same) = step_row-eq-ok claim.execution_id step_id j first in
    let (set, events) =
      set_step_state-found claim step_id StepState.succeeded now (succeeded payload now) [] m row
        (ap (λ (x : Journal). find (claim.execution_id, step_id) x.steps) same ∙ found) third in
    let (more, steps) = finish-eq-ok claim step_id (row.attempts + 1) now l last in
    (
      succeeded payload now (record row { state = StepState.succeeded }),
      ap (λ t. find (claim.execution_id, step_id) t) steps ∙ set,
      refl,
      refl,
    )

abbrev completed : String → ExecutionRow → ExecutionRow
completed payload e = record e { result = some payload; current_step = none }

executions-append_event :
    (i : String) (kind : EventKind) (now : ℕ) (j : Journal) {u : Unit {0}} {k : Journal}
    → append_event i kind now none none j ≡ ok (u, k)
    → k.executions ≡ j.executions
unfolding append_event
executions-append_event i kind now j e = ground arith

record_result-found :
    (claim : Claim) (payload : String) (now : ℕ) (j : Journal) {u : Unit {0}} {k : Journal}
    → record_result claim payload now j ≡ ok (u, k)
    → (row : ExecutionRow) × (find claim.execution_id k.executions ≡ some row)
      × (row.status ≡ ExecutionStatus.completed)
      × (row.result ≡ some payload)
unfolding record_result
record_result-found claim payload now j e =
    let (u, l, first, last) =
      >>=-eq-ok (set_execution_status claim ExecutionStatus.completed now (completed payload) false)
        (λ u. append_event claim.execution_id EventKind.completed now none none) j e in
    let set =
      set_execution_status-eq-ok claim ExecutionStatus.completed now (completed payload) false j
        first in
    let write = λ (r : ExecutionRow).
      completed payload (record r { status = ExecutionStatus.completed; updated_at = now }) in
    let same =
      executions-append_event claim.execution_id EventKind.completed now l last
      ∙ ap (λ (x : Journal). x.executions) set.written in
    (
      write set.row,
      ground (
        arith,
        same,
        set.found,
        eq_refl claim.execution_id,
        find-update claim.execution_id claim.execution_id write j.executions,
      ),
      refl,
      refl,
    )

module _ {V : Type 0} (payloads : Payloads V) (claim : Claim) (now : ℕ) (j : Journal)
    (guarded : lease_guard claim now j ≡ true) where
  record_output_raises_not :
      (step_id payload : String) (row : StepRow) (e : Error)
      → find (claim.execution_id, step_id) j.steps ≡ some row
      → row.state ≡ StepState.running
      → record_output claim step_id payload now j ≢ err e
  unfolding record_output set_step_state step_row require_step_transition step_transition_allowed
      update_step update_execution append_event lease_guard
  record_output_raises_not step_id payload row e found running raised = ground arith

  returned :
      {A : Type 0} (r : Result (A × Journal))
      → ((e : Error) → r ≢ err e)
      → (a : A) × (k : Journal) × (r ≡ ok (a, k))
  returned (ok (a, k)) h = (a, k, refl)
  returned (err e) h = absurd (h e refl)

  -- A worker whose lease is live records the output of its running step: the call returns, if the
  -- output is JSON text within the payload limit.
  pub complete_step_returns :
      (step_id : String) (output : V) (row : StepRow) (payload : String)
      → find (claim.execution_id, step_id) j.steps ≡ some row
      → row.state ≡ StepState.running
      → dump payloads output ≡ ok payload
      → (k : Journal) × (complete_step payloads claim step_id output now j ≡ ok (tt, k))
  unfolding complete_step
  complete_step_returns step_id output row payload found running dumped =
      let (u, k, e) =
        returned (record_output claim step_id payload now j)
          (λ e. record_output_raises_not step_id payload row e found running) in
      (k, rw dumped e)

module _ {V : Type 0} (payloads : Payloads V) (claim : Claim) (now : ℕ) (j k : Journal)
    (blank : String → Bool) (lease_ttl : ℕ) (calls : List (Call V × ℕ)) where
  -- Once `complete_step` returned, the step is succeeded with the JSON text of the output, and stays
  -- so through every later history of calls.
  pub complete_step-durable :
      (step_id : String) (output : V)
      → complete_step payloads claim step_id output now j ≡ ok (tt, k)
      → (payload : String) × (row : StepRow) × (dump payloads output ≡ ok payload)
        × (find (claim.execution_id, step_id) (replay payloads blank lease_ttl calls k).steps
            ≡ some row)
        × (row.state ≡ StepState.succeeded)
        × (row.output ≡ some payload)
  unfolding complete_step step_is_terminal
  complete_step-durable step_id output e =
      let (payload, m, first, second) =
        >>=-eq-ok (lift (dump payloads output)) (λ payload. record_output claim step_id payload now)
          j e in
      let (row, found, state, text) = record_output-found claim step_id payload now m second in
      let (later, there, attempts, final) =
        step-final payloads blank lease_ttl calls k claim.execution_id step_id row found in
      let (same, kept) = final (rw state refl) in
      (
        payload,
        later,
        (lift-eq-ok (dump payloads output) j first).1,
        there,
        same ∙ state,
        kept ∙ text,
      )

  -- Once `complete_execution` returned, the execution is completed with the JSON text of its result,
  -- and stays so through every later history of calls.
  pub complete_execution-durable :
      (outputs : V)
      → complete_execution payloads claim outputs now j ≡ ok (tt, k)
      → (payload : String) × (row : ExecutionRow) × (dump payloads outputs ≡ ok payload)
        × (find claim.execution_id (replay payloads blank lease_ttl calls k).executions ≡ some row)
        × (row.status ≡ ExecutionStatus.completed)
        × (row.result ≡ some payload)
  unfolding complete_execution record_result execution_is_terminal
  complete_execution-durable outputs e =
      let (payload, m, first, second) =
        >>=-eq-ok (lift (dump payloads outputs)) (λ payload. record_result claim payload now) j e in
      let (row, found, status, result) = record_result-found claim payload now m second in
      let (later, there, same, kept, kind) =
        execution-final payloads blank lease_ttl calls k claim.execution_id row found
          (rw status refl) in
      (
        payload,
        later,
        (lift-eq-ok (dump payloads outputs) j first).1,
        there,
        same ∙ status,
        kept ∙ result,
      )
