-- ===== src/Durable/Store/Evolution/Guarded.antt =====
-- The guarded writes of src/xyberos/durable/store.py respect `Evolves`: the transition tables and the
-- cancellation clause of their statements are what makes the written row evolve.
use xyberos.Prelude.{
  subst, sym, string_eq, pair_eq, ℕ, String, ◌≡◌, ◌≢◌, refl, Bool, true, false, some, List, arith,
  ◌≤◌, is_some,
}
use xyberos.Errors.{ok}
use xyberos.Durable.Models.{
  ExecutionStatus, StepState, same_status_iff, state_eq, execution_is_terminal, step_is_terminal,
  step_transition_allowed, require_execution_transition, require_step_transition,
}
use xyberos.Durable.Rows.{ExecutionRow, StepRow, Claim, Journal, lease_guard}
use xyberos.Durable.Txn.{pure}
use xyberos.Durable.Txn.Ensures.{
  Ensures, Ensures-bind, Ensures-bind-lift, Ensures-execution_row, Ensures-read, Ensures-if,
  Ensures-pure,
}
use xyberos.Durable.Store.Writes.{
  set_execution_status, set_step_state, explain_refused_write, release_owned_lease, in_status,
}
use xyberos.Durable.Store.Success.{set_step_state-eq-ok}
use xyberos.Table.{find}
use xyberos.Durable.Store.Evolution.{
  ExecutionEvolves, StepEvolves, Evolves, Evolves-preorder, StepEvolves-refl,
}
use xyberos.Durable.Store.Evolution.Primitives.{
  with_steps, Follows-update, Ensures-update_execution, Ensures-update_lease,
}

-- The columns that no operation but a cancellation request assigns.
pub record Kept (e f : ExecutionRow) : Type 0 where
  pub workflow : f.workflow ≡ e.workflow
  pub version : f.version ≡ e.version
  pub fingerprint : f.fingerprint ≡ e.fingerprint
  pub input : f.input ≡ e.input
  pub submitted_at : f.submitted_at ≡ e.submitted_at
  pub deadline_at : f.deadline_at ≡ e.deadline_at
  pub cancellation_requested_at : f.cancellation_requested_at ≡ e.cancellation_requested_at

pub require_execution_transition-ok :
    (s t : ExecutionStatus) {u : Unit {0}}
    → require_execution_transition s t ≡ ok u
    → execution_is_terminal s ≡ false
unfolding require_execution_transition execution_is_terminal
require_execution_transition-ok s t h = ground arith

require_step_transition-ok :
    (s t : StepState) {u : Unit {0}}
    → require_step_transition s t ≡ ok u
    → step_is_terminal s ≡ false
unfolding require_step_transition step_is_terminal
require_step_transition-ok s t h = ground arith

pub Ensures-explain_refused_write :
    (claim : Claim) (allow : Bool) → Ensures Evolves (explain_refused_write claim allow)
unfolding explain_refused_write
Ensures-explain_refused_write claim allow = record { at = λ j e. cc }

-- An open row may be given any status but `completed`, or `completed` if no cancellation is requested.
open_row-Evolves :
    (e f : ExecutionRow)
    → Kept e f
    → execution_is_terminal e.status ≡ false
    → (is_some e.cancellation_requested_at ≡ true → f.status ≢ ExecutionStatus.completed)
    → ExecutionEvolves e f
open_row-Evolves e f k is_open h = record {
  workflow = k.workflow;
  version = k.version;
  fingerprint = k.fingerprint;
  input = k.input;
  submitted_at = k.submitted_at;
  deadline_at = k.deadline_at;
  final = λ t. cc;
  requested = λ t. k.cancellation_requested_at;
  not_completed = λ t c. absurd (h t c);
}

-- The assignments of an operation: columns of its own, and not the status.
abbrev pub Sets : (ExecutionRow → ExecutionRow) → Type 0
Sets extra =
    (target : ExecutionStatus) (now : ℕ) (e : ExecutionRow)
    → Kept e (extra (record e { status = target; updated_at = now }))
      × ((extra (record e { status = target; updated_at = now })).status ≡ target)

module _ (claim : Claim) (target : ExecutionStatus) (now : ℕ) (extra : ExecutionRow → ExecutionRow)
    (sets : Sets extra) (allow : Bool)
    (careful : target ≡ ExecutionStatus.completed → allow ≡ false) where
  pub Ensures-set_execution_status :
      Ensures Evolves (set_execution_status claim target now extra allow)
  unfolding set_execution_status
  Ensures-set_execution_status =
      let p = Evolves-preorder in
      Ensures-bind p _ _ (Ensures-execution_row p claim.execution_id) λ row.
        Ensures-bind-lift p (require_execution_transition row.status target) _ λ u legal.
          Ensures-bind p _ _ (Ensures-read p (lease_guard claim now)) λ guarded.
            Ensures-bind p _ _
              (Ensures-update_execution claim.execution_id (in_status row.status allow guarded) _
                λ r passed.
                  open_row-Evolves r _ (sets target now r).0
                    (ground (
                      arith,
                      require_execution_transition-ok row.status target legal,
                      same_status_iff r.status row.status,
                    ))
                    (λ t c. ground (arith, careful, (sets target now r).1)))
              λ written.
                Ensures-if p written (pure tt) (explain_refused_write claim allow)
                  (Ensures-pure p tt) (Ensures-explain_refused_write claim allow)

-- None of the states from which a step may be written is terminal.
open_sources : (s t : StepState) → step_transition_allowed s t ≡ true → step_is_terminal s ≡ false
unfolding step_is_terminal step_transition_allowed
open_sources s t h = ground arith

module _ (claim : Claim) (step_id : String) (target : StepState) (now : ℕ)
    (extra : StepRow → StepRow) (sources : List StepState) (j : Journal) where
  -- The written step row evolves where the operation does not lower the attempts of the row it found.
  pub set_step_state-Evolves :
      {u : Unit {0}} {k : Journal}
      → ((s : StepRow)
          → find (claim.execution_id, step_id) j.steps ≡ some s
          → s.attempts ≤ (extra (record s { state = target })).attempts)
      → set_step_state claim step_id target now extra sources j ≡ ok (u, k)
      → Evolves j k
  set_step_state-Evolves counts h =
      let w = set_step_state-eq-ok claim step_id target now extra sources j h in
      subst (Evolves j) (sym w.written) (
        with_steps j _ λ i.
          Follows-update StepEvolves StepEvolves-refl (claim.execution_id, step_id) i _ j.steps
            λ s found. record {
              final = λ t. cc (found, w.found, open_sources w.row.state target w.legal);
              attempts = counts s found;
            })

-- The assignments of an operation that does not count an attempt.
abbrev pub SetsStep : (StepRow → StepRow) → Type 0
SetsStep extra =
    (target : StepState) (s : StepRow) → s.attempts ≤ (extra (record s { state = target })).attempts

pub Ensures-set_step_state :
    (claim : Claim) (step_id : String) (target : StepState) (now : ℕ) (extra : StepRow → StepRow)
    (sources : List StepState)
    → SetsStep extra
    → Ensures Evolves (set_step_state claim step_id target now extra sources)
Ensures-set_step_state claim step_id target now extra sources sets = record {
  at = λ j h.
      set_step_state-Evolves claim step_id target now extra sources j (λ s f. sets target s) h;
}

pub Ensures-release_owned_lease :
    (claim : Claim) (now : ℕ) → Ensures Evolves (release_owned_lease claim now)
unfolding release_owned_lease
Ensures-release_owned_lease claim now =
    let p = Evolves-preorder in
    Ensures-bind p _ _
      (Ensures-update_lease claim.execution_id _ (λ l. record l { expires_at = now })
        (λ l. record { fence = omega arith; owner = λ e. refl }))
      λ written. Ensures-pure p tt
