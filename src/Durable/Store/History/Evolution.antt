-- ===== src/Durable/Store/History/Evolution.antt =====
-- What no history of calls on src/xyberos/durable/store.py can undo.
use xyberos.Prelude.{
  ℕ, String, ◌≡◌, ◌≢◌, ◌++◌, Bool, true, some, List, [], ◌∷◌, refl, is_some, ◌≤◌, string_eq,
  pair_eq,
}
use xyberos.Errors.{Result, ok, err}
use xyberos.Table.{find}
use xyberos.Durable.Rows.{Journal, ExecutionRow, StepRow, LeaseRow, EventRow, DefinitionRow}
use xyberos.Durable.Txn.{Txn, commit, settle}
use xyberos.Durable.Txn.Ensures.{Ensures}
use xyberos.Durable.Store.Writes.{Payloads}
use xyberos.Durable.Store.History
use xyberos.Durable.Store.History.{Call, perform, replay}
use xyberos.Durable.Store.Evolution.{
  Evolves, Evolves-refl, Evolves-trans, Follows-some, ExecutionEvolves, StepEvolves, LeaseEvolves,
}
use xyberos.Durable.Models.{ExecutionStatus, execution_is_terminal, step_is_terminal}
use xyberos.Durable.Store.Evolution.Submission.{Ensures-register_row, Ensures-submit_row}
use xyberos.Durable.Store.Evolution.Claims.{
  Ensures-claim_next, Ensures-renew_lease, Ensures-release_lease, Ensures-expire_deadlines,
}
use xyberos.Durable.Store.Evolution.Steps.{
  Ensures-start_step, Ensures-complete_step, Ensures-yield_execution, Ensures-skip_step,
  Ensures-time_out_execution, Ensures-fail_step, Ensures-mark_step_outcome_unknown,
  Ensures-resolve_step,
}
use xyberos.Durable.Store.Evolution.Endings.{
  Ensures-complete_execution, Ensures-fail_execution, Ensures-mark_waiting, Ensures-resume_waiting,
}
use xyberos.Durable.Store.Evolution.Cancellation.{
  Ensures-request_cancellation, Ensures-acknowledge_cancellation,
}

settle-Evolves :
    {A : Type 0} (j : Journal) (r : Result (A × Journal))
    → ((a : A) (k : Journal) → r ≡ ok (a, k) → Evolves j k)
    → Evolves j (settle j r).1
settle-Evolves j (ok (a, k)) h = h a k refl
settle-Evolves j (err e) h = Evolves-refl j

-- A transaction that raises leaves the journal as it was.
commit-Evolves :
    {A : Type 0} (m : Txn A) → Ensures Evolves m → (j : Journal) → Evolves j (commit m j).1
unfolding commit
commit-Evolves m h j = settle-Evolves j (m j) (λ a k e. h.at j e)

module _ {V : Type 0} (payloads : Payloads V) (blank : String → Bool) (lease_ttl : ℕ) where
  pub perform-Evolves :
      (call : Call V) (now : ℕ) (j : Journal)
      → Evolves j (perform payloads blank lease_ttl call now j)
  unfolding perform
  perform-Evolves (History.registers n v f m) now =
      commit-Evolves _ (Ensures-register_row n v f m now)
  perform-Evolves (History.submits s) now = commit-Evolves _ (Ensures-submit_row s now)
  perform-Evolves (History.claims owner ttl) now =
      commit-Evolves _ (Ensures-claim_next blank lease_ttl owner ttl now)
  perform-Evolves (History.renews c ttl) now =
      commit-Evolves _ (Ensures-renew_lease lease_ttl c ttl now)
  perform-Evolves (History.releases c) now = commit-Evolves _ (Ensures-release_lease c now)
  perform-Evolves History.expires now = commit-Evolves _ (Ensures-expire_deadlines now)
  perform-Evolves (History.starts c s key) now = commit-Evolves _ (Ensures-start_step c s key now)
  perform-Evolves (History.completes_step c s v) now =
      commit-Evolves _ (Ensures-complete_step payloads c s v now)
  perform-Evolves (History.yields c) now = commit-Evolves _ (Ensures-yield_execution c now)
  perform-Evolves (History.skips c s r) now = commit-Evolves _ (Ensures-skip_step c s r now)
  perform-Evolves (History.fails_step c s e m at r later) now =
      commit-Evolves _ (Ensures-fail_step c s e m at r now later)
  perform-Evolves (History.doubts c s r) now =
      commit-Evolves _ (Ensures-mark_step_outcome_unknown c s r now)
  perform-Evolves (History.resolves c s t v d) now =
      commit-Evolves _ (Ensures-resolve_step payloads c s t v d now)
  perform-Evolves (History.completes c v) now =
      commit-Evolves _ (Ensures-complete_execution payloads c v now)
  perform-Evolves (History.fails c k) now = commit-Evolves _ (Ensures-fail_execution c k now)
  perform-Evolves (History.times_out c) now = commit-Evolves _ (Ensures-time_out_execution c now)
  perform-Evolves (History.cancels i r) now =
      commit-Evolves _ (Ensures-request_cancellation i r now)
  perform-Evolves (History.acknowledges c r) now =
      commit-Evolves _ (Ensures-acknowledge_cancellation c r now)
  perform-Evolves (History.parks c) now = commit-Evolves _ (Ensures-mark_waiting c now)
  perform-Evolves (History.resumes i r) now = commit-Evolves _ (Ensures-resume_waiting i now)

  pub replay-Evolves :
      (calls : List (Call V × ℕ)) (j : Journal)
      → Evolves j (replay payloads blank lease_ttl calls j)
  unfolding replay
  replay-Evolves [] j = Evolves-refl j
  replay-Evolves ((call, now) ∷ rest) j =
      Evolves-trans j (perform payloads blank lease_ttl call now j) _ (perform-Evolves call now j)
        (replay-Evolves rest (perform payloads blank lease_ttl call now j))

module _ {V : Type 0} (payloads : Payloads V) (blank : String → Bool) (lease_ttl : ℕ)
    (calls : List (Call V × ℕ)) (j : Journal) where
  abbrev later : Journal
  later = replay payloads blank lease_ttl calls j

  module _ (i : String) (r : ExecutionRow) (found : find i j.executions ≡ some r) where
    -- An execution that reached a terminal status keeps it, its result and the kind of its failure
    -- through every history of calls.
    pub execution-final :
        execution_is_terminal r.status ≡ true
        → (s : ExecutionRow) × (find i later.executions ≡ some s)
          × (s.status ≡ r.status)
          × (s.result ≡ r.result)
          × (s.failure_kind ≡ r.failure_kind)
    execution-final t =
        let (s, e, v) =
          Follows-some ExecutionEvolves r _ _ found
            ((replay-Evolves payloads blank lease_ttl calls j).executions i) in
        let (a, b, c) = v.final t in (s, e, a, b, c)

    -- Once a cancellation is requested, no history withdraws the request or moves its time, and
    -- none makes the execution completed if it was not.
    pub request-stands :
        is_some r.cancellation_requested_at ≡ true
        → (s : ExecutionRow) × (find i later.executions ≡ some s)
          × (s.cancellation_requested_at ≡ r.cancellation_requested_at)
          × (r.status ≢ ExecutionStatus.completed → s.status ≢ ExecutionStatus.completed)
    request-stands t =
        let (s, e, v) =
          Follows-some ExecutionEvolves r _ _ found
            ((replay-Evolves payloads blank lease_ttl calls j).executions i) in
        (s, e, v.requested t, λ n c. n (v.not_completed t c))

    -- What was submitted (the workflow, its version and fingerprint, the input, the time of the
    -- submission and the deadline) is never changed.
    pub submission-fixed :
        (s : ExecutionRow) × (find i later.executions ≡ some s)
        × (s.workflow ≡ r.workflow)
        × (s.version ≡ r.version)
        × (s.fingerprint ≡ r.fingerprint)
        × (s.input ≡ r.input)
        × (s.submitted_at ≡ r.submitted_at)
        × (s.deadline_at ≡ r.deadline_at)
    submission-fixed =
        let (s, e, v) =
          Follows-some ExecutionEvolves r _ _ found
            ((replay-Evolves payloads blank lease_ttl calls j).executions i) in
        (s, e, v.workflow, v.version, v.fingerprint, v.input, v.submitted_at, v.deadline_at)

  -- A step that succeeded, was skipped or failed keeps its state and its output through every
  -- history, and no history lowers a step's count of attempts.
  pub step-final :
      (i step_id : String) (r : StepRow)
      → find (i, step_id) j.steps ≡ some r
      → (s : StepRow) × (find (i, step_id) later.steps ≡ some s)
        × (r.attempts ≤ s.attempts)
        × (step_is_terminal r.state ≡ true → (s.state ≡ r.state) × (s.output ≡ r.output))
  step-final i step_id r found =
      let (s, e, v) =
        Follows-some StepEvolves r _ _ found
          ((replay-Evolves payloads blank lease_ttl calls j).steps (i, step_id)) in
      (s, e, v.attempts, v.final)

  -- The fencing token of an execution is never lowered, and while it stays the same its owner stays
  -- the same.
  pub lease-fence :
      (i : String) (r : LeaseRow)
      → find i j.leases ≡ some r
      → (s : LeaseRow) × (find i later.leases ≡ some s)
        × (r.fence ≤ s.fence)
        × (r.fence ≡ s.fence → s.owner ≡ r.owner)
  lease-fence i r found =
      let (s, e, v) =
        Follows-some LeaseEvolves r _ _ found
          ((replay-Evolves payloads blank lease_ttl calls j).leases i) in
      (s, e, v.fence, v.owner)

  -- No history rewrites the journal's events: it appends some.
  pub events-append : (more : List EventRow) × (later.events ≡ j.events ++ more)
  events-append = (replay-Evolves payloads blank lease_ttl calls j).events

  -- A definition that is registered under a name and a version keeps its fingerprint and metadata.
  pub definition-fixed :
      (name version : String) (r : DefinitionRow)
      → find (name, version) j.definitions ≡ some r
      → find (name, version) later.definitions ≡ some r
  definition-fixed name version r found =
      let (s, e, v) =
        Follows-some (λ r s. s ≡ r) r _ _ found
          ((replay-Evolves payloads blank lease_ttl calls j).definitions (name, version)) in
      cc (e, v)
