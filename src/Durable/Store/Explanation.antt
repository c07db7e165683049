-- ===== src/Durable/Store/Explanation.antt =====
-- `_explain_refused_write` of src/xyberos/durable/store.py: what a DurableLeaseError says is so.
use xyberos.Prelude.{
  ℕ, ◌≤◌, String, ◌≡◌, ◌≢◌, ◌⊎◌, inl, inr, refl, Bool, true, false, Option, none, some, List, [],
  arith, string_eq, ◌+◌, pair_eq,
}
use xyberos.Errors.{Error, Result, ok, LeaseProblem, missing, taken, expired, durable_lease, err}
use xyberos.Table.{find}
use xyberos.Durable.Models.{StepState, require_step_transition, step_transition_allowed, state_eq}
use xyberos.Execution.Models.{contains}
use xyberos.Durable.Rows.{StepRow, LeaseRow, Claim, Journal, lease_guard, holds}
use xyberos.Durable.Txn.{Txn, ◌>>=◌, step_row, update_step, update_execution, append_event}
use xyberos.Durable.Store.Writes.{
  refusal, lease_problem, explain_refused_write, set_step_state, sources_or, in_state,
}
use xyberos.Durable.Store.Success.{set_step_state-eq-ok}
use xyberos.Durable.Store.Spent.{journal-step_row}
use xyberos.Durable.Store.Steps.{start_step, start_attempt, announce_start, started, startable}

-- What each of the three messages says of the execution's lease
abbrev pub IsMeant : Claim → ℕ → LeaseProblem → Option LeaseRow → Type 0
IsMeant claim now missing lease = lease ≡ none
IsMeant claim now taken lease =
    (l : LeaseRow) × (lease ≡ some l) × ((l.owner ≢ claim.owner) ⊎ (l.fence ≢ claim.fence))
IsMeant claim now expired lease =
    (l : LeaseRow) × (lease ≡ some l)
    × (l.owner ≡ claim.owner)
    × (l.fence ≡ claim.fence)
    × (l.expires_at ≤ now)

lease_problem-IsMeant :
    (claim : Claim) (now : ℕ) (p : LeaseProblem) (lease : Option LeaseRow)
    → lease_problem claim lease ≡ durable_lease p
    → holds claim now lease ≡ false
    → IsMeant claim now p lease
lease_problem-IsMeant claim now missing none e h = refl
lease_problem-IsMeant claim now taken none e h = cc
lease_problem-IsMeant claim now expired none e h = cc
lease_problem-IsMeant claim now missing (some l) e h = ground arith
lease_problem-IsMeant claim now taken (some l) e h =
    (l, refl, ground (arith, string_eq.beq_iff l.owner claim.owner))
lease_problem-IsMeant claim now expired (some l) e h =
    (l, refl, ground (arith, string_eq.beq_iff l.owner claim.owner), ground arith, ground arith)

refusal-lease_problem :
    (claim : Claim) (allow : Bool) (j : Journal) (p : LeaseProblem)
    → refusal claim allow j ≡ durable_lease p
    → lease_problem claim (find claim.execution_id j.leases) ≡ durable_lease p
unfolding refusal
refusal-lease_problem claim allow j p e = ground arith

-- What a write of a step's state found where it raised a DurableLeaseError
set_step_state-found :
    (claim : Claim) (step_id : String) (target : StepState) (now : ℕ) (extra : StepRow → StepRow)
    (sources : List StepState) (j : Journal) (p : LeaseProblem) (o : Option StepRow)
    → find (claim.execution_id, step_id) j.steps ≡ o
    → set_step_state claim step_id target now extra sources j ≡ err (durable_lease p)
    → (row : StepRow) × (step_transition_allowed row.state target ≡ true)
      × (refusal claim false j ≡ durable_lease p)
      × (in_state (sources_or row.state sources) (lease_guard claim now j) row ≡ false)
unfolding set_step_state step_row update_step explain_refused_write require_step_transition
set_step_state-found claim step_id target now extra sources j p none q e = absurd (ground arith)
set_step_state-found claim step_id target now extra sources j p (some row) q e =
    (row, ground arith, ground arith, ground arith)

set_step_state-refused :
    (claim : Claim) (step_id : String) (target : StepState) (now : ℕ) (extra : StepRow → StepRow)
    (sources : List StepState) (j : Journal) (p : LeaseProblem)
    → ((s : StepState)
        → step_transition_allowed s target ≡ true
        → contains s (sources_or s sources) ≡ true)
    → set_step_state claim step_id target now extra sources j ≡ err (durable_lease p)
    → (refusal claim false j ≡ durable_lease p) × (lease_guard claim now j ≡ false)
set_step_state-refused claim step_id target now extra sources j p covers e =
    let (row, legal, why, refused) =
      set_step_state-found claim step_id target now extra sources j p _ refl e in
    (why, rw (covers row.state legal) at refused)

-- The sources that `start_step` allows are those from which the table allows it.
startable_covers :
    (s : StepState)
    → step_transition_allowed s StepState.running ≡ true
    → contains s (sources_or s startable) ≡ true
unfolding step_transition_allowed
startable_covers s e = ground arith

read_covers :
    (target s : StepState)
    → step_transition_allowed s target ≡ true
    → contains s (sources_or s []) ≡ true
read_covers target s e = ground arith

-- Once the step is running, a start is not refused for the lease.
announce_start-unrefused :
    (claim : Claim) (step_id : String) (attempt now : ℕ) (j : Journal) (p : LeaseProblem)
    → lease_guard claim now j ≡ true
    → announce_start claim step_id attempt now j ≢ err (durable_lease p)
unfolding announce_start update_execution explain_refused_write refusal append_event
announce_start-unrefused claim step_id attempt now j p guarded e = ground (arith, guarded, e)

pub set_step_state-IsMeant :
    (claim : Claim) (step_id : String) (target : StepState) (now : ℕ) (extra : StepRow → StepRow)
    (sources : List StepState) (j : Journal) (p : LeaseProblem)
    → ((s : StepState)
        → step_transition_allowed s target ≡ true
        → contains s (sources_or s sources) ≡ true)
    → set_step_state claim step_id target now extra sources j ≡ err (durable_lease p)
    → IsMeant claim now p (find claim.execution_id j.leases)
unfolding lease_guard
set_step_state-IsMeant claim step_id target now extra sources j p covers e =
    let (why, lost) = set_step_state-refused claim step_id target now extra sources j p covers e in
    lease_problem-IsMeant claim now p (find claim.execution_id j.leases)
      (refusal-lease_problem claim false j p why) lost

-- A transaction that raises raises in its first part or, after it, in the rest.
>>=-eq-err :
    {A B : Type 0} (m : Txn A) (f : A → Txn B) (j : Journal) (x : Error)
    → (m >>= f) j ≡ err x
    → (m j ≡ err x) ⊎ ((a : A) × (k : Journal) × (m j ≡ ok (a, k)) × (f a k ≡ err x))
>>=-eq-err {A} {B} m f j x h = split (m j) refl h
  where
    split :
        (r : Result (A × Journal))
        → m j ≡ r
        → ◌≡◌ {A = Result (B × Journal)} (elim r [ err e ↦ err e | ok (a, k) ↦ f a k ]) (err x)
        → (m j ≡ err x) ⊎ ((a : A) × (k : Journal) × (m j ≡ ok (a, k)) × (f a k ≡ err x))
    split (ok (a, k)) e h' = inr (a, k, e, h')
    split (err y) e h' = let same : y ≡ x = cc in inl (rw same at e)

step_row-unrefused :
    (i step_id : String) (j : Journal) (p : LeaseProblem)
    → step_row i step_id j ≢ err (durable_lease p)
unfolding step_row
step_row-unrefused i step_id j p e = ground arith

-- A start that raises a DurableLeaseError has raised it in its write of the step.
start_attempt-raised :
    (claim : Claim) (step_id : String) (key : Option String) (attempt now : ℕ) (j : Journal)
    (p : LeaseProblem)
    → start_attempt claim step_id key attempt now j ≡ err (durable_lease p)
    → set_step_state claim step_id StepState.running now (started attempt key now) startable j
      ≡ err (durable_lease p)
unfolding start_attempt lease_guard
start_attempt-raised claim step_id key attempt now j p e =
    elim (>>=-eq-err
      (set_step_state claim step_id StepState.running now (started attempt key now) startable)
      (λ u. announce_start claim step_id attempt now) j (durable_lease p) e) [
        | inl raised ↦ raised
        | inr (u, k, wrote, raised) ↦
            let set =
              set_step_state-eq-ok claim step_id StepState.running now (started attempt key now)
                startable j wrote in
            absurd (
              announce_start-unrefused claim step_id attempt now k p (rw set.written set.guarded)
                raised)
      ]

start_step-raised :
    (claim : Claim) (step_id : String) (key : Option String) (now : ℕ) (j : Journal)
    (p : LeaseProblem)
    → start_step claim step_id key now j ≡ err (durable_lease p)
    → (attempt : ℕ) × (set_step_state claim step_id StepState.running now
          (started attempt key now)
          startable
          j
        ≡ err (durable_lease p))
unfolding start_step
start_step-raised claim step_id key now j p e =
    elim (>>=-eq-err (step_row claim.execution_id step_id)
      (λ row. start_attempt claim step_id key (row.attempts + 1) now) j (durable_lease p) e) [
        | inl raised ↦ absurd (step_row-unrefused claim.execution_id step_id j p raised)
        | inr (row, k, read, raised) ↦
            let same = journal-step_row claim.execution_id step_id j read in
            (
              row.attempts + 1,
              start_attempt-raised claim step_id key (row.attempts + 1) now j p (rw same at raised),
            )
      ]

-- Where `start_step` raises a DurableLeaseError, or a write of a step's state that allows no state
-- but the one that it read, as those of all other operations do, the message is true of the lease:
-- it is missing, or another owner or fencing token has it, or it is the claim's own and over.
pub refused_step_write-IsMeant :
    (claim : Claim) (step_id : String) (target : StepState) (now : ℕ) (extra : StepRow → StepRow)
    (key : Option String) (j : Journal) (p : LeaseProblem)
    → (start_step claim step_id key now j ≡ err (durable_lease p))
      ⊎ (set_step_state claim step_id target now extra [] j ≡ err (durable_lease p))
    → IsMeant claim now p (find claim.execution_id j.leases)
refused_step_write-IsMeant claim step_id target now extra key j p (inl e) =
    let (attempt, raised) = start_step-raised claim step_id key now j p e in
    set_step_state-IsMeant claim step_id StepState.running now (started attempt key now) startable j
      p startable_covers raised
refused_step_write-IsMeant claim step_id target now extra key j p (inr e) =
    set_step_state-IsMeant claim step_id target now extra [] j p (read_covers target) e
