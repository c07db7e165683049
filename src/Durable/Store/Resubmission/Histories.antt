-- ===== src/Durable/Store/Resubmission/Histories.antt =====
-- `submit` of src/xyberos/durable/store.py, called twice under one execution id, among calls of others.
use xyberos.Prelude.{
  ℕ, String, ◌≡◌, Bool, not, ◌&&◌, some, List, [], ◌∷◌, false, refl, ap, ◌∙◌, string_eq, pair_eq,
  ◌==◌, if◌then◌else◌,
}
use xyberos.Errors.{ok, err, durable_version, durable_conflict}
use xyberos.Table.{find}
use xyberos.Durable.Rows.{ExecutionRow, DefinitionRow, Journal}
use xyberos.Durable.Txn.{commit}
use xyberos.Durable.Store.Submission.{Submission, ExecutionHandle, handle_of, register_row, submit}
use xyberos.Durable.Store.Idempotence.{submit_row-eq-ok}
use xyberos.Durable.Store.Writes.{Payloads}
use xyberos.Durable.Store.History
use xyberos.Durable.Store.History.{Call, perform, replay}
use xyberos.Durable.Store.History.Evolution.{submission-fixed, definition-fixed}
use xyberos.Durable.Store.Evolution.{Follows-some}
use xyberos.Durable.Store.Evolution.Submission.{Ensures-submit_row}
use xyberos.Durable.Store.Resubmission.{
  IsSubmitted, IsRefused, register_row-eq-ok, submit-eq-ok, submit_again, submit_other,
}

module _ {V : Type 0} (payloads : Payloads V) (blank : String → Bool) (lease_ttl : ℕ) where
  replay-IsSubmitted :
      (s : Submission) (calls : List (Call V × ℕ)) (j : Journal)
      → IsSubmitted s j
      → IsSubmitted s (replay payloads blank lease_ttl calls j)
  replay-IsSubmitted s calls j was =
      let (row, found, workflow, version, fingerprint, input, at, until) =
        submission-fixed payloads blank lease_ttl calls j s.execution_id was.row was.found in
      record {
        definition = was.definition;
        registered =
            definition-fixed payloads blank lease_ttl calls j s.name s.version was.definition
              was.registered;
        same_shape = was.same_shape;
        row = row;
        found = found;
        work = rw (workflow, version, fingerprint, input) was.work;
      }

  register-IsSubmitted :
      (s t : Submission) (metadata : String) (now : ℕ) (k : Journal)
      → IsSubmitted s k
      → IsSubmitted s (commit (register_row t.name t.version t.fingerprint metadata now) k).1
  unfolding replay perform
  register-IsSubmitted s t metadata now k on =
      replay-IsSubmitted s ((History.registers t.name t.version t.fingerprint metadata, now) ∷ []) k
        on

  submit-IsSubmitted :
      (s : Submission) (calls : List (Call V × ℕ)) (metadata : String) (now later : ℕ) (j : Journal)
      (h : ExecutionHandle) (k : Journal)
      → submit (replay payloads blank lease_ttl calls) s metadata now later j ≡ (ok h, k)
      → IsSubmitted s k
  submit-IsSubmitted s calls metadata now later j h k e =
      let (a, m, first, second) =
        submit-eq-ok (replay payloads blank lease_ttl calls) s metadata now later j _ h k refl e in
      let (d, found, same) =
        register_row-eq-ok s.name s.version s.fingerprint metadata now j _ a m refl first in
      let (row, there, work, handle) =
        submit_row-eq-ok s later (replay payloads blank lease_ttl calls m) second in
      let evolves =
        (Ensures-submit_row s later).at (replay payloads blank lease_ttl calls m) second in
      let (kept, stands, unchanged) =
        Follows-some (λ r s. s ≡ r) d _ _
          (definition-fixed payloads blank lease_ttl calls m s.name s.version d found)
          (evolves.definitions (s.name, s.version)) in
      record {
        definition = kept;
        registered = stands;
        same_shape = ap (λ (x : DefinitionRow). x.fingerprint) unchanged ∙ same;
        row = row;
        found = there;
        work = work;
      }

  module _ (s t : Submission) (metadata again : String)
      (registers submits registers_again submits_again : ℕ)
      (within calls within_again : List (Call V × ℕ)) (j k : Journal) (h : ExecutionHandle)
      (returned : submit (replay payloads blank lease_ttl within) s metadata registers submits j
        ≡ (ok h, k))
      (same_id : t.execution_id ≡ s.execution_id) where
    abbrev later : Journal
    later = replay payloads blank lease_ttl calls k

    on_record : IsSubmitted s later
    on_record =
        replay-IsSubmitted s calls k
          (submit-IsSubmitted s within metadata registers submits j h k returned)

    -- After a `submit` that returned and any history of calls, a `submit` under the same execution
    -- id, of a definition of the same name and version, raises a DurableVersionError and changes
    -- nothing if the fingerprint differs. Otherwise it makes no change of its own to the journal
    -- that others left between its two transactions: it returns a handle of the execution as that
    -- journal has it if the input is the same, and raises a DurableConflictError if not. Others may
    -- have made any calls between the two transactions of the first `submit`, too.
    pub submit-twice :
        t.name ≡ s.name
        → t.version ≡ s.version
        → (row : ExecutionRow) × (find s.execution_id
              (replay payloads blank lease_ttl within_again later).executions
            ≡ some row)
          × (submit
                (replay payloads blank lease_ttl within_again)
                t
                again
                registers_again
                submits_again
                later
              ≡ (if not (s.fingerprint == t.fingerprint) then (err durable_version, later) else (
                if s.payload == t.payload then ok (handle_of s row) else err durable_conflict,
                replay payloads blank lease_ttl within_again later,
              )))
    submit-twice name version =
        let then_on = replay-IsSubmitted s within_again later on_record in
        (
          then_on.row,
          then_on.found,
          submit_again (replay payloads blank lease_ttl within_again) s t again registers_again
              submits_again later on_record then_on _ same_id name version refl,
        )

    -- After a `submit` that returned and any history of calls, a `submit` under the same execution
    -- id, of a definition of another name or version, raises. If that name and version are
    -- registered with another fingerprint, it is a DurableVersionError, and nothing changes;
    -- otherwise it is a DurableConflictError, and of the two transactions, between which others may
    -- make any calls, the first changes no table but that of the definitions, the second none.
    pub submit_other-IsRefused :
        (s.name == t.name && s.version == t.version) ≡ false
        → IsRefused
            (replay payloads blank lease_ttl within_again)
            t
            later
            (commit (register_row t.name t.version t.fingerprint again registers_again) later).1
            (submit
              (replay payloads blank lease_ttl within_again)
              t
              again
              registers_again
              submits_again
              later)
    submit_other-IsRefused other =
        submit_other (replay payloads blank lease_ttl within_again) s t again registers_again
          submits_again later _ refl
          (replay-IsSubmitted s within_again _
            (register-IsSubmitted s t again registers_again later on_record))
          same_id other
