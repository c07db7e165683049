-- ===== src/Durable/Store/Resubmission.antt =====
-- `submit` of src/xyberos/durable/store.py under an execution id that is on record.
pub mod Histories
use xyberos.Prelude.{
  ℕ, String, ◌≡◌, Bool, true, not, ◌&&◌, Option, none, some, List, [], ◌∷◌, arith, false, refl, ap,
  subst, ◌∙◌, string_eq, pair_eq, ◌==◌, if◌then◌else◌,
}
use xyberos.Errors.{Error, Result, ok, err, durable_version, durable_conflict}
use xyberos.Table.{find, find-upsert}
use xyberos.Durable.Rows.{ExecutionRow, DefinitionRow, Journal}
use xyberos.Durable.Txn.{Txn, commit, insert_definition}
use xyberos.Durable.Store.Submission.{
  Submission, ExecutionHandle, same_work, handle_of, register_row, submit_row, submit,
}
use xyberos.Durable.Store.Idempotence.{same_request, submit_row-eq-ok, same_work-same_request}
use xyberos.Durable.Store.Writes.{Payloads}
use xyberos.Durable.Store.History
use xyberos.Durable.Store.History.{Call, perform, replay}
use xyberos.Durable.Store.History.Evolution.{submission-fixed, definition-fixed}
use xyberos.Durable.Store.Evolution.{Follows-some}
use xyberos.Durable.Store.Evolution.Submission.{Ensures-submit_row}

pub register_row-eq-ok :
    (name version fingerprint metadata : String) (now : ℕ) (j : Journal) (o : Option DefinitionRow)
    (a : String) (k : Journal)
    → find (name, version) j.definitions ≡ o
    → register_row name version fingerprint metadata now j ≡ ok (a, k)
    → (d : DefinitionRow) × (find (name, version) k.definitions ≡ some d)
      × (d.fingerprint ≡ fingerprint)
unfolding register_row insert_definition
register_row-eq-ok name version fingerprint metadata now j none a k q e = (
  record { fingerprint = fingerprint; metadata = metadata; registered_at = now },
  ground (
    arith,
    find-upsert (name, version) (name, version)
        (record { fingerprint = fingerprint; metadata = metadata; registered_at = now })
        j.definitions,
    pair_eq.beq_iff (name, version) (name, version),
  ),
  refl,
)
register_row-eq-ok name version fingerprint metadata now j (some d) a k q e =
    (d, ground arith, ground (arith, string_eq.beq_iff d.fingerprint fingerprint))

commit-eq-ok :
    {A : Type 0} (m : Txn A) (j : Journal) (r : Result (A × Journal)) {a : A} {k : Journal}
    → m j ≡ r
    → commit m j ≡ (ok a, k)
    → m j ≡ ok (a, k)
unfolding commit
commit-eq-ok m j (ok (b, l)) q e = q ∙ ground (arith, q, e)
commit-eq-ok m j (err x) q e = absurd (ground (arith, q, e))

commit-ok :
    {A : Type 0} (m : Txn A) (j k : Journal) (a : A) → m j ≡ ok (a, k) → commit m j ≡ (ok a, k)
unfolding commit
commit-ok m j k a e = rw e refl

commit-err :
    {A : Type 0} (m : Txn A) (j : Journal) (x : Error) → m j ≡ err x → commit m j ≡ (err x, j)
unfolding commit
commit-err m j x e = rw e refl

-- A submission that returned has registered its definition and then made its execution.
pub submit-eq-ok :
    (others : Journal → Journal) (s : Submission) (metadata : String) (now later : ℕ) (j : Journal)
    (r : Result (String × Journal)) (h : ExecutionHandle) (k : Journal)
    → register_row s.name s.version s.fingerprint metadata now j ≡ r
    → submit others s metadata now later j ≡ (ok h, k)
    → (a : String) × (m : Journal) × (register_row s.name s.version s.fingerprint metadata now j
        ≡ ok (a, m))
      × (submit_row s later (others m) ≡ ok (h, k))
unfolding submit commit
submit-eq-ok others s metadata now later j (ok (a, m)) h k q e =
    (a, m, q, commit-eq-ok (submit_row s later) (others m) _ refl (rw q at e))
submit-eq-ok others s metadata now later j (err x) h k q e = absurd (ground (arith, q, e))

-- The definition is registered with another fingerprint.
abbrev pub is_changed : Submission → Option DefinitionRow → Bool
is_changed t none = false
is_changed t (some d) = not (d.fingerprint == t.fingerprint)

-- What `register_definition` answers: it touches no table but that of the definitions.
abbrev Registers : Submission → Journal → Option DefinitionRow → Result (String × Journal) → Type 0
Registers t k o (ok (a, m)) =
    (is_changed t o ≡ false) × (m ≡ record k { definitions = m.definitions })
Registers t k o (err x) = (is_changed t o ≡ true) × (x ≡ durable_version)

register_row-Registers :
    (t : Submission) (metadata : String) (now : ℕ) (k : Journal) (o : Option DefinitionRow)
    (r : Result (String × Journal))
    → find (t.name, t.version) k.definitions ≡ o
    → register_row t.name t.version t.fingerprint metadata now k ≡ r
    → Registers t k o r
unfolding register_row insert_definition
register_row-Registers t metadata now k none (ok (a, m)) q e = (refl, ground arith)
register_row-Registers t metadata now k none (err x) q e = absurd (ground arith)
register_row-Registers t metadata now k (some d) (ok (a, m)) q e = (ground arith, ground arith)
register_row-Registers t metadata now k (some d) (err x) q e = (ground arith, ground arith)

-- Where a submission returned, its definition and its execution are on record.
pub record IsSubmitted (s : Submission) (k : Journal) : Type 0 where
  pub definition : DefinitionRow
  pub registered : find (s.name, s.version) k.definitions ≡ some definition
  pub same_shape : definition.fingerprint ≡ s.fingerprint
  pub row : ExecutionRow
  pub found : find s.execution_id k.executions ≡ some row
  pub work : same_work s row ≡ true

-- The second transaction, where the execution is on record
submit_row_again :
    (s t : Submission) (now : ℕ) (k : Journal) (on : IsSubmitted s k)
    → t.execution_id ≡ s.execution_id
    → commit (submit_row t now) k
      ≡ (if same_request s t then ok (handle_of s on.row) else err durable_conflict, k)
unfolding commit submit_row
submit_row_again s t now k on id =
    ground (arith, on.found, id, same_work-same_request s t on.row on.work)

register_row_again :
    (s t : Submission) (metadata : String) (now : ℕ) (k : Journal) (on : IsSubmitted s k) (b : Bool)
    → t.name ≡ s.name
    → t.version ≡ s.version
    → (s.fingerprint == t.fingerprint) ≡ b
    → register_row t.name t.version t.fingerprint metadata now k
      ≡ (if b then ok (t.fingerprint, k) else err durable_version)
unfolding register_row
register_row_again s t metadata now k on b name version same = ground (
  arith,
  on.registered,
  on.same_shape,
  name,
  version,
  same,
  string_eq.beq_iff s.fingerprint t.fingerprint,
  string_eq.beq_iff on.definition.fingerprint t.fingerprint,
)

-- The same name and version
pub submit_again :
    (others : Journal → Journal) (s t : Submission) (metadata : String) (now later : ℕ)
    (k : Journal) (on : IsSubmitted s k) (then_on : IsSubmitted s (others k)) (b : Bool)
    → t.execution_id ≡ s.execution_id
    → t.name ≡ s.name
    → t.version ≡ s.version
    → (s.fingerprint == t.fingerprint) ≡ b
    → submit others t metadata now later k ≡ (
        if not b then (err durable_version, k) else (
          if s.payload == t.payload then ok (handle_of s then_on.row) else err durable_conflict,
          others k,
        ))
unfolding submit
submit_again others s t metadata now later k on then_on true id name version same =
    rw
      (
        commit-ok (register_row t.name t.version t.fingerprint metadata now) k k t.fingerprint
            (register_row_again s t metadata now k on true name version same),
        submit_row_again s t later (others k) then_on id,
      )
      (ground (
        arith,
        name,
        version,
        same,
        string_eq.beq_iff s.name t.name,
        string_eq.beq_iff s.version t.version,
      ))
submit_again others s t metadata now later k on then_on false id name version same =
    rw
      (commit-err (register_row t.name t.version t.fingerprint metadata now) k durable_version
        (register_row_again s t metadata now k on false name version same))
      refl

-- What a refused `submit` of another definition answers and leaves: `given` is the journal that its
-- first transaction leaves.
pub record IsRefused (others : Journal → Journal) (t : Submission) (k given : Journal)
    (r : Result ExecutionHandle × Journal) : Type 0 where
  pub answer : r ≡ (
      if is_changed t (find (t.name, t.version) k.definitions)
      then (err durable_version, k)
      else (err durable_conflict, others given))
  pub only_definitions : given ≡ record k { definitions = given.definitions }

pub submit_other :
    (others : Journal → Journal) (s t : Submission) (metadata : String) (now later : ℕ)
    (k : Journal) (r : Result (String × Journal))
    → register_row t.name t.version t.fingerprint metadata now k ≡ r
    → IsSubmitted s (others (commit (register_row t.name t.version t.fingerprint metadata now) k).1)
    → t.execution_id ≡ s.execution_id
    → (s.name == t.name && s.version == t.version) ≡ false
    → IsRefused others t k
        (commit (register_row t.name t.version t.fingerprint metadata now) k).1
        (submit others t metadata now later k)
unfolding submit
submit_other others s t metadata now later k (ok (a, m)) q then_on id other =
    let (same, only) = register_row-Registers t metadata now k _ (ok (a, m)) refl q in
    let done = commit-ok (register_row t.name t.version t.fingerprint metadata now) k m a q in
    let on = subst (λ (c : Result String × Journal). IsSubmitted s (others c.1)) done then_on in
    record {
      answer = rw (done, same, submit_row_again s t later (others m) on id) (ground (arith, other));
      only_definitions = rw done only;
    }
submit_other others s t metadata now later k (err x) q then_on id other =
    let (changed, why) = register_row-Registers t metadata now k _ (err x) refl q in
    let done = commit-err (register_row t.name t.version t.fingerprint metadata now) k x q in
    record { answer = rw (done, changed, why) refl; only_definitions = rw done refl }
