-- ===== src/Durable/Txn.antt =====
-- Transactions of the journal: a statement sees what the earlier ones wrote, and a raised error
-- rolls all of them back. `JournalStore._write` runs one operation in one transaction; the retries
-- of `SqliteDatabase.retrying` on a locked file repeat it from the unchanged journal.
pub mod Ensures
pub mod Blocked
use xyberos.Prelude.{
  ℕ, String, Bool, true, false, Option, none, some, [], ◌∷◌, ◌++◌, is_some, if◌then◌else◌,
  string_eq, pair_eq,
}
use xyberos.Errors.{Error, durable_state, integrity, Result, ok, err}
use xyberos.Table.{find, update, upsert, delete}
use xyberos.Durable.Models.{EventKind}
use xyberos.Durable.Rows.{ExecutionRow, StepRow, LeaseRow, RetryRow, DefinitionRow, Journal}

abbrev pub Txn : Type 0 → Type 0
Txn A = Journal → Result (A × Journal)

module _ {A : Type 0} where
  abbrev pub pure : A → Txn A
  pure a j = ok (a, j)

  abbrev pub raise : Error → Txn A
  raise e j = err e

  abbrev pub lift : Result A → Txn A
  lift (ok a) j = ok (a, j)
  lift (err e) j = err e

  -- a SELECT
  abbrev pub read : (Journal → A) → Txn A
  read f j = ok (f j, j)

infixl 5 ◌>>=◌ ◌>>◌
abbrev pub ◌>>=◌ : {A B : Type 0} → Txn A → (A → Txn B) → Txn B
◌>>=◌ m f j = elim (m j) [ err e ↦ err e | ok (a, j') ↦ f a j' ]

abbrev pub ◌>>◌ : {B : Type 0} → Txn (Unit {0}) → Txn B → Txn B
m >> k = m >>= λ _. k

-- `_write`: the result, and the journal that the transaction leaves behind
abbrev pub settle : {A : Type 0} → Journal → Result (A × Journal) → Result A × Journal
settle j (ok (a, j')) = (ok a, j')
settle j (err e) = (err e, j)

unfoldable pub commit : {A : Type 0} → Txn A → Journal → Result A × Journal
commit m j = settle j (m j)

abbrev pub or_raise : {A : Type 0} → Option A → Error → Txn A
or_raise none e j = err e
or_raise (some a) e j = ok (a, j)

-- `_execution_row`
unfoldable pub execution_row : String → Txn ExecutionRow
execution_row execution_id j = or_raise (find execution_id j.executions) durable_state j

-- `_step_row`
unfoldable pub step_row : String → String → Txn StepRow
step_row execution_id step_id j = or_raise (find (execution_id, step_id) j.steps) durable_state j

-- UPDATE executions … WHERE execution_id = … AND …, with `rowcount == 1` for its result
unfoldable pub update_execution :
    String → (ExecutionRow → Bool) → (ExecutionRow → ExecutionRow) → Txn Bool
update_execution execution_id test set j = elim (find execution_id j.executions) [
  | none ↦ ok (false, j)
  | some row ↦
      if test row
      then ok (true, record j { executions = update execution_id set j.executions })
      else ok (false, j)
]

-- UPDATE execution_steps … WHERE execution_id = … AND step_id = … AND …
unfoldable pub update_step : String → String → (StepRow → Bool) → (StepRow → StepRow) → Txn Bool
update_step execution_id step_id test set j = elim (find (execution_id, step_id) j.steps) [
  | none ↦ ok (false, j)
  | some row ↦
      if test row
      then ok (true, record j { steps = update (execution_id, step_id) set j.steps })
      else ok (false, j)
]

-- UPDATE worker_leases … WHERE execution_id = … AND …
unfoldable pub update_lease : String → (LeaseRow → Bool) → (LeaseRow → LeaseRow) → Txn Bool
update_lease execution_id test set j = elim (find execution_id j.leases) [
  | none ↦ ok (false, j)
  | some row ↦
      if test row
      then ok (true, record j { leases = update execution_id set j.leases })
      else ok (false, j)
]

-- INSERT: a row that meets its primary key raises.
unfoldable pub insert_execution : String → ExecutionRow → Txn (Unit {0})
insert_execution execution_id row j =
    if is_some (find execution_id j.executions)
    then err integrity
    else ok (tt, record j { executions = upsert execution_id row j.executions })

unfoldable pub insert_step : String → String → StepRow → Txn (Unit {0})
insert_step execution_id step_id row j =
    if is_some (find (execution_id, step_id) j.steps)
    then err integrity
    else ok (tt, record j { steps = upsert (execution_id, step_id) row j.steps })

unfoldable pub insert_definition : String → String → DefinitionRow → Txn (Unit {0})
insert_definition workflow version row j =
    if is_some (find (workflow, version) j.definitions)
    then err integrity
    else ok (tt, record j { definitions = upsert (workflow, version) row j.definitions })

unfoldable pub upsert_lease : String → LeaseRow → Txn (Unit {0})
upsert_lease execution_id row j = ok (tt, record j { leases = upsert execution_id row j.leases })

unfoldable pub upsert_retry : String → RetryRow → Txn (Unit {0})
upsert_retry execution_id row j = ok (tt, record j { retries = upsert execution_id row j.retries })

unfoldable pub delete_retry : String → Txn (Unit {0})
delete_retry execution_id j = ok (tt, record j { retries = delete execution_id j.retries })

-- `_append_event`
unfoldable pub append_event : String → EventKind → ℕ → Option String → Option ℕ → Txn (Unit {0})
append_event execution_id kind at step_id attempt j = ok (
  tt,
  record j {
    events =
        j.events
        ++ record {
          execution_id = execution_id;
          kind = kind;
          step_id = step_id;
          attempt = attempt;
          at = at;
        }
          ∷ [];
  },
)
