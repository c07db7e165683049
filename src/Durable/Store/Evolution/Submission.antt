-- ===== src/Durable/Store/Evolution/Submission.antt =====
-- Registration and submission of src/xyberos/durable/store.py respect `Evolves`.
use xyberos.Prelude.{ℕ, String, Option, none, some, List, [], ◌∷◌}
use xyberos.Durable.Rows.{ExecutionRow, DefinitionRow}
use xyberos.Durable.Txn.Ensures.{Ensures, Ensures-bind}
use xyberos.Durable.Store.Submission.{
  Submission, register_found, submit_found, register_row, insert_steps, insert_submission,
  submit_row, new_step,
}
use xyberos.Durable.Store.Evolution.{Evolves, Evolves-preorder}
use xyberos.Durable.Store.Evolution.Primitives.{evolution_rules, Ensures-insert_step}

Ensures-register_found :
    (name version fingerprint metadata : String) (now : ℕ) (o : Option DefinitionRow)
    → Ensures Evolves (register_found name version fingerprint metadata now o)
Ensures-register_found name version fingerprint metadata now none = search evolution_rules
Ensures-register_found name version fingerprint metadata now (some row) = search evolution_rules

pub Ensures-register_row :
    (name version fingerprint metadata : String) (now : ℕ)
    → Ensures Evolves (register_row name version fingerprint metadata now)
unfolding register_row
Ensures-register_row name version fingerprint metadata now =
    search (evolution_rules, Ensures-register_found)

Ensures-insert_steps : (i : String) (ids : List String) → Ensures Evolves (insert_steps i ids)
unfolding insert_steps
Ensures-insert_steps i [] = search evolution_rules
Ensures-insert_steps i (k ∷ ks) =
    Ensures-bind Evolves-preorder _ _ (Ensures-insert_step i k new_step)
      (λ u. Ensures-insert_steps i ks)

Ensures-insert_submission : (s : Submission) (now : ℕ) → Ensures Evolves (insert_submission s now)
unfolding insert_submission
Ensures-insert_submission s now = search (evolution_rules, Ensures-insert_steps) depth 9

Ensures-submit_found :
    (s : Submission) (now : ℕ) (o : Option ExecutionRow) → Ensures Evolves (submit_found s now o)
Ensures-submit_found s now none = Ensures-insert_submission s now
Ensures-submit_found s now (some row) = search evolution_rules

pub Ensures-submit_row : (s : Submission) (now : ℕ) → Ensures Evolves (submit_row s now)
unfolding submit_row
Ensures-submit_row s now = search (evolution_rules, Ensures-submit_found)
