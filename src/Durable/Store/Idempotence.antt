-- ===== src/Durable/Store/Idempotence.antt =====
-- Repeated submissions, `submit` of src/xyberos/durable/store.py.
use xyberos.Prelude.{
  ℕ, String, ◌≡◌, Bool, true, ◌&&◌, Option, none, some, List, [], ◌∷◌, arith, ap, ◌∙◌, string_eq,
  pair_eq, ◌==◌, refl,
}
use text.Mathlib.TextPositions.{eq_refl}
use xyberos.Errors.{ok}
use xyberos.Table.{find, upsert, find-upsert}
use xyberos.Durable.Rows.{ExecutionRow, Journal}
use xyberos.Durable.Models.{EventKind}
use xyberos.Durable.Txn.{pure, ◌>>◌, insert_execution, insert_step, append_event}
use xyberos.Durable.Txn.Ensures.{>>=-eq-ok}
use xyberos.Durable.Store.Submission.{
  Submission, ExecutionHandle, new_execution, new_step, same_work, handle_of, insert_steps,
  insert_submission, submit_found, submit_row,
}

-- Two submissions ask for the same work.
abbrev pub same_request : Submission → Submission → Bool
same_request s t =
    s.name == t.name
    && (s.version == t.version && (s.fingerprint == t.fingerprint && s.payload == t.payload))

executions-insert_step :
    (i k : String) (j : Journal) {u : Unit {0}} {l : Journal}
    → insert_step i k new_step j ≡ ok (u, l)
    → l.executions ≡ j.executions
unfolding insert_step
executions-insert_step i k j e = ground arith

executions-insert_steps :
    (i : String) (ids : List String) (j : Journal) {u : Unit {0}} {l : Journal}
    → insert_steps i ids j ≡ ok (u, l)
    → l.executions ≡ j.executions
unfolding insert_steps
executions-insert_steps i [] j e = ground arith
executions-insert_steps i (k ∷ ks) j e =
    let (u, m, first, rest) = >>=-eq-ok (insert_step i k new_step) (λ u. insert_steps i ks) j e in
    executions-insert_steps i ks m rest ∙ executions-insert_step i k j first

-- Where a submission returns, its execution is on record with the work that it asked for.
finish-eq-ok :
    (s : Submission) (now : ℕ) (j : Journal) {h : ExecutionHandle} {k : Journal}
    → (append_event s.execution_id EventKind.submitted now none none
          >> pure (handle_of s (new_execution s now)))
        j
      ≡ ok (h, k)
    → (h ≡ handle_of s (new_execution s now)) × (k.executions ≡ j.executions)
unfolding append_event
finish-eq-ok s now j e = ground arith

insert_execution-eq-ok :
    (i : String) (row : ExecutionRow) (j : Journal) {u : Unit {0}} {k : Journal}
    → insert_execution i row j ≡ ok (u, k)
    → k.executions ≡ upsert i row j.executions
unfolding insert_execution
insert_execution-eq-ok i row j e = ground arith

abbrev pub OnRecord : Submission → ExecutionHandle → Journal → Type 0
OnRecord s h k =
    (row : ExecutionRow) × (find s.execution_id k.executions ≡ some row)
    × (same_work s row ≡ true)
    × (h ≡ handle_of s row)

insert_submission-eq-ok :
    (s : Submission) (now : ℕ) (j : Journal) {h : ExecutionHandle} {k : Journal}
    → insert_submission s now j ≡ ok (h, k)
    → OnRecord s h k
unfolding insert_submission
insert_submission-eq-ok s now j e =
    let (u, a, e1, e2) =
      >>=-eq-ok (insert_execution s.execution_id (new_execution s now))
        (λ u.
          insert_steps s.execution_id s.step_ids
          >> (append_event s.execution_id EventKind.submitted now none none
              >> pure (handle_of s (new_execution s now))))
        j e in
    let (v, b, e3, e4) =
      >>=-eq-ok (insert_steps s.execution_id s.step_ids)
        (λ u.
          append_event s.execution_id EventKind.submitted now none none
          >> pure (handle_of s (new_execution s now)))
        a e2 in
    let one = insert_execution-eq-ok s.execution_id (new_execution s now) j e1 in
    let two = executions-insert_steps s.execution_id s.step_ids a e3 in
    let (handle, three) = finish-eq-ok s now b e4 in
    (new_execution s now, simp (three, two, one, find-upsert, eq_refl), simp eq_refl, handle)

submit_again-eq-ok :
    (s : Submission) (now : ℕ) (j : Journal) (row : ExecutionRow) {h : ExecutionHandle}
    {k : Journal}
    → submit_found s now (some row) j ≡ ok (h, k)
    → (same_work s row ≡ true) × (h ≡ handle_of s row) × (k ≡ j)
submit_again-eq-ok s now j row e = ground arith

submit_found-eq-ok :
    (s : Submission) (now : ℕ) (j : Journal) (o : Option ExecutionRow) {h : ExecutionHandle}
    {k : Journal}
    → find s.execution_id j.executions ≡ o
    → submit_found s now o j ≡ ok (h, k)
    → OnRecord s h k
submit_found-eq-ok s now j none q e = insert_submission-eq-ok s now j e
submit_found-eq-ok s now j (some row) q e =
    let (work, handle, unchanged) = submit_again-eq-ok s now j row e in
    (row, ap (λ (x : Journal). find s.execution_id x.executions) unchanged ∙ q, work, handle)

pub submit_row-eq-ok :
    (s : Submission) (now : ℕ) (j : Journal) {h : ExecutionHandle} {k : Journal}
    → submit_row s now j ≡ ok (h, k)
    → OnRecord s h k
unfolding submit_row
submit_row-eq-ok s now j e = submit_found-eq-ok s now j (find s.execution_id j.executions) refl e

pub same_work-same_request :
    (s t : Submission) (row : ExecutionRow)
    → same_work s row ≡ true
    → same_work t row ≡ same_request s t
same_work-same_request s t row h = ground (
  arith,
  string_eq.beq_iff row.workflow s.name,
  string_eq.beq_iff row.version s.version,
  string_eq.beq_iff row.fingerprint s.fingerprint,
  string_eq.beq_iff row.input s.payload,
)
