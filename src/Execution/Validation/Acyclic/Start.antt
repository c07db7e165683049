-- ===== src/Execution/Validation/Acyclic/Start.antt =====
-- The counters and the queue with which `_validate_acyclic` of src/xyberos/execution/validation.py
-- starts.
use xyberos.Prelude.{
  ℕ, ◌+◌, ◌≤◌, String, ◌≡◌, refl, some, List, [], ◌∷◌, arith, nat_beq, leb, if◌then◌else◌, ◌==◌,
  string_eq, count, one_if, ap, ◌∙◌,
}
use xyberos.Table.{Table, find, update, upsert, find-update, find-upsert}
use xyberos.Execution.Models.{Edge, Workflow, select, step_ids}
use xyberos.Execution.Validation.Acyclic.{degree, zeros, indegrees, initial}
use xyberos.Execution.Validation.Acyclic.Pending.{pending}
use xyberos.Execution.Validation.Acyclic.Rounds.{Holds}

find-zeros :
    (ids : List String) (t : Table String ℕ) (x : String)
    → find x (zeros ids t) ≡ (if leb 1 (count x ids) then some 0 else find x t)
unfolding zeros
find-zeros [] t x = refl
find-zeros (i ∷ is) t x = ground (arith, find-zeros is (upsert i 0 t) x, find-upsert i x 0 t)

module _ {V : Type 0} where
  find-indegrees :
      (es : List (Edge V)) (t : Table String ℕ) (x : String) (d : ℕ)
      → find x t ≡ some d
      → find x (indegrees es t) ≡ some (pending es [] x + d)
  unfolding indegrees
  find-indegrees [] t x d h = ground (arith, h)
  find-indegrees (e ∷ es) t x d h =
      find-indegrees es (update e.target (λ d. d + 1) t) x (one_if (e.target == x) + d)
        (ground (arith, find-update e.target x (λ d. d + 1) t, h))
      ∙ ground arith

count-select :
    (degrees : Table String ℕ) (ids : List String) (x : String)
    → count x (select (λ i. nat_beq (degree i degrees) 0) ids)
      ≡ (if nat_beq (degree x degrees) 0 then count x ids else 0)
unfolding select
count-select degrees [] x = ground arith
count-select degrees (i ∷ is) x = ground (arith, count-select degrees is x, string_eq.beq_iff i x)

module _ {V : Type 0} (w : Workflow V) where
  find-initial :
      (x : String)
      → 1 ≤ count x (step_ids w)
      → find x (initial w).degrees ≡ some (pending w.edges [] x)
  find-initial x i =
      find-indegrees w.edges (zeros (step_ids w) []) x 0
        (ground (arith, i, find-zeros (step_ids w) [] x))
      ∙ ap (λ (n : ℕ). some n) (omega arith)

  pub initial-Holds :
      ((x : String) → count x (step_ids w) ≤ 1) → Holds w.edges (step_ids w) [] [] (initial w)
  initial-Holds distinct = record {
    counted = λ x i. ground (arith, find-initial x i);
    listed = λ x i. ground (arith, find-initial x i);
    once = λ x i. ground (arith, i, distinct x, count-select (initial w).degrees (step_ids w) x);
    declared = λ x n. ground (arith, n, count-select (initial w).degrees (step_ids w) x);
  }
