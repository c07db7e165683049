-- ===== src/Execution/Validation/Acyclic.antt =====
-- `_validate_acyclic` of src/xyberos/execution/validation.py: steps are taken off a queue once all
-- their sources were. The loop runs on fuel; the description of the cycle that it found is the text
-- of the error and not modelled.
pub mod Pending
pub mod Rounds
pub mod Start
pub mod Decides
use xyberos.Prelude.{
  ℕ, zero, suc, ◌+◌, ◌-◌, String, Bool, true, false, not, Option, none, some, List, [], ◌∷◌, ◌++◌,
  map, nat_beq, if◌then◌else◌, ◌==◌, string_eq, length,
}
use xyberos.Errors.{Result, ok, err, require, workflow_validation}
use xyberos.Table.{Table, find, update, upsert}
use xyberos.Execution.Models.{Edge, Workflow, select, step_ids}

abbrev pub or_zero : Option ℕ → ℕ
or_zero none = 0
or_zero (some n) = n

-- `indegree[step_id]`, whose keys are the declared steps
abbrev pub degree : String → Table String ℕ → ℕ
degree step_id degrees = or_zero (find step_id degrees)

-- `{step_id: 0 for step_id in …}`
unfoldable pub zeros : List String → Table String ℕ → Table String ℕ
zeros [] t = t
zeros (i ∷ is) t = zeros is (upsert i 0 t)

-- `indegree` and `ready`
pub record Queue : Type 0 where
  pub degrees : Table String ℕ
  pub ready : List String

-- `indegree[target] -= 1`, and the target is ready if that leaves 0. The entry was above 0, so that
-- this is so exactly where it was 1.
abbrev pub release : String → Queue → Queue
release target q = record {
  degrees = update target (λ d. d - 1) q.degrees;
  ready = if nat_beq (degree target q.degrees) 1 then q.ready ++ target ∷ [] else q.ready;
}

unfoldable pub release_all : List String → Queue → Queue
release_all [] q = q
release_all (t ∷ ts) q = release_all ts (release t q)

module _ {V : Type 0} where
  -- `successors[step_id]`
  abbrev pub successors : List (Edge V) → String → List String
  successors edges step_id = map (λ e. e.target) (select (λ e. e.source == step_id) edges)

  unfoldable pub indegrees : List (Edge V) → Table String ℕ → Table String ℕ
  indegrees [] t = t
  indegrees (e ∷ es) t = indegrees es (update e.target (λ d. d + 1) t)

  -- `visited`, or `none` if the fuel ran out
  unfoldable pub visit_ready : ℕ → List (Edge V) → Table String ℕ → List String → ℕ → Option ℕ
  visit_ready zero edges degrees ready visited = none
  visit_ready (suc fuel) edges degrees [] visited = some visited
  visit_ready (suc fuel) edges degrees (current ∷ rest) visited =
      let q = release_all (successors edges current) (record { degrees = degrees; ready = rest }) in
      visit_ready fuel edges q.degrees q.ready (visited + 1)

  abbrev pub initial : Workflow V → Queue
  initial w =
      let degrees = indegrees w.edges (zeros (step_ids w) []) in
      record { degrees = degrees; ready = select (λ i. nat_beq (degree i degrees) 0) (step_ids w) }

  -- One round for each step, and one for the test that ends the loop
  abbrev pub fuel_for : Workflow V → ℕ
  fuel_for w = length (step_ids w) + 1

  abbrev pub all_visited : Workflow V → Option ℕ → Bool
  all_visited w none = false
  all_visited w (some visited) = nat_beq visited (length (step_ids w))

  unfoldable pub visited_steps : Workflow V → Option ℕ
  unfolding visit_ready
  visited_steps w = visit_ready (fuel_for w) w.edges (initial w).degrees (initial w).ready 0

  unfoldable pub validate_acyclic : Workflow V → Result (Unit {0})
  unfolding visited_steps
  validate_acyclic w = require (all_visited w (visited_steps w)) workflow_validation
