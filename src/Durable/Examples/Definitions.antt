-- ===== src/Durable/Examples/Definitions.antt =====
-- The validation of src/xyberos/execution/validation.py on a small workflow.
use xyberos.Prelude.{ℕ, ◌≤◌, ◌≡◌, ◌↔◌, String, some, refl, string_eq, pair_eq, length}
use xyberos.Errors.{ok}
use xyberos.Table.{find, update, upsert}
use xyberos.Execution.Models.{select, step_ids}
use xyberos.Execution.Validation.{
  validate_edges, validate_steps, check_edges, check_edge, check_steps, check_step,
}
use xyberos.Execution.Validation.Edges.{IsOrdered, validate_edges-IsOrdered}
use xyberos.Execution.Validation.Steps.{IsDeclared, validate_steps-IsDeclared}
use xyberos.Execution.Validation.Ranked.{IsRanked}
use xyberos.Execution.Validation.Acyclic.{
  validate_acyclic, visited_steps, visit_ready, release_all, indegrees, zeros,
}
use xyberos.Execution.Validation.Acyclic.Decides.{visited_steps_ends, validate_acyclic_iff}
use xyberos.Durable.Scheduler.{Plan, plan_next}
use xyberos.Durable.Scheduler.Validated.{plan_next-validated}
use xyberos.Durable.Examples.{blank, flow, as_is, loaded, recorded}

validate_edges-IsOrdered_example : IsOrdered flow
unfolding validate_edges check_edges check_edge
validate_edges-IsOrdered_example = validate_edges-IsOrdered flow refl

validate_steps-IsDeclared_example : IsDeclared blank flow
unfolding validate_steps check_steps check_step
validate_steps-IsDeclared_example = validate_steps-IsDeclared blank flow refl

visited_steps_ends_example :
    (visited : ℕ) × (visited_steps flow ≡ some visited) × (visited ≤ length (step_ids flow))
unfolding validate_steps check_steps check_step validate_edges check_edges check_edge
visited_steps_ends_example = visited_steps_ends blank flow refl refl

validate_acyclic_iff_example :
    (validate_acyclic flow ≡ ok tt) ↔ ((rank : String → ℕ) × IsRanked flow rank)
unfolding validate_steps check_steps check_step validate_edges check_edges check_edge
validate_acyclic_iff_example = validate_acyclic_iff blank flow refl refl

plan_next-validated_example : (p : Plan String) × (plan_next as_is flow loaded recorded ≡ ok p)
unfolding validate_steps check_steps check_step validate_edges check_edges check_edge
    validate_acyclic visited_steps visit_ready release_all indegrees zeros select find update upsert
plan_next-validated_example = plan_next-validated as_is blank flow loaded recorded refl refl refl
