-- ===== src/Execution/Validation.antt =====
-- src/xyberos/execution/validation.py: `_validate_steps` and `_validate_edges`. What Python says of a
-- callable (its parameters, whether it is a coroutine function) and the class of a retry policy are
-- not in the model, so that the checks of these are left out; `blank` is `not text.strip()`.
pub mod Edges
pub mod Ranked
pub mod Acyclic
pub mod Steps
use xyberos.Prelude.{
  ℕ, String, Bool, true, false, not, ◌||◌, Option, none, some, List, [], ◌∷◌, ◌==◌, string_eq,
  pair_eq, ltb,
}
use xyberos.Errors.{Result, ok, err, require, ◌>>◌, workflow_validation}
use xyberos.Execution.Models.{Step, Edge, Workflow, is_empty, step_ids, contains}

abbrev pub refuse_if : Bool → Result (Unit {0})
refuse_if test = require (not test) workflow_validation

abbrev pub positive : Option ℕ → Bool
positive none = true
positive (some timeout) = ltb 0 timeout

-- The body of the loop over the steps
unfoldable pub check_step : (String → Bool) → List String → Step → Result (Unit {0})
check_step blank seen s =
    refuse_if (blank s.id)
    >> (refuse_if (contains s.id seen) >> require (positive s.timeout) workflow_validation)

unfoldable pub check_steps : (String → Bool) → List String → List Step → Result (Unit {0})
check_steps blank seen [] = ok tt
check_steps blank seen (s ∷ ss) = check_step blank seen s >> check_steps blank (s.id ∷ seen) ss

-- `edge.when`, and the sources with an unconditional edge so far. The two branches of the code ask
-- for the same.
abbrev pub fallback_after : {A : Type 0} → Option A → String → List String → List String
fallback_after none source fallback = source ∷ fallback
fallback_after (some when) source fallback = fallback

module _ {V : Type 0} where
  unfoldable pub validate_steps : (String → Bool) → Workflow V → Result (Unit {0})
  unfolding check_steps
  validate_steps blank w = refuse_if (is_empty w.steps) >> check_steps blank [] w.steps

  -- The body of the loop over the edges
  unfoldable pub check_edge :
      List String → List (String × String) → List String → Edge V → Result (Unit {0})
  check_edge declared seen fallback e =
      require (contains e.source declared) workflow_validation
      >> (require (contains e.target declared) workflow_validation
          >> (refuse_if (e.source == e.target)
              >> (refuse_if (contains (e.source, e.target) seen)
                  >> refuse_if (contains e.source fallback))))

  unfoldable pub check_edges :
      List String → List (String × String) → List String → List (Edge V) → Result (Unit {0})
  check_edges declared seen fallback [] = ok tt
  check_edges declared seen fallback (e ∷ es) =
      check_edge declared seen fallback e
      >> check_edges declared ((e.source, e.target) ∷ seen)
          (fallback_after e.when e.source fallback) es

  unfoldable pub validate_edges : Workflow V → Result (Unit {0})
  unfolding check_edges
  validate_edges w = check_edges (step_ids w) [] [] w.edges
