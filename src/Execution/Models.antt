-- ===== src/Execution/Models.antt =====
-- src/xyberos/execution/models.py: workflow definitions. `V` is the type of step outputs; the step
-- functions, the retry policies, the declared types and the metadata are not fields of the model.
-- A predicate is given `None` where no output is recorded.
use xyberos.Prelude.{
  ℕ, String, Bool, true, false, Option, List, [], ◌∷◌, ◌++◌, map, ◌==◌, string_eq, if◌then◌else◌,
  ◌||◌, Eq,
}
use xyberos.Errors.{Result, ok, err, workflow_validation}

pub record Step : Type 0 where
  pub id : String
  -- microseconds
  pub timeout : Option ℕ

pub record Edge (V : Type 0) : Type 0 where
  pub source : String
  pub target : String
  pub when : Option (Option V → Bool)

pub record Workflow (V : Type 0) : Type 0 where
  pub name : String
  pub version : String
  pub steps : List Step
  pub edges : List (Edge V)

-- A comprehension `[x for x in xs if test(x)]`
unfoldable pub select : {A : Type 0} → (A → Bool) → List A → List A
select test [] = []
select test (x ∷ xs) = let rest = select test xs in if test x then x ∷ rest else rest

-- `x in collection`
abbrev pub contains {ℓ} : {A : Type ℓ} ⦃e : Eq A⦄ → A → List A → Bool
contains a [] = false
contains a (x ∷ xs) = x == a || contains a xs

abbrev pub is_empty : {A : Type 0} → List A → Bool
is_empty [] = true
is_empty (x ∷ xs) = false

unfoldable pub find_step : String → List Step → Result Step
find_step step_id [] = err workflow_validation
find_step step_id (s ∷ ss) = if s.id == step_id then ok s else find_step step_id ss

module _ {V : Type 0} where
  pub with_step : Workflow V → Step → Workflow V
  with_step w step = record w { steps = w.steps ++ step ∷ [] }

  pub with_edge : Workflow V → Edge V → Workflow V
  with_edge w edge = record w { edges = w.edges ++ edge ∷ [] }

  abbrev pub step_ids : Workflow V → List String
  step_ids w = map (λ s. s.id) w.steps

  unfoldable pub outgoing : Workflow V → String → List (Edge V)
  unfolding select
  outgoing w step_id = select (λ e. e.source == step_id) w.edges

  unfoldable pub incoming : Workflow V → String → List (Edge V)
  unfolding select
  incoming w step_id = select (λ e. e.target == step_id) w.edges

  unfoldable pub entries : Workflow V → List Step
  unfolding incoming
  entries w = select (λ s. is_empty (incoming w s.id)) w.steps

  unfoldable pub exits : Workflow V → List Step
  unfolding outgoing
  exits w = select (λ s. is_empty (outgoing w s.id)) w.steps

  unfoldable pub step_by_id : Workflow V → String → Result Step
  unfolding find_step
  step_by_id w step_id = find_step step_id w.steps
