-- ===== src/Durable/Scheduler.antt =====
-- src/xyberos/durable/scheduler.py: which step runs next. The texts of `reason` are not modelled;
-- Python's `sorted` on texts is a parameter.
pub mod Sound
pub mod Progress
pub mod Validated
use xyberos.Prelude.{
  String, Bool, true, false, not, ◌&&◌, ◌||◌, Option, none, some, List, [], ◌∷◌, map, is_none,
  if◌then◌else◌, ◌==◌, string_eq, pair_eq,
}
use xyberos.Errors.{Result, ok, err, durable_state}
use xyberos.Table.{Table, find, upsert}
use xyberos.Execution.Models.{
  contains, Step, Edge, Workflow, select, is_empty, incoming, outgoing, exits,
}
use xyberos.Durable.Models.{StepState, same_state, step_is_terminal}

pub data PlanKind : Type 0 where
  run_step skip_step complete conflict needs_decision : PlanKind

-- `value=None` and an absent output are both `none`.
pub record Plan (V : Type 0) : Type 0 where
  pub kind : PlanKind
  pub step : Option Step
  pub value : Option V
  pub outputs : Option (Table String V)
  pub sources : List String

-- What the loop does with one step: `continue`, `undecided = True`, or a return
pub data Verdict (V : Type 0) : Type 0 where
  resolved waits : Verdict V
  decided : Plan V → Verdict V

abbrev pub or_pending : Option StepState → StepState
or_pending none = StepState.pending
or_pending (some s) = s

-- `len(reached) > 1`
abbrev pub has_two : List String → Bool
has_two [] = false
has_two (a ∷ []) = false
has_two (a ∷ b ∷ rest) = true

module _ {V : Type 0} where
  -- `edge.when is None or edge.when(output)`
  abbrev pub takes : Option V → Option (Option V → Bool) → Bool
  takes output none = true
  takes output (some predicate) = predicate output

  unfoldable pub select_edge : List (Edge V) → Option V → Option (Edge V)
  select_edge [] output = none
  select_edge (e ∷ es) output = if takes output e.when then some e else select_edge es output

  -- `taken.add(…)` of the selected edge
  abbrev pub add_edge : Option (Edge V) → List (String × String) → List (String × String)
  add_edge none taken = taken
  add_edge (some e) taken = (e.source, e.target) ∷ taken

  -- `if step.id in outputs`, in the comprehension of the results
  abbrev pub with_output : String → Option V → Table String V → Table String V
  with_output step_id none t = t
  with_output step_id (some v) t = upsert step_id v t

  unfoldable pub results : Table String V → List Step → Table String V → Table String V
  results outputs [] t = t
  results outputs (s ∷ ss) t = results outputs ss (with_output s.id (find s.id outputs) t)

  module _ (sorted : List String → List String) (w : Workflow V) (states : Table String StepState)
      (outputs : Table String V) where
    abbrev pub state_of : String → StepState
    state_of step_id = or_pending (find step_id states)

    abbrev pub is_resolved : String → Bool
    is_resolved step_id = step_is_terminal (state_of step_id)

    abbrev pub step_edges : Step → List (String × String) → List (String × String)
    step_edges s taken =
        if same_state (state_of s.id) StepState.succeeded
        then add_edge (select_edge (outgoing w s.id) (find s.id outputs)) taken
        else taken

    unfoldable pub taken_from : List Step → List (String × String)
    taken_from [] = []
    taken_from (s ∷ ss) = step_edges s (taken_from ss)

    -- `_taken_edges`; the order of a set is not seen.
    unfoldable pub taken_edges : List (String × String)
    unfolding taken_from
    taken_edges = taken_from w.steps

    -- `reached`: the sources of the taken edges into a step
    unfoldable pub reached : String → List String
    reached step_id =
        map (λ e. e.source)
          (select (λ e. contains (e.source, e.target) taken_edges) (incoming w step_id))

    -- `unresolved`
    unfoldable pub unresolved : String → List String
    unresolved step_id =
        map (λ e. e.source) (select (λ e. not (is_resolved e.source)) (incoming w step_id))

    abbrev decision : PlanKind → Step → Option V → List String → Verdict V
    decision kind s value sources =
        decided
          (record { kind = kind; step = some s; value = value; outputs = none; sources = sources })

    -- The step's turn in the loop once its sources resolved, by the sources that reached it
    abbrev settled : Step → Bool → List String → Verdict V
    settled s entry [] =
        if entry
        then decision PlanKind.run_step s none []
        else decision PlanKind.skip_step s none []
    settled s entry (source ∷ rest) =
        decision PlanKind.run_step s (find source outputs) (source ∷ [])

    unfoldable pub verdict : Step → Verdict V
    unfolding reached unresolved
    verdict s =
        if is_resolved s.id
        then resolved
        else if same_state (state_of s.id) StepState.outcome_unknown
        then decision PlanKind.needs_decision s none []
        else if has_two (reached s.id)
        then decision PlanKind.conflict s none (sorted (reached s.id))
        else if not (is_empty (unresolved s.id))
        then waits
        else settled s (is_empty (incoming w s.id)) (reached s.id)

    abbrev pub complete_plan : Plan V
    complete_plan = record {
      kind = PlanKind.complete;
      step = none;
      value = none;
      outputs = some (results outputs (exits w) []);
      sources = [];
    }

    -- `rest` is the loop over the steps that follow.
    abbrev pub after_verdict : Verdict V → (Bool → Result (Plan V)) → Bool → Result (Plan V)
    after_verdict resolved rest undecided = rest undecided
    after_verdict waits rest undecided = rest true
    after_verdict (decided p) rest undecided = ok p

    unfoldable pub decide : List Step → Bool → Result (Plan V)
    decide [] undecided = if undecided then err durable_state else ok complete_plan
    decide (s ∷ ss) undecided = after_verdict (verdict s) (decide ss) undecided

    unfoldable pub plan_next : Result (Plan V)
    unfolding decide
    plan_next = decide w.steps false
