-- ===== src/Durable/Recovery.antt =====
-- src/xyberos/durable/recovery.py: what an interrupted attempt means. The texts of the details are
-- not modelled, except that each is given to the journal.
pub mod Reports
pub mod Decisions
pub mod Runs
use xyberos.Prelude.{
  ℕ, zero, suc, String, Bool, true, false, Option, none, some, List, [], ◌∷◌, if◌then◌else◌, ◌==◌,
  string_eq, ◌&&◌,
}
use xyberos.Errors.{Result}
use xyberos.Table.{Table}
use xyberos.Execution.Models.{Step, Workflow, is_empty}
use xyberos.Durable.Models.{StepState, same_state, ActivityPolicy, Reconciliation}
use xyberos.Durable.Rows.{Claim}
use xyberos.Durable.Definitions.{DefinitionLookup, require_definition}
use xyberos.Durable.Scheduler.{Plan, PlanKind, plan_next}
use xyberos.Durable.Store.Writes.{Payloads}
use xyberos.Durable.Store.Submission.{Shape}
use xyberos.Durable.Store.Steps.{resolve_step, mark_step_outcome_unknown, yield_execution}
use xyberos.Durable.Store.Endings.{acknowledge_cancellation, fail_execution}
use xyberos.Durable.Store.Claims.{claim_next}
use xyberos.Durable.Store.Inspection.{
  load, running_steps, step_states, completed_outputs, expired_leases,
}
use xyberos.Durable.Work.{Work, Turn, pure, lift, ◌>>=◌, ◌>>◌, except_version, write, query}
use xyberos.Errors.{ok}
use xyberos.Durable.Models.{FailureKind}

-- What Python gives the worker: `None`, `json.loads`, a dictionary as a value, `sorted` on texts, and
-- the hash of a definition's JSON text
pub record Python (V : Type 0) : Type 0 where
  pub null : V
  pub loads : String → V
  pub mapping : Table String V → V
  pub sorted : List String → List String
  pub digest : Shape → String

pub data RecoveryAction : Type 0 where
  resumed parked cancelled stopped : RecoveryAction

-- `_Decision`
pub record Decision : Type 0 where
  pub action : RecoveryAction
  pub state : StepState

abbrev is_run_step : PlanKind → Bool
is_run_step PlanKind.run_step = true
is_run_step PlanKind.skip_step = false
is_run_step PlanKind.complete = false
is_run_step PlanKind.conflict = false
is_run_step PlanKind.needs_decision = false

abbrev is_step : String → Option Step → Bool
is_step step_id none = false
is_step step_id (some step) = step.id == step_id

-- `detail or text`, and `reason or text`: an empty text counts as none.
abbrev pub or_text : Option String → String → String
or_text none text = text
or_text (some detail) text = if detail == "" then text else detail

-- `xs[:n]`
unfoldable pub take : {A : Type 0} → ℕ → List A → List A
take n [] = []
take zero (x ∷ xs) = []
take (suc n) (x ∷ xs) = x ∷ take n xs

-- The last state of a loop, `PENDING` where there was no step
abbrev pub last_state : List StepState → StepState
last_state [] = StepState.pending
last_state (state ∷ []) = state
last_state (state ∷ next ∷ rest) = last_state (next ∷ rest)

abbrev pub decision_of : StepState → Decision
decision_of state = record {
  action =
      if same_state state StepState.outcome_unknown
      then RecoveryAction.parked
      else RecoveryAction.resumed;
  state = state;
}

module _ {V : Type 0} (payloads : Payloads V) (blank : String → Bool) (lease_ttl : ℕ)
    (schedule : ℕ → Turn V) (python : Python V) where
  -- `claim.input if not plan.sources else plan.value`
  abbrev pub planned_input : Claim → Plan V → V
  planned_input claim plan =
      if is_empty plan.sources
      then python.loads claim.input
      else elim plan.value [ none ↦ python.null | some value ↦ value ]

  unfoldable pub input_for : Plan V → String → Claim → V
  input_for plan step_id claim =
      if is_run_step plan.kind && is_step step_id plan.step
      then planned_input claim plan
      else python.loads claim.input

  module _ (activities : String → Option (ActivityPolicy V)) where
    unfoldable pub mark_unknown : Claim → String → String → Work StepState
    mark_unknown claim step_id reason = do
      write payloads blank lease_ttl schedule
          (λ now later. mark_step_outcome_unknown claim step_id reason now)
      pure StepState.outcome_unknown

    unfoldable pub settle_as : Claim → String → StepState → V → Option String → Work StepState
    settle_as claim step_id state output detail = do
      write payloads blank lease_ttl schedule
          (λ now later. resolve_step payloads claim step_id state output detail now)
      pure state

    unfoldable pub follow : Claim → String → Reconciliation V → Work StepState
    unfolding mark_unknown settle_as
    follow claim step_id decision =
        if same_state decision.state StepState.outcome_unknown
        then mark_unknown claim step_id
            (or_text decision.detail "the reconciler could not decide what happened")
        else settle_as claim step_id decision.state decision.output
            (some (or_text decision.detail "reconciled"))

    abbrev pub by_reconciler :
        Claim → String → V → Option (String → V → Reconciliation V) → Work StepState
    by_reconciler claim step_id step_input none =
        mark_unknown claim step_id "the outcome of the attempt cannot be proven"
    by_reconciler claim step_id step_input (some reconcile) =
        follow claim step_id (reconcile step_id step_input)

    -- A step without a policy has `ActivityPolicy()`.
    abbrev pub by_policy : Claim → String → V → Option (ActivityPolicy V) → Work StepState
    by_policy claim step_id step_input none = by_reconciler claim step_id step_input none
    by_policy claim step_id step_input (some policy) =
        if policy.idempotent
        then settle_as claim step_id StepState.pending python.null
            (some "idempotent: the attempt is repeated")
        else by_reconciler claim step_id step_input policy.reconcile

    unfoldable pub resolve_interrupted_attempt : Claim → String → V → Work StepState
    unfolding mark_unknown settle_as follow
    resolve_interrupted_attempt claim step_id step_input =
        by_policy claim step_id step_input (activities step_id)

    -- The loops over the interrupted steps: the states in the order of the steps
    unfoldable pub resolve_all : Claim → Plan V → List String → Work (List StepState)
    unfolding resolve_interrupted_attempt
    resolve_all claim plan [] = pure []
    resolve_all claim plan (step_id ∷ rest) = do
      state ← resolve_interrupted_attempt claim step_id (input_for plan step_id claim)
      states ← resolve_all claim plan rest
      pure (state ∷ states)

    module _ (lookup : DefinitionLookup V) where
      unfoldable pub recover_running : Claim → List String → Work Decision
      recover_running claim running = do
        workflow ← lift (require_definition python.sorted python.digest lookup claim)
        states ←
            query payloads blank lease_ttl schedule (λ now j. ok (step_states claim.execution_id j))
        outputs ←
            query payloads blank lease_ttl schedule
              (λ now j. ok (completed_outputs python.null python.loads claim.execution_id j))
        plan ← lift (plan_next python.sorted workflow states outputs)
        resolved ← resolve_all claim plan running
        pure (decision_of (last_state resolved))

      abbrev pub recover_idle : Claim → Work Decision
      recover_idle claim = do
        write payloads blank lease_ttl schedule (λ now later. yield_execution claim now)
        pure (record { action = RecoveryAction.resumed; state = StepState.pending })

      abbrev pub recover_uncancelled : Claim → Work Decision
      recover_uncancelled claim = do
        running ←
            query payloads blank lease_ttl schedule
              (λ now j. ok (running_steps claim.execution_id j))
        if is_empty running then recover_idle claim else recover_running claim running

      abbrev pub recover_cancelled : Claim → Work Decision
      recover_cancelled claim = do
        write payloads blank lease_ttl schedule (λ now later.
            acknowledge_cancellation claim (some "cancellation requested earlier") now)
        pure (record { action = RecoveryAction.cancelled; state = StepState.failed })

      -- `_recover_one`
      unfoldable pub recover_one : Claim → Work Decision
      unfolding recover_running
      recover_one claim =
          if claim.cancellation_requested
          then recover_cancelled claim
          else recover_uncancelled claim

      abbrev pub stop_incompatible : Claim → Work Decision
      stop_incompatible claim = do
        write payloads blank lease_ttl schedule
            (λ now later. fail_execution claim FailureKind.incompatible_definition now)
        pure (record { action = RecoveryAction.stopped; state = StepState.failed })

      abbrev pub examine : Claim → Work Decision
      examine claim = except_version (recover_one claim) (stop_incompatible claim)

      -- The loop of `recover`: what was decided, execution by execution, up to the `break`
      unfoldable pub recover_each : String → Option ℕ → List String → Work (Table String Decision)
      unfolding recover_one recover_running
      recover_each owner ttl [] = pure []
      recover_each owner ttl (execution_id ∷ rest) = do
        claimed ←
            write payloads blank lease_ttl schedule
              (λ now later. claim_next blank lease_ttl owner ttl now)
        elim claimed [
          | none ↦ pure []
          | some claim ↦
              if claim.execution_id == execution_id
              then (do
                decision ← examine claim
                others ← recover_each owner ttl rest
                pure ((execution_id, decision) ∷ others))
              else pure []
        ]

      unfoldable pub recover : String → Option ℕ → ℕ → Work (Table String Decision)
      unfolding recover_each
      recover owner ttl limit = do
        expired ← query payloads blank lease_ttl schedule (λ now j. ok (expired_leases now j))
        recover_each owner ttl (take limit expired)
