-- ===== src/Durable/Recovery/Decisions.antt =====
-- What `_recover_one` of src/xyberos/durable/recovery.py says that it decided is in the journal.
use xyberos.Prelude.{
  ℕ, String, ◌≡◌, Bool, true, false, Option, some, List, [], ◌∷◌, refl, sym, subst, string_eq,
  if◌then◌else◌,
}
use xyberos.Errors.{Result, ok}
use xyberos.Table.{Table}
use xyberos.Execution.Models.{is_empty}
use xyberos.Durable.Models.{ExecutionStatus, StepState, FailureKind, ActivityPolicy, same_state}
use xyberos.Durable.Rows.{Claim, Journal}
use xyberos.Durable.Definitions.{DefinitionLookup, require_definition}
use xyberos.Durable.Scheduler.{Plan, plan_next}
use xyberos.Durable.Store.Writes.{Payloads}
use xyberos.Durable.Store.Steps.{yield_execution}
use xyberos.Durable.Store.Endings.{acknowledge_cancellation, fail_execution}
use xyberos.Durable.Store.Inspection.{step_states, completed_outputs, running_steps}
use xyberos.Durable.Store.Landing.Calls.{
  Lands-fail_execution, Lands-acknowledge_cancellation, Lands-yield_execution,
}
use xyberos.Durable.Work.{Work, Turn, pure, lift, ◌>>=◌, query}
use xyberos.Durable.Work.Reached.{Moment, Runs, Moment-extend, Moment-last}
use xyberos.Durable.Work.Rules.{Runs-pure, Runs-lift, Runs-bind, Runs-query, Runs-except_version}
use xyberos.Durable.Work.Calls.{
  yield_execution-IsCall, fail_execution-IsCall, acknowledge_cancellation-IsCall,
}
use xyberos.Durable.Recovery.{
  Python, RecoveryAction, Decision, last_state, decision_of, input_for, resolve_interrupted_attempt,
  resolve_all, recover_running, recover_idle, recover_uncancelled, recover_cancelled, recover_one,
  stop_incompatible, examine,
}
use xyberos.Durable.Recovery.Reports.{
  settled_status, Settled, Runs-report, resolve_interrupted_attempt-Runs,
}

-- The status that a decision stands for
abbrev pub decided_status : RecoveryAction → ExecutionStatus
decided_status RecoveryAction.resumed = ExecutionStatus.pending
decided_status RecoveryAction.parked = ExecutionStatus.waiting
decided_status RecoveryAction.cancelled = ExecutionStatus.cancelled
decided_status RecoveryAction.stopped = ExecutionStatus.failed

decision_of-status :
    (state : StepState) → decided_status (decision_of state).action ≡ settled_status state
decision_of-status state = by_doubt (same_state state StepState.outcome_unknown)
  where
    by_doubt :
        (b : Bool)
        → decided_status (if b then RecoveryAction.parked else RecoveryAction.resumed)
          ≡ (if b then ExecutionStatus.waiting else ExecutionStatus.pending)
    by_doubt true = refl
    by_doubt false = refl

module _ {V : Type 0} (payloads : Payloads V) (blank : String → Bool) (lease_ttl : ℕ) where
  -- At some moment of the pass the execution had the status that the decision stands for.
  abbrev pub Decides : String → Decision → Journal → Journal → Type 0
  Decides i d j k = Moment payloads blank lease_ttl i (decided_status d.action) j k

  abbrev pub DecidesAll : Table String Decision → Journal → Journal → Type 0
  DecidesAll [] j k = Unit {0}
  DecidesAll ((i, d) ∷ rest) j k = Decides i d j k × DecidesAll rest j k

  -- The last attempt that was decided is in the journal.
  abbrev pub LastSettled : Claim → List StepState → Journal → Journal → Type 0
  LastSettled claim states j k =
      (x : StepState) × (xs : List StepState) × (states ≡ x ∷ xs)
      × Settled payloads blank lease_ttl claim (last_state states) j k

module _ {V : Type 0} (payloads : Payloads V) (blank : String → Bool) (lease_ttl : ℕ)
    (schedule : ℕ → Turn V) (python : Python V)
    (activities : String → Option (ActivityPolicy V)) where
  resolve_all-LastSettled :
      (claim : Claim) (plan : Plan V) (step_id : String) (rest : List String)
      → Runs payloads blank lease_ttl (LastSettled payloads blank lease_ttl claim) (
          resolve_all payloads blank lease_ttl schedule python activities claim plan
            (step_id ∷ rest))
  unfolding resolve_all
  resolve_all-LastSettled claim plan step_id [] =
      let value = input_for payloads blank lease_ttl schedule python plan step_id claim in
      Runs-bind (λ state states k l. (states ≡ state ∷ []) × (k ≡ l))
        (resolve_interrupted_attempt payloads blank lease_ttl schedule python activities claim
          step_id value)
        (λ state. pure [] >>= λ states. pure (state ∷ states))
        (resolve_interrupted_attempt-Runs schedule python activities claim step_id value)
        (λ state. Runs-pure (state ∷ []) (λ j. (refl, refl)))
        (λ state states j k l before settled onwards same.
          let (is, stays) = same in
          subst (λ (x : List StepState). LastSettled payloads blank lease_ttl claim x j l) (sym is)
            (state, [], refl, Moment-last j k l settled onwards))
  resolve_all-LastSettled claim plan step_id (next ∷ rest) =
      let value = input_for payloads blank lease_ttl schedule python plan step_id claim in
      Runs-bind
        (λ state states k l.
          (x : StepState) × (xs : List StepState) × (states ≡ state ∷ x ∷ xs)
          × Settled payloads blank lease_ttl claim (last_state (x ∷ xs)) k l)
        (resolve_interrupted_attempt payloads blank lease_ttl schedule python activities claim
          step_id value)
        (λ state.
          resolve_all payloads blank lease_ttl schedule python activities claim plan (next ∷ rest)
          >>= λ states. pure (state ∷ states))
        (resolve_interrupted_attempt-Runs schedule python activities claim step_id value)
        (λ state.
          Runs-bind (λ states all k l. (all ≡ state ∷ states) × (k ≡ l))
            (resolve_all payloads blank lease_ttl schedule python activities claim plan
              (next ∷ rest))
            (λ states. pure (state ∷ states)) (resolve_all-LastSettled claim plan next rest)
            (λ states. Runs-pure (state ∷ states) (λ j. (refl, refl)))
            (λ states all j k l before last onwards same.
              let (is, stays) = same in
              let (x, xs, e, settled) = last in
              (
                x,
                xs,
                cc (is, e),
                subst
                    (λ (t : List StepState).
                      Settled payloads blank lease_ttl claim (last_state t) j l)
                    e (Moment-last j k l settled onwards),
              )))
        (λ state states j k l before settled onwards last.
          let (x, xs, e, rest_settled) = last in
          (
            state,
            x ∷ xs,
            e,
            subst
                (λ (t : List StepState). Settled payloads blank lease_ttl claim (last_state t) j l)
                (sym e) (Moment-extend j k l before rest_settled),
          ))

  module _ (lookup : DefinitionLookup V) (claim : Claim) where
    skips :
        {A : Type 0} (m : Work A) (f : A → Work Decision)
        → Runs payloads blank lease_ttl (λ a j k. Unit {0}) m
        → ((a : A)
            → Runs payloads blank lease_ttl
                (Decides payloads blank lease_ttl claim.execution_id)
                (f a))
        → Runs payloads blank lease_ttl
            (Decides payloads blank lease_ttl claim.execution_id)
            (m >>= f)
    skips m f hm hf =
        Runs-bind (λ a d k l. Decides payloads blank lease_ttl claim.execution_id d k l) m f hm hf
          (λ a d j k l before u onwards r. Moment-extend j k l before r)

    reads :
        {A : Type 0} (f : ℕ → Journal → Result A)
        → Runs payloads blank lease_ttl
            (λ a j k. Unit {0})
            (query payloads blank lease_ttl schedule f)
    reads f = Runs-query schedule {P = λ a j k. Unit {0}} f (λ now i j a r e. tt)

    recover_running-Runs :
        (step_id : String) (rest : List String)
        → Runs payloads blank lease_ttl (Decides payloads blank lease_ttl claim.execution_id) (
            recover_running payloads blank lease_ttl schedule python activities lookup claim
              (step_id ∷ rest))
    unfolding recover_running
    recover_running-Runs step_id rest =
        skips (lift (require_definition python.sorted python.digest lookup claim)) _
          (Runs-lift (require_definition python.sorted python.digest lookup claim) (λ a j e. tt))
          (λ workflow.
            skips
              (query payloads blank lease_ttl schedule
                (λ now j. ok (step_states claim.execution_id j)))
              _ (reads (λ now j. ok (step_states claim.execution_id j)))
              (λ states.
                skips
                  (query payloads blank lease_ttl schedule
                    (λ now j. ok (completed_outputs python.null python.loads claim.execution_id j)))
                  _
                  (reads
                    (λ now j. ok (completed_outputs python.null python.loads claim.execution_id j)))
                  (λ outputs.
                    skips (lift (plan_next python.sorted workflow states outputs)) _
                      (Runs-lift (plan_next python.sorted workflow states outputs) (λ a j e. tt))
                      (λ plan.
                        Runs-bind
                          (λ resolved d k l. (d ≡ decision_of (last_state resolved)) × (k ≡ l))
                          (resolve_all payloads blank lease_ttl schedule python activities claim
                            plan (step_id ∷ rest))
                          (λ resolved. pure (decision_of (last_state resolved)))
                          (resolve_all-LastSettled claim plan step_id rest)
                          (λ resolved.
                            Runs-pure (decision_of (last_state resolved)) (λ j. (refl, refl)))
                          (λ resolved d j k l before last onwards same.
                            let (is, stays) = same in
                            let (x, xs, e, settled) = last in
                            subst
                              (λ (y : Decision).
                                Decides payloads blank lease_ttl claim.execution_id y j l)
                              (sym is)
                              (subst
                                (λ (s : ExecutionStatus).
                                  Moment payloads blank lease_ttl claim.execution_id s j l)
                                (sym (decision_of-status (last_state resolved)))
                                (Moment-last j k l settled onwards)))))))

    by_running :
        (running : List String)
        → Runs payloads blank lease_ttl (Decides payloads blank lease_ttl claim.execution_id) (
            if is_empty running
            then recover_idle payloads blank lease_ttl schedule python activities lookup claim
            else recover_running payloads blank lease_ttl schedule python activities lookup claim
                running)
    by_running [] =
        Runs-report schedule claim.execution_id ExecutionStatus.pending
          (λ now later. yield_execution claim now)
          (record { action = RecoveryAction.resumed; state = StepState.pending })
          (yield_execution-IsCall claim) (λ now later. Lands-yield_execution claim now)
          (λ j k moment. moment)
    by_running (step_id ∷ rest) = recover_running-Runs step_id rest

    by_request :
        (requested : Bool)
        → Runs payloads blank lease_ttl (Decides payloads blank lease_ttl claim.execution_id) (
            if requested
            then recover_cancelled payloads blank lease_ttl schedule python activities lookup claim
            else recover_uncancelled payloads blank lease_ttl schedule python activities lookup
                claim)
    by_request true =
        Runs-report schedule claim.execution_id ExecutionStatus.cancelled
          (λ now later. acknowledge_cancellation claim (some "cancellation requested earlier") now)
          (record { action = RecoveryAction.cancelled; state = StepState.failed })
          (acknowledge_cancellation-IsCall claim (some "cancellation requested earlier"))
          (λ now later.
            Lands-acknowledge_cancellation claim (some "cancellation requested earlier") now)
          (λ j k moment. moment)
    by_request false =
        skips
          (query payloads blank lease_ttl schedule
            (λ now j. ok (running_steps claim.execution_id j)))
          _ (reads (λ now j. ok (running_steps claim.execution_id j))) by_running

    pub examine-Runs :
        Runs payloads blank lease_ttl
          (Decides payloads blank lease_ttl claim.execution_id)
          (examine payloads blank lease_ttl schedule python activities lookup claim)
    unfolding recover_one
    examine-Runs =
        Runs-except_version
          (recover_one payloads blank lease_ttl schedule python activities lookup claim)
          (stop_incompatible payloads blank lease_ttl schedule python activities lookup claim)
          (by_request claim.cancellation_requested)
          (Runs-report schedule claim.execution_id ExecutionStatus.failed
            (λ now later. fail_execution claim FailureKind.incompatible_definition now)
            (record { action = RecoveryAction.stopped; state = StepState.failed })
            (fail_execution-IsCall claim FailureKind.incompatible_definition)
            (λ now later. Lands-fail_execution claim FailureKind.incompatible_definition now)
            (λ j k moment. moment))
          (λ d j k l before moment. Moment-extend j k l before moment)
