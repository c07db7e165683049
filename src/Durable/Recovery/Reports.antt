-- ===== src/Durable/Recovery/Reports.antt =====
-- Where an interrupted attempt is left in doubt, the execution waits for a decision.
use xyberos.Prelude.{if◌then◌else◌}
use xyberos.Prelude.{
  ℕ, String, ◌≡◌, Bool, true, false, Option, none, some, List, [], ◌∷◌, arith, refl, subst, sym,
  ◌⊎◌, inl, inr, Bool-cases,
}
use xyberos.Execution.Models.{contains}
use xyberos.Durable.Models.{
  ExecutionStatus, StepState, same_state, state_eq, ActivityPolicy, Reconciliation,
}
use xyberos.Durable.Rows.{Claim, Journal}
use xyberos.Durable.Scheduler.{Plan}
use xyberos.Durable.Store.Writes.{Payloads}
use xyberos.Durable.Store.Landing.{Has, Lands}
use xyberos.Durable.Store.Landing.Calls.{Lands-mark_step_outcome_unknown, Lands-resolve_step}
use xyberos.Durable.Txn.{Txn}
use xyberos.Durable.Store.Steps.{mark_step_outcome_unknown, resolve_step}
use xyberos.Durable.Work.{Turn, pure, ◌>>=◌, ◌>>◌, write}
use xyberos.Durable.Work.Reached.{
  Reached, Moment, Runs, IsCall, Moment-extend, Moment-last, Reached-refl,
}
use xyberos.Durable.Work.Rules.{Runs-pure, Runs-bind, Runs-write, Runs-if}
use xyberos.Durable.Work.Calls.{mark_step_outcome_unknown-IsCall, resolve_step-IsCall}
use xyberos.Durable.Recovery.{
  Python, or_text, input_for, mark_unknown, settle_as, follow, by_reconciler, by_policy,
  resolve_interrupted_attempt, resolve_all,
}

-- The status in which a decided attempt leaves its execution
abbrev pub settled_status : StepState → ExecutionStatus
settled_status state =
    if same_state state StepState.outcome_unknown
    then ExecutionStatus.waiting
    else ExecutionStatus.pending

module _ {V : Type 0} (payloads : Payloads V) (blank : String → Bool) (lease_ttl : ℕ)
    (claim : Claim) where
  -- A decision about an attempt is in the journal: the execution waits where it is left in doubt,
  -- and is ready again otherwise.
  abbrev pub Settled : StepState → Journal → Journal → Type 0
  Settled state j k = Moment payloads blank lease_ttl claim.execution_id (settled_status state) j k

  abbrev pub Doubted : StepState → Journal → Journal → Type 0
  Doubted state j k =
      state ≡ StepState.outcome_unknown
      → Moment payloads blank lease_ttl claim.execution_id ExecutionStatus.waiting j k

  -- Some attempt was left in doubt.
  abbrev pub SomeDoubted : List StepState → Journal → Journal → Type 0
  SomeDoubted states j k =
      contains StepState.outcome_unknown states ≡ true
      → Moment payloads blank lease_ttl claim.execution_id ExecutionStatus.waiting j k

module _ {V : Type 0} {payloads : Payloads V} {blank : String → Bool} {lease_ttl : ℕ} where
  -- A call that lands in a status was a moment of that status.
  pub Has-Moment :
      {i : String} {s : ExecutionStatus} (i0 j : Journal)
      → Reached payloads blank lease_ttl i0 j
      → Has i s j
      → Moment payloads blank lease_ttl i s i0 j
  Has-Moment i0 j before has = record {
    then_was = j;
    before = before;
    row = has.row;
    found = has.found;
    had = has.had;
    after = Reached-refl j;
  }

  module _ (schedule : ℕ → Turn V) where
    -- A call, then the answer
    pub Runs-report :
        {A B : Type 0} {P : B → Journal → Journal → Type 0} (i : String) (s : ExecutionStatus)
        (op : ℕ → ℕ → Txn A) (b : B)
        → IsCall payloads blank lease_ttl op
        → ((now later : ℕ) → Lands i s (op now later))
        → ((j k : Journal) → Moment payloads blank lease_ttl i s j k → P b j k)
        → Runs payloads blank lease_ttl P (write payloads blank lease_ttl schedule op >> pure b)
    Runs-report {A} {B} {P} i s op b one lands fits =
        Runs-bind (λ a c k l. (c ≡ b) × (l ≡ k)) (write payloads blank lease_ttl schedule op)
          (λ a. pure b)
          (Runs-write schedule {P = λ a j k. Moment payloads blank lease_ttl i s j k} op one
            (λ now later i0 j a k e reached. Has-Moment i0 k reached ((lands now later).at j e)))
          (λ a. Runs-pure b (λ j. (refl, refl)))
          (λ a c j k l before moment onwards same.
            let (answer, last) = same in
            subst (λ x. P x j l) (sym answer) (subst (λ x. P b j x) (sym last) (fits j k moment)))

    module _ (python : Python V) (activities : String → Option (ActivityPolicy V)) (claim : Claim)
        (step_id : String) where
      mark_unknown-Runs :
          (reason : String)
          → Runs payloads blank lease_ttl (Settled payloads blank lease_ttl claim) (
              mark_unknown payloads blank lease_ttl schedule python activities claim step_id reason)
      unfolding mark_unknown
      mark_unknown-Runs reason =
          Runs-report claim.execution_id ExecutionStatus.waiting
            (λ now later. mark_step_outcome_unknown claim step_id reason now)
            StepState.outcome_unknown (mark_step_outcome_unknown-IsCall claim step_id reason)
            (λ now later. Lands-mark_step_outcome_unknown claim step_id reason now)
            (λ j k moment. moment)

      settle_as-Runs :
          (state : StepState) (output : V) (detail : Option String)
          → same_state state StepState.outcome_unknown ≡ false
          → Runs payloads blank lease_ttl (Settled payloads blank lease_ttl claim) (
              settle_as payloads blank lease_ttl schedule python activities claim step_id state
                output detail)
      unfolding settle_as
      settle_as-Runs state output detail decided =
          Runs-report claim.execution_id ExecutionStatus.pending
            (λ now later. resolve_step payloads claim step_id state output detail now) state
            (resolve_step-IsCall claim step_id state output detail)
            (λ now later. Lands-resolve_step payloads claim step_id state output detail now)
            (λ j k moment.
              subst
                (λ (b : Bool).
                  Moment payloads blank lease_ttl claim.execution_id
                    (if b then ExecutionStatus.waiting else ExecutionStatus.pending) j k)
                (sym decided) moment)

      follow-Runs :
          (decision : Reconciliation V)
          → Runs payloads blank lease_ttl
              (Settled payloads blank lease_ttl claim)
              (follow payloads blank lease_ttl schedule python activities claim step_id decision)
      unfolding follow
      follow-Runs decision =
          Runs-if (same_state decision.state StepState.outcome_unknown)
            (mark_unknown payloads blank lease_ttl schedule python activities claim step_id
              (or_text decision.detail "the reconciler could not decide what happened"))
            (settle_as payloads blank lease_ttl schedule python activities claim step_id
              decision.state decision.output (some (or_text decision.detail "reconciled")))
            (λ unknown.
              mark_unknown-Runs
                (or_text decision.detail "the reconciler could not decide what happened"))
            (λ decided.
              settle_as-Runs decision.state decision.output
                (some (or_text decision.detail "reconciled")) decided)

      by_reconciler-Runs :
          (step_input : V) (reconcile : Option (String → V → Reconciliation V))
          → Runs payloads blank lease_ttl (Settled payloads blank lease_ttl claim) (
              by_reconciler payloads blank lease_ttl schedule python activities claim step_id
                step_input reconcile)
      by_reconciler-Runs step_input none =
          mark_unknown-Runs "the outcome of the attempt cannot be proven"
      by_reconciler-Runs step_input (some reconcile) = follow-Runs (reconcile step_id step_input)

      by_policy-Runs :
          (step_input : V) (policy : Option (ActivityPolicy V))
          → Runs payloads blank lease_ttl (Settled payloads blank lease_ttl claim) (
              by_policy payloads blank lease_ttl schedule python activities claim step_id step_input
                policy)
      by_policy-Runs step_input none = by_reconciler-Runs step_input none
      by_policy-Runs step_input (some policy) =
          Runs-if policy.idempotent
            (settle_as payloads blank lease_ttl schedule python activities claim step_id
              StepState.pending python.null (some "idempotent: the attempt is repeated"))
            (by_reconciler payloads blank lease_ttl schedule python activities claim step_id
              step_input policy.reconcile)
            (λ again.
              settle_as-Runs StepState.pending python.null
                (some "idempotent: the attempt is repeated") refl)
            (λ once. by_reconciler-Runs step_input policy.reconcile)

      pub resolve_interrupted_attempt-Runs :
          (step_input : V)
          → Runs payloads blank lease_ttl (Settled payloads blank lease_ttl claim) (
              resolve_interrupted_attempt payloads blank lease_ttl schedule python activities claim
                step_id step_input)
      unfolding resolve_interrupted_attempt
      resolve_interrupted_attempt-Runs step_input = by_policy-Runs step_input (activities step_id)

    Settled-Doubted :
        (claim : Claim) (state : StepState) (j k : Journal)
        → Settled payloads blank lease_ttl claim state j k
        → Doubted payloads blank lease_ttl claim state j k
    Settled-Doubted claim state j k settled unknown =
        subst (λ (x : StepState). Settled payloads blank lease_ttl claim x j k) unknown settled

    pub resolve_all-Runs :
        (python : Python V) (activities : String → Option (ActivityPolicy V)) (claim : Claim)
        (plan : Plan V) (interrupted : List String)
        → Runs payloads blank lease_ttl
            (SomeDoubted payloads blank lease_ttl claim)
            (resolve_all payloads blank lease_ttl schedule python activities claim plan interrupted)
    unfolding resolve_all
    resolve_all-Runs python activities claim plan [] = Runs-pure [] (λ j h. cc)
    resolve_all-Runs python activities claim plan (step_id ∷ rest) =
        let value = input_for payloads blank lease_ttl schedule python plan step_id claim in
        Runs-bind
          (λ state states k l.
            contains StepState.outcome_unknown states ≡ true
            → (state ≡ StepState.outcome_unknown)
              ⊎ Moment payloads blank lease_ttl claim.execution_id ExecutionStatus.waiting k l)
          (resolve_interrupted_attempt payloads blank lease_ttl schedule python activities claim
            step_id value)
          (λ state.
            resolve_all payloads blank lease_ttl schedule python activities claim plan rest
            >>= λ states. pure (state ∷ states))
          (resolve_interrupted_attempt-Runs python activities claim step_id value)
          (λ state.
            Runs-bind (λ states all k l. all ≡ state ∷ states)
              (resolve_all payloads blank lease_ttl schedule python activities claim plan rest)
              (λ states. pure (state ∷ states)) (resolve_all-Runs python activities claim plan rest)
              (λ states. Runs-pure (state ∷ states) (λ j. refl))
              (λ states all j k l before doubted onwards e some_unknown.
                elim (Bool-cases (same_state state StepState.outcome_unknown)) [
                  | inl unknown ↦ inl (ground arith)
                  | inr known ↦ inr (Moment-last j k l (doubted (ground arith)) onwards)
                ]))
          (λ state states j k l before doubted onwards either some_unknown.
            elim (either some_unknown) [
              | inl unknown ↦
                  Moment-last j k l (Settled-Doubted claim state j k doubted unknown) onwards
              | inr moment ↦ Moment-extend j k l before moment
            ])
