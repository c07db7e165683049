-- ===== src/Durable/Worker/Reports/Failures.antt =====
-- What `run_once` of src/xyberos/durable/worker.py reports was so: a failed attempt.
use xyberos.Durable.Store.Landing.Failures.{Failed, fail_step-Has}
use xyberos.Prelude.{
  ℕ, String, ◌≡◌, Bool, true, false, Option, some, arith, refl, sym, subst, inl, inr, if◌then◌else◌,
  string_eq,
}
use xyberos.Errors.{ok}
use xyberos.Durable.Models.{
  ExecutionStatus, StepState, state_eq, same_status, same_status_iff, same_state,
  execution_is_terminal,
}
use xyberos.Durable.Rows.{Claim, Journal}
use xyberos.Durable.Store.Writes.{Payloads}
use xyberos.Durable.Store.Steps.{fail_step}
use xyberos.Durable.Store.History.Evolution.{execution-final}
use xyberos.Durable.Store.Inspection.{inspected_status}
use xyberos.Durable.Store.Landing.{Has}
use xyberos.Durable.Work.{Turn, pure, ◌>>=◌, write, query}
use xyberos.Durable.Work.Reached.{Reached-trans, Reached, Moment, Moment-last}
use xyberos.Durable.Work.Rules.{Runs-pure, Runs-bind, Runs-write, Runs-query}
use xyberos.Durable.Work.Calls.{fail_step-IsCall}
use xyberos.Durable.Recovery.{Python}
use xyberos.Durable.Recovery.Reports.{Has-Moment}
use xyberos.Durable.Worker.{Action, WorkOutcome, Settings, outcome, failure_outcome, record_failure}
use xyberos.Durable.Worker.Reports.{Reports, Reporting}

module _ {V : Type 0} (payloads : Payloads V) (blank : String → Bool) (lease_ttl : ℕ)
    (schedule : ℕ → Turn V) (python : Python V) (settings : Settings V) where
  module _ (claim : Claim) where
    -- What `inspect` answered was so when it was asked.
    pub inspected_status-Has :
        (i : String) (j : Journal) (status : ExecutionStatus)
        → inspected_status i j ≡ ok status
        → Has i status j
    unfolding inspected_status
    inspected_status-Has i j status e = ground arith

    -- An execution that timed out is seen to have timed out.
    pub still_timed_out :
        (i : String) (k m : Journal) (status : ExecutionStatus)
        → Has i ExecutionStatus.timed_out k
        → Reached payloads blank lease_ttl k m
        → inspected_status i m ≡ ok status
        → same_status status ExecutionStatus.timed_out ≡ true
    unfolding inspected_status execution_is_terminal
    still_timed_out i k m status has reached e =
        let (s, found, kept, result_kept, kind_kept) =
          execution-final payloads blank lease_ttl reached.calls k i has.row has.found
            (ground (arith, has.had)) in
        ground (arith, found, kept, has.had, reached.led, e)

    pub chosen :
        (seen_out pending : Bool) (a b c : WorkOutcome) (j m : Journal)
        → (seen_out ≡ true → Reports payloads blank lease_ttl a j m)
        → (seen_out ≡ false → pending ≡ true → Reports payloads blank lease_ttl b j m)
        → (seen_out ≡ false → pending ≡ false → Reports payloads blank lease_ttl c j m)
        → Reports payloads blank lease_ttl (if seen_out then a else if pending then b else c) j m
    chosen true pending a b c j m ha hb hc = ha refl
    chosen false true a b c j m ha hb hc = hb refl refl
    chosen false false a b c j m ha hb hc = hc refl refl

    module _ (step_id error_type message : String) (attempt now later : ℕ) (state : StepState)
        (status : ExecutionStatus) (j k m : Journal) (before : Reached payloads blank lease_ttl j k)
        (failed : Failed claim step_id error_type message now later state k)
        (onwards : Reached payloads blank lease_ttl k m)
        (seen : inspected_status claim.execution_id m ≡ ok status) where
      pub earlier :
          {s : ExecutionStatus}
          → Has claim.execution_id s k
          → Moment payloads blank lease_ttl claim.execution_id s j m
      earlier has = Moment-last j k m (Has-Moment j k before has) onwards

      pub not_out :
          Has claim.execution_id ExecutionStatus.timed_out k
          → same_status status ExecutionStatus.timed_out ≡ false
          → ⊥
      not_out has e =
          ground (arith, e, still_timed_out claim.execution_id k m status has onwards seen)

      pub failure_outcome-Reports :
          Reports payloads blank lease_ttl
            (failure_outcome payloads blank lease_ttl schedule python settings claim step_id attempt
              state status)
            j
            m
      failure_outcome-Reports =
          chosen (same_status status ExecutionStatus.timed_out) (same_state state StepState.pending)
            (outcome claim Action.timed_out (some step_id) (some attempt))
            (outcome claim Action.retry_scheduled (some step_id) (some attempt))
            (outcome claim Action.failed (some step_id) (some attempt)) j m
            (λ e. Has-Moment j m (Reached-trans j k m before onwards) (
              subst (λ s. Has claim.execution_id s m)
                ((same_status_iff status ExecutionStatus.timed_out).0 e)
                (inspected_status-Has claim.execution_id m status seen)))
            (λ e pending. elim failed [
              | inl out ↦ absurd (not_out out e)
              | inr rest ↦ elim rest [
                | inl (is_pending, has) ↦ earlier has
                | inr (is_failed, has) ↦ absurd (ground (arith, is_failed, pending))
              ]
            ])
            (λ e decided. elim failed [
              | inl out ↦ absurd (not_out out e)
              | inr rest ↦ elim rest [
                | inl (is_pending, has) ↦ absurd (ground (arith, is_pending, decided))
                | inr (is_failed, has) ↦ earlier has
              ]
            ])

    pub record_failure-Reports :
        (step_id : String) (attempt : ℕ) (error_type message : String) (due : Option ℕ)
        (detail : String)
        → Reporting payloads blank lease_ttl (
            record_failure payloads blank lease_ttl schedule python settings claim step_id attempt
              error_type message due detail)
    unfolding record_failure
    record_failure-Reports step_id attempt error_type message due detail =
        Runs-bind
          (λ state o k m.
            (status : ExecutionStatus) × (inspected_status claim.execution_id m ≡ ok status)
            × (o
                ≡ failure_outcome payloads blank lease_ttl schedule python settings claim step_id
                    attempt state status))
          (write payloads blank lease_ttl schedule
            (λ now later. fail_step claim step_id error_type message due (some detail) now later))
          (λ state.
            query payloads blank lease_ttl schedule (λ now j. inspected_status claim.execution_id j)
            >>= λ status. pure (
                failure_outcome payloads blank lease_ttl schedule python settings claim step_id
                  attempt state status))
          (Runs-write schedule
            {P = λ state j k. Failed claim step_id error_type message 0 0 state k}
            (λ now later. fail_step claim step_id error_type message due (some detail) now later)
            (fail_step-IsCall claim step_id error_type message due (some detail))
            (λ now later i j state k e reached.
              fail_step-Has claim step_id error_type message now later due (some detail) j e))
          (λ state.
            Runs-bind
              (λ status o k m.
                (k ≡ m)
                × (o
                    ≡ failure_outcome payloads blank lease_ttl schedule python settings claim
                        step_id attempt state status))
              (query payloads blank lease_ttl schedule
                (λ now j. inspected_status claim.execution_id j))
              (λ status. pure (
                failure_outcome payloads blank lease_ttl schedule python settings claim step_id
                  attempt state status))
              (Runs-query schedule
                {P = λ status j k. inspected_status claim.execution_id k ≡ ok status}
                (λ now j. inspected_status claim.execution_id j) (λ now i j status reached e. e))
              (λ status.
                Runs-pure
                  (failure_outcome payloads blank lease_ttl schedule python settings claim step_id
                    attempt state status)
                  (λ j. (refl, refl)))
              (λ status o j k m before seen onwards same.
                let (stays, is) = same in
                (
                  status,
                  subst (λ x. inspected_status claim.execution_id x ≡ ok status) stays seen,
                  is,
                )))
          (λ state o j k m before failed onwards seen.
            let (status, e, is) = seen in
            subst (λ x. Reports payloads blank lease_ttl x j m) (sym is)
              (failure_outcome-Reports step_id error_type message attempt 0 0 state status j k m
                before failed onwards e))
