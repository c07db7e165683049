-- ===== src/Durable/Work/Calls.antt =====
-- Each operation that a worker uses is one call.
use xyberos.Prelude.{ℕ, String, Bool, Option, refl}
use xyberos.Durable.Models.{StepState, FailureKind}
use xyberos.Durable.Rows.{Claim}
use xyberos.Durable.Store.Writes.{Payloads}
use xyberos.Durable.Store.History.{Call, perform}
use xyberos.Durable.Store.Claims.{claim_next}
use xyberos.Durable.Store.Steps.{
  start_step, complete_step, fail_step, skip_step, yield_execution, time_out_execution,
  mark_step_outcome_unknown, resolve_step,
}
use xyberos.Durable.Store.Endings.{
  acknowledge_cancellation, fail_execution, complete_execution, mark_waiting,
}
use xyberos.Durable.Work.Reached.{IsCall}

module _ {V : Type 0} {payloads : Payloads V} {blank : String → Bool} {lease_ttl : ℕ} where
  pub claim_next-IsCall :
      (owner : String) (ttl : Option ℕ)
      → IsCall payloads blank lease_ttl (λ now later. claim_next blank lease_ttl owner ttl now)
  unfolding perform
  claim_next-IsCall owner ttl = record {
    call = λ now later. Call.claims owner ttl;
    performed = λ now later j. refl;
  }

  pub start_step-IsCall :
      (claim : Claim) (step_id : String) (key : Option String)
      → IsCall payloads blank lease_ttl (λ now later. start_step claim step_id key now)
  unfolding perform
  start_step-IsCall claim step_id key = record {
    call = λ now later. Call.starts claim step_id key;
    performed = λ now later j. refl;
  }

  pub complete_step-IsCall :
      (claim : Claim) (step_id : String) (output : V)
      → IsCall payloads blank lease_ttl
          (λ now later. complete_step payloads claim step_id output now)
  unfolding perform
  complete_step-IsCall claim step_id output = record {
    call = λ now later. Call.completes_step claim step_id output;
    performed = λ now later j. refl;
  }

  pub yield_execution-IsCall :
      (claim : Claim) → IsCall payloads blank lease_ttl (λ now later. yield_execution claim now)
  unfolding perform
  yield_execution-IsCall claim = record {
    call = λ now later. Call.yields claim;
    performed = λ now later j. refl;
  }

  pub skip_step-IsCall :
      (claim : Claim) (step_id reason : String)
      → IsCall payloads blank lease_ttl (λ now later. skip_step claim step_id reason now)
  unfolding perform
  skip_step-IsCall claim step_id reason = record {
    call = λ now later. Call.skips claim step_id reason;
    performed = λ now later j. refl;
  }

  pub time_out_execution-IsCall :
      (claim : Claim) → IsCall payloads blank lease_ttl (λ now later. time_out_execution claim now)
  unfolding perform
  time_out_execution-IsCall claim = record {
    call = λ now later. Call.times_out claim;
    performed = λ now later j. refl;
  }

  pub fail_step-IsCall :
      (claim : Claim) (step_id error_type message : String) (retry : Option ℕ)
      (reason : Option String)
      → IsCall payloads blank lease_ttl
          (λ now later. fail_step claim step_id error_type message retry reason now later)
  unfolding perform
  fail_step-IsCall claim step_id error_type message retry reason = record {
    call = λ now later. Call.fails_step claim step_id error_type message retry reason later;
    performed = λ now later j. refl;
  }

  pub mark_step_outcome_unknown-IsCall :
      (claim : Claim) (step_id reason : String)
      → IsCall payloads blank lease_ttl
          (λ now later. mark_step_outcome_unknown claim step_id reason now)
  unfolding perform
  mark_step_outcome_unknown-IsCall claim step_id reason = record {
    call = λ now later. Call.doubts claim step_id reason;
    performed = λ now later j. refl;
  }

  pub resolve_step-IsCall :
      (claim : Claim) (step_id : String) (state : StepState) (output : V) (detail : Option String)
      → IsCall payloads blank lease_ttl
          (λ now later. resolve_step payloads claim step_id state output detail now)
  unfolding perform
  resolve_step-IsCall claim step_id state output detail = record {
    call = λ now later. Call.resolves claim step_id state output detail;
    performed = λ now later j. refl;
  }

  pub complete_execution-IsCall :
      (claim : Claim) (outputs : V)
      → IsCall payloads blank lease_ttl (λ now later. complete_execution payloads claim outputs now)
  unfolding perform
  complete_execution-IsCall claim outputs = record {
    call = λ now later. Call.completes claim outputs;
    performed = λ now later j. refl;
  }

  pub fail_execution-IsCall :
      (claim : Claim) (kind : FailureKind)
      → IsCall payloads blank lease_ttl (λ now later. fail_execution claim kind now)
  unfolding perform
  fail_execution-IsCall claim kind = record {
    call = λ now later. Call.fails claim kind;
    performed = λ now later j. refl;
  }

  pub acknowledge_cancellation-IsCall :
      (claim : Claim) (reason : Option String)
      → IsCall payloads blank lease_ttl (λ now later. acknowledge_cancellation claim reason now)
  unfolding perform
  acknowledge_cancellation-IsCall claim reason = record {
    call = λ now later. Call.acknowledges claim reason;
    performed = λ now later j. refl;
  }

  pub mark_waiting-IsCall :
      (claim : Claim) → IsCall payloads blank lease_ttl (λ now later. mark_waiting claim now)
  unfolding perform
  mark_waiting-IsCall claim = record {
    call = λ now later. Call.parks claim;
    performed = λ now later j. refl;
  }
