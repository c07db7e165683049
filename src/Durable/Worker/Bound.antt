-- ===== src/Durable/Worker/Bound.antt =====
-- The loop of `run_once` in src/xyberos/durable/worker.py ends within its bound: each round that goes
-- on skips a step that was open.
use xyberos.Prelude.{
  ℕ, zero, suc, ◌+◌, ◌≤◌, ◌<◌, String, ◌≡◌, Bool, true, false, Option, none, some, List, [], ◌∷◌,
  arith, refl, ap, string_eq, length, inl, inr, sym, ◌∙◌, subst,
}
use mathlib.Core.List.{Memᴰ}
use mathlib.Core.List.Memᴰ
use xyberos.Errors.{Result, ok, err}
use xyberos.Table.{Table, find, upsert, find-upsert}
use xyberos.Execution.Models.{Step, Workflow}
use xyberos.Durable.Models.{StepState, step_is_terminal}
use xyberos.Durable.Rows.{Claim}
use xyberos.Durable.Scheduler.{Plan, PlanKind, plan_next, or_pending}
use xyberos.Durable.Scheduler.Sound.{Justifies, IsOpen, plan_next-IsSound}
use xyberos.Durable.Store.Writes.{Payloads}
use xyberos.Durable.Store.Steps.{skip_step}
use xyberos.Durable.Work.{Work, World, Turn, go_on, write}
use xyberos.Durable.Recovery.{Python}
use xyberos.Durable.Worker.{WorkOutcome, Settings, act, advance, rounds_for}

abbrev is_open : Table String StepState → String → Bool
is_open states step_id = step_is_terminal (or_pending (find step_id states))

abbrev one_open : Bool → ℕ
one_open true = 0
one_open false = 1

-- How many steps are still to be resolved
unfoldable open_steps : Table String StepState → List Step → ℕ
open_steps states [] = 0
open_steps states (s ∷ ss) = one_open (is_open states s.id) + open_steps states ss

open_steps-length :
    (states : Table String StepState) (ss : List Step) → open_steps states ss ≤ length ss
unfolding open_steps
open_steps-length states [] = omega arith
open_steps-length states (s ∷ ss) = ground (arith, open_steps-length states ss)

module _ (step_id : String) (states : Table String StepState) where
  abbrev skipped : Table String StepState
  skipped = upsert step_id StepState.skipped states

  one_open-skipped : (s : Step) → one_open (is_open skipped s.id) ≤ one_open (is_open states s.id)
  unfolding step_is_terminal
  one_open-skipped s = ground (arith, find-upsert step_id s.id StepState.skipped states)

  open_steps-skipped : (ss : List Step) → open_steps skipped ss ≤ open_steps states ss
  unfolding open_steps
  open_steps-skipped [] = omega arith
  open_steps-skipped (s ∷ ss) = omega (arith, one_open-skipped s, open_steps-skipped ss)

  skipped-closed : is_open skipped step_id ≡ true
  unfolding step_is_terminal
  skipped-closed = ground (
    arith,
    find-upsert step_id step_id StepState.skipped states,
    string_eq.beq_iff step_id step_id,
  )

  fewer_open :
      (t : Step) (ss : List Step)
      → Memᴰ t ss
      → t.id ≡ step_id
      → is_open states t.id ≡ false
      → open_steps skipped ss < open_steps states ss
  unfolding open_steps
  fewer_open t [] m same undone = absurd (Memᴰ.not-nil m)
  fewer_open t (s ∷ ss) m same undone = elim (Memᴰ.cases_cons m) [
    | inl here ↦
        let at_s = sym same ∙ ap (λ (x : Step). x.id) here in
        let closed = subst (λ (x : String). is_open skipped x ≡ true) at_s skipped-closed in
        let opened = subst (λ (x : Step). is_open states x.id ≡ false) here undone in
        rw (closed, opened) (omega (arith, open_steps-skipped ss))
    | inr below ↦ omega (arith, one_open-skipped s, fewer_open t ss below same undone)
  ]

module _ {V : Type 0} (payloads : Payloads V) (blank : String → Bool) (lease_ttl : ℕ)
    (schedule : ℕ → Turn V) (python : Python V) (settings : Settings V) (claim : Claim)
    (workflow : Workflow V) where
  go_on-same :
      {A B : Type 0} (f g : A → Work B) (r : Result A × World)
      → ((a : A) (w : World) → f a w ≡ g a w)
      → go_on f r ≡ go_on g r
  go_on-same f g (ok a, w) h = h a w
  go_on-same f g (err e, w) h = refl

  act-same :
      (states : Table String StepState) (f g : Table String StepState → Work WorkOutcome)
      (plan : Plan V) (kind : PlanKind) (step : Option Step)
      → ((s : Step) (w : World)
          → kind ≡ PlanKind.skip_step
          → step ≡ some s
          → f (upsert s.id StepState.skipped states) w ≡ g (upsert s.id StepState.skipped states) w)
      → (w : World)
      → act payloads blank lease_ttl schedule python settings claim workflow states f plan kind step
          w
        ≡ act payloads blank lease_ttl schedule python settings claim workflow states g plan kind
            step w
  act-same states f g plan PlanKind.complete step h w = refl
  act-same states f g plan PlanKind.conflict step h w = refl
  act-same states f g plan PlanKind.needs_decision step h w = refl
  act-same states f g plan PlanKind.skip_step none h w = refl
  act-same states f g plan PlanKind.skip_step (some s) h w =
      go_on-same (λ u. f (upsert s.id StepState.skipped states))
        (λ u. g (upsert s.id StepState.skipped states))
        (write payloads blank lease_ttl schedule (λ now later. skip_step claim s.id "" now) w)
        (λ u w'. h s w' refl refl)
  act-same states f g plan PlanKind.run_step none h w = refl
  act-same states f g plan PlanKind.run_step (some s) h w = refl

  open-closed :
      (states : Table String StepState) (outputs : Table String V) (t : Step)
      → IsOpen python.sorted workflow states outputs t
      → is_open states t.id ≡ false
  unfolding step_is_terminal
  open-closed states outputs t o = ground (arith, o)

  skip-fewer :
      (states : Table String StepState) (outputs : Table String V) (plan : Plan V) (s : Step)
      → plan_next python.sorted workflow states outputs ≡ ok plan
      → plan.kind ≡ PlanKind.skip_step
      → plan.step ≡ some s
      → open_steps (upsert s.id StepState.skipped states) workflow.steps
        < open_steps states workflow.steps
  skip-fewer states outputs plan s e skips named =
      elim (plan_next-IsSound python.sorted workflow states outputs plan e) [
        | inl complete ↦
            let (u, is, rest) = complete in
            absurd (ground (arith, ap (λ (p : Plan V). p.kind) is, skips))
        | inr (t, m, is, just) ↦
            let (opened, rest, b1, b2) =
              subst (λ (k : PlanKind). Justifies python.sorted workflow states outputs k t plan)
                skips just in
            let same : t ≡ s = ground (arith, is, named) in
            fewer_open s.id states t workflow.steps m (ap (λ (x : Step). x.id) same)
              (open-closed states outputs t opened)
      ]

  planned-same :
      (rounds more : ℕ) (states : Table String StepState) (outputs : Table String V) (w : World)
      (r : Result (Plan V))
      → plan_next python.sorted workflow states outputs ≡ r
      → open_steps states workflow.steps ≤ rounds
      → ((later : Table String StepState) (w' : World)
          → open_steps later workflow.steps < rounds
          → advance payloads blank lease_ttl schedule python settings more claim workflow later
              outputs w'
            ≡ advance payloads blank lease_ttl schedule python settings rounds claim workflow later
                outputs w')
      → go_on
          (λ plan.
            act payloads blank lease_ttl schedule python settings claim workflow states
              (λ later.
                advance payloads blank lease_ttl schedule python settings more claim workflow later
                  outputs)
              plan
              plan.kind
              plan.step)
          (r, w)
        ≡ go_on
            (λ plan.
              act payloads blank lease_ttl schedule python settings claim workflow states
                (λ later.
                  advance payloads blank lease_ttl schedule python settings rounds claim workflow
                    later outputs)
                plan
                plan.kind
                plan.step)
            (r, w)
  planned-same rounds more states outputs w (err x) e below ih = refl
  planned-same rounds more states outputs w (ok plan) e below ih =
      act-same states
        (λ later.
          advance payloads blank lease_ttl schedule python settings more claim workflow later
            outputs)
        (λ later.
          advance payloads blank lease_ttl schedule python settings rounds claim workflow later
            outputs)
        plan plan.kind plan.step
        (λ s w' skips named.
          ih (upsert s.id StepState.skipped states) w'
            (omega (arith, below, skip-fewer states outputs plan s e skips named)))
        w

  advance_more :
      (rounds more : ℕ) (states : Table String StepState) (outputs : Table String V) (w : World)
      → open_steps states workflow.steps < rounds
      → rounds ≤ more
      → advance payloads blank lease_ttl schedule python settings more claim workflow states outputs
          w
        ≡ advance payloads blank lease_ttl schedule python settings rounds claim workflow states
            outputs w
  unfolding advance
  advance_more zero more states outputs w below enough = absurd (omega arith)
  advance_more (suc rounds) zero states outputs w below enough = absurd (omega arith)
  advance_more (suc rounds) (suc more) states outputs w below enough =
      planned-same rounds more states outputs w (plan_next python.sorted workflow states outputs)
        refl (omega (arith, below))
        (λ later w' under. advance_more rounds more later outputs w' under (omega (arith, enough)))

  -- The bound on the loop of `run_once` is never met: with one round for each step and one more, the
  -- loop does what it would do with any larger number of rounds, from any states and in any world,
  -- so that its last error is never raised for want of rounds.
  pub advance_bounded :
      (rounds : ℕ) (states : Table String StepState) (outputs : Table String V) (w : World)
      → rounds_for payloads blank lease_ttl schedule python settings workflow ≤ rounds
      → advance payloads blank lease_ttl schedule python settings rounds claim workflow states
          outputs w
        ≡ advance payloads blank lease_ttl schedule python settings
            (rounds_for payloads blank lease_ttl schedule python settings workflow)
            claim
            workflow
            states
            outputs
            w
  advance_bounded rounds states outputs w enough =
      advance_more (rounds_for payloads blank lease_ttl schedule python settings workflow) rounds
        states outputs w (omega (arith, open_steps-length states workflow.steps)) enough
