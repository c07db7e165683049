-- ===== src/Durable/Scheduler/Progress.antt =====
-- Where `plan_next` of src/xyberos/durable/scheduler.py cannot get stuck: on an acyclic definition
-- there is always a plan.
use xyberos.Prelude.{
  ℕ, zero, suc, ◌<◌, ◌+◌, String, ◌≡◌, ◌⊎◌, inl, inr, refl, Bool, true, false, List, [], ◌∷◌, arith,
  ap, string_eq, Option, none, some, not, ◌&&◌, ◌==◌, is_some, if◌then◌else◌, map,
}
use mathlib.Core.List.{Memᴰ}
use mathlib.Core.List.Memᴰ
use xyberos.Errors.{Error, Result, ok, err}
use xyberos.Table.{Table, find, find-upsert}
use xyberos.Execution.Models.{
  Step, Edge, Workflow, contains, select, is_empty, incoming, outgoing, exits,
}
use xyberos.Durable.Models.{StepState}
use xyberos.Durable.Scheduler.{
  Plan, PlanKind, Verdict, with_output, results, resolved, waits, decided, is_resolved, verdict,
  after_verdict, decide, complete_plan, plan_next,
}
use xyberos.Execution.Validation.Ranked.{IsRanked}
use xyberos.Execution.Selection.{select-Mem}
use xyberos.Durable.Scheduler.Sound.{Fits, verdict-Fits}

contains-select :
    (test : String → Bool) (k : String) (ss : List Step)
    → contains k (map (λ s. s.id) (select (λ s. test s.id) ss))
      ≡ (contains k (map (λ s. s.id) ss) && test k)
unfolding select
contains-select test k [] = refl
contains-select test k (s ∷ ss) =
    ground (arith, contains-select test k ss, string_eq.beq_iff s.id k)

module _ {V : Type 0} where
  -- An edge leaves `k` exactly where the edges out of `k` are some.
  contains-sources :
      (k : String) (es : List (Edge V))
      → contains k (map (λ e. e.source) es) ≡ not (is_empty (select (λ e. e.source == k) es))
  unfolding select
  contains-sources k [] = refl
  contains-sources k (e ∷ es) = ground (arith, contains-sources k es)

  find-with_output :
      (k i : String) (o : Option V) (t : Table String V)
      → find k (with_output i o t) ≡ (if is_some o && i == k then o else find k t)
  find-with_output k i none t = refl
  find-with_output k i (some v) t = find-upsert i k v t

  find-results :
      (outputs : Table String V) (k : String) (ss : List Step) (t : Table String V)
      → find k (results outputs ss t) ≡ (
          if contains k (map (λ s. s.id) ss) && is_some (find k outputs)
          then find k outputs
          else find k t)
  unfolding results
  find-results outputs k [] t = refl
  find-results outputs k (s ∷ ss) t = ground (
    arith,
    find-results outputs k ss (with_output s.id (find s.id outputs) t),
    find-with_output k s.id (find s.id outputs) t,
    string_eq.beq_iff s.id k,
  )

  find-exits :
      (w : Workflow V) (outputs : Table String V) (k : String)
      → find k (results outputs (exits w) []) ≡ (
          if contains k (map (λ s. s.id) w.steps) && not (contains k (map (λ e. e.source) w.edges))
          then find k outputs
          else none)
  unfolding exits outgoing find
  find-exits w outputs k = ground (
    arith,
    find-results outputs k (exits w) [],
    contains-select (λ i. is_empty (outgoing w i)) k w.steps,
    contains-sources k w.edges,
  )

module _ {V : Type 0} (sorted : List String → List String) (w : Workflow V)
    (states : Table String StepState) (outputs : Table String V) where
  -- What the loop found where it raised: each step is resolved or waits for a source.
  abbrev IsStuck : Step → Type 0
  IsStuck s =
      (is_resolved sorted w states outputs s.id ≡ true)
      ⊎ ((e : Edge V) × Memᴰ e (incoming w s.id)
          × (is_resolved sorted w states outputs e.source ≡ false))

  after_verdict-IsStuck :
      (s : Step) (ss : List Step) (u : Bool) (v : Verdict V) (x : Error)
      → Fits sorted w states outputs s v
      → after_verdict sorted w states outputs v (decide sorted w states outputs ss) u ≡ err x
      → (b : Bool) × IsStuck s × (decide sorted w states outputs ss b ≡ err x)
  after_verdict-IsStuck s ss u resolved x fits e = (u, inl fits, e)
  after_verdict-IsStuck s ss u waits x fits e = (true, inr fits, e)
  after_verdict-IsStuck s ss u (decided p) x fits e = cc

  decide-IsStuck :
      (ss : List Step) (u : Bool) (x : Error)
      → decide sorted w states outputs ss u ≡ err x
      → (s : Step) → Memᴰ s ss
      → IsStuck s
  unfolding decide
  decide-IsStuck [] u x h s m = absurd (Memᴰ.not-nil m)
  decide-IsStuck (t ∷ ss) u x h s m =
      let (b, here, rest) =
        after_verdict-IsStuck t ss u (verdict sorted w states outputs t) x
          (verdict-Fits sorted w states outputs t) h in
      elim (Memᴰ.cases_cons m) [
        | inl same ↦ rw same here
        | inr below ↦ decide-IsStuck ss b x rest s below
      ]

  decide-resolved :
      (ss : List Step)
      → ((s : Step) → Memᴰ s ss → is_resolved sorted w states outputs s.id ≡ true)
      → decide sorted w states outputs ss false ≡ ok (complete_plan sorted w states outputs)
  unfolding decide verdict
  decide-resolved [] h = refl
  decide-resolved (s ∷ ss) h =
      rw (h s (Memᴰ.head refl)) (decide-resolved ss (λ t m. h t (Memᴰ.tail m)))

  module _ (rank : String → ℕ) (ranked : IsRanked w rank) (x : Error)
      (raised : plan_next sorted w states outputs ≡ err x) where
    stuck-resolved :
        (n : ℕ) (s : Step)
        → Memᴰ s w.steps
        → rank s.id < n
        → is_resolved sorted w states outputs s.id ≡ true
    unfolding plan_next incoming
    stuck-resolved zero s m below = absurd (omega arith)
    stuck-resolved (suc n) s m below = elim (decide-IsStuck w.steps false x raised s m) [
      | inl done ↦ done
      | inr (e, into, undone) ↦
          let (declared, here) = select-Mem _ w.edges e into in
          let (t, inside, same) = ranked.source e declared in
          let target = (string_eq.beq_iff e.target s.id).0 here in
          let lower : rank t.id < n =
            omega (arith, ranked.upward e declared, ap rank same, ap rank target, below) in
          let done = stuck-resolved n t inside lower in cc (done, undone, same)
    ]

    -- The loop never raises.
    never_stuck : ⊥
    unfolding plan_next
    never_stuck =
        let complete =
          decide-resolved w.steps (λ s m. stuck-resolved (rank s.id + 1) s m (omega arith)) in
        cc (complete, raised)

  total :
      (rank : String → ℕ)
      → IsRanked w rank
      → (r : Result (Plan V)) → plan_next sorted w states outputs ≡ r
      → (p : Plan V) × (r ≡ ok p)
  total rank ranked (ok p) h = (p, refl)
  total rank ranked (err x) h = absurd (never_stuck rank ranked x h)

  -- On a definition without cycles whose edges start at declared steps, `plan_next` returns a plan
  -- for any persisted states and outputs: its last error is never raised.
  pub plan_next-total :
      (rank : String → ℕ)
      → IsRanked w rank
      → (p : Plan V) × (plan_next sorted w states outputs ≡ ok p)
  plan_next-total rank ranked = total rank ranked _ refl

  -- On a definition whose steps are all resolved, `plan_next` returns the plan to complete the
  -- execution, and its outputs hold a step id exactly where that is the id of a step with no edge
  -- out of it and has a recorded output, which is then the one they hold.
  pub plan_next_complete :
      ((s : Step) → Memᴰ s w.steps → is_resolved sorted w states outputs s.id ≡ true)
      → (p : Plan V) × (outs : Table String V) × (plan_next sorted w states outputs ≡ ok p)
        × (p.kind ≡ PlanKind.complete)
        × (p.outputs ≡ some outs)
        × ((k : String)
            → find k outs ≡ (
                if contains k (map (λ s. s.id) w.steps)
                  && not (contains k (map (λ e. e.source) w.edges))
                then find k outputs
                else none))
  unfolding plan_next
  plan_next_complete h = (
    complete_plan sorted w states outputs,
    results outputs (exits w) [],
    decide-resolved w.steps h,
    refl,
    refl,
    λ k. find-exits w outputs k,
  )
