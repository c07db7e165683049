-- ===== src/Durable/Scheduler/Sound.antt =====
-- What each kind of plan that `plan_next` of src/xyberos/durable/scheduler.py returns says of the
-- definition and the persisted step states.
use xyberos.Prelude.{
  String, ◌≡◌, ◌≢◌, ◌⊎◌, inl, inr, refl, Bool, true, false, not, none, some, List, [], ◌∷◌, arith,
  ap, sym, subst, ◌∙◌, Bool-cases, Option-cases, string_eq, pair_eq, if◌then◌else◌,
}
use mathlib.Core.List.{Memᴰ}
use mathlib.Core.List.Memᴰ
use xyberos.Errors.{Result, ok}
use xyberos.Table.{Table, find}
use xyberos.Execution.Models.{contains, Step, Edge, Workflow, is_empty, incoming, outgoing}
use xyberos.Durable.Models.{StepState, same_state, same_state_iff, step_is_terminal}
use xyberos.Durable.Scheduler.{
  PlanKind, Plan, Verdict, resolved, waits, decided, select_edge, state_of, is_resolved, taken_from,
  taken_edges, reached, unresolved, has_two, verdict, settled, after_verdict, decide, complete_plan,
  plan_next,
}
use xyberos.Execution.Selection.{
  select-is_empty, select-nonempty, select-Mem, map-select-head, is_empty-map,
}

not-eq-true : (b : Bool) → not b ≡ true → b ≡ false
not-eq-true b h = ground arith

not-eq-false : (b : Bool) → not b ≡ false → b ≡ true
not-eq-false b h = ground arith

module _ {V : Type 0} (sorted : List String → List String) (w : Workflow V)
    (states : Table String StepState) (outputs : Table String V) where
  -- A step may be run or passed over: it is neither resolved nor parked with an unknown outcome.
  abbrev pub IsOpen : Step → Type 0
  IsOpen s =
      (state_of sorted w states outputs s.id ≡ StepState.pending)
      ⊎ (state_of sorted w states outputs s.id ≡ StepState.running)

  -- A succeeded step's output selected an edge from `source` into `target`.
  abbrev pub IsTaken : String → String → Type 0
  IsTaken source target =
      (s : Step) × (e : Edge V) × Memᴰ s w.steps
      × (state_of sorted w states outputs s.id ≡ StepState.succeeded)
      × (select_edge (outgoing w s.id) (find s.id outputs) ≡ some e)
      × (e.source ≡ source)
      × (e.target ≡ target)

  taken_from-IsTaken :
      (ss : List Step) (source target : String)
      → ((s : Step) → Memᴰ s ss → Memᴰ s w.steps)
      → contains (source, target) (taken_from sorted w states outputs ss) ≡ true
      → IsTaken source target
  unfolding taken_from
  taken_from-IsTaken [] source target inside h = cc
  taken_from-IsTaken (s ∷ ss) source target inside h =
      let rest = λ (r : contains (source, target) (taken_from sorted w states outputs ss) ≡ true).
        taken_from-IsTaken ss source target (λ t m. inside t (Memᴰ.tail m)) r in
      elim (Bool-cases (same_state (state_of sorted w states outputs s.id) StepState.succeeded)) [
        | inr lost ↦ rest (rw lost at h)
        | inl won ↦ elim (Option-cases (select_edge (outgoing w s.id) (find s.id outputs))) [
          | inl nothing ↦ rest (rw (won, nothing) at h)
          | inr (e, chosen) ↦
              elim (Bool-cases (pair_eq.beq (e.source, e.target) (source, target))) [
                | inl same ↦
                    let is = (pair_eq.beq_iff (e.source, e.target) (source, target)).0 same in
                    (
                      s,
                      e,
                      inside s (Memᴰ.head refl),
                      (same_state_iff _ _).0 won,
                      chosen,
                      ap (λ (p : String × String). p.0) is,
                      ap (λ (p : String × String). p.1) is,
                    )
                | inr other ↦ rest (rw (won, chosen, other) at h)
              ]
        ]
      ]

  -- A step that a plan names, before its sources are looked at
  abbrev pub SourcesResolved : Step → Type 0
  SourcesResolved s =
      (e : Edge V) → Memᴰ e (incoming w s.id) → is_resolved sorted w states outputs e.source ≡ true

  -- An entry step runs without a value; any other runs on the output of the one source whose
  -- selected edge leads to it.
  abbrev pub IsFed : Step → Plan V → Type 0
  IsFed s p =
      (incoming w s.id ≡ []) × (p.value ≡ none) × (p.sources ≡ [])
      ⊎ ((source : String) × (p.sources ≡ source ∷ [])
          × (reached sorted w states outputs s.id ≡ source ∷ [])
          × IsTaken source s.id
          × (p.value ≡ find source outputs))

  -- What a plan of each kind states of the step that it names.
  abbrev pub Justifies : PlanKind → Step → Plan V → Type 0
  Justifies PlanKind.run_step s p = IsOpen s × SourcesResolved s × IsFed s p
  Justifies PlanKind.skip_step s p =
      IsOpen s
      × SourcesResolved s
      × (incoming w s.id ≢ [])
      × (reached sorted w states outputs s.id ≡ [])
  Justifies PlanKind.conflict s p =
      IsOpen s
      × (has_two (reached sorted w states outputs s.id) ≡ true)
      × (p.sources ≡ sorted (reached sorted w states outputs s.id))
  Justifies PlanKind.needs_decision s p =
      state_of sorted w states outputs s.id ≡ StepState.outcome_unknown
  Justifies PlanKind.complete s p = ⊥

  -- What the loop's verdict on a step states of it.
  abbrev pub Fits : Step → Verdict V → Type 0
  Fits s resolved = is_resolved sorted w states outputs s.id ≡ true
  Fits s waits =
      (e : Edge V) × Memᴰ e (incoming w s.id)
      × (is_resolved sorted w states outputs e.source ≡ false)
  Fits s (decided p) = (p.step ≡ some s) × Justifies p.kind s p

  open-IsOpen :
      (s : StepState)
      → step_is_terminal s ≡ false
      → same_state s StepState.outcome_unknown ≡ false
      → (s ≡ StepState.pending) ⊎ (s ≡ StepState.running)
  unfolding step_is_terminal
  open-IsOpen s a b = ground arith

  reached-IsTaken :
      (source target : String) (rest : List String)
      → reached sorted w states outputs target ≡ source ∷ rest
      → IsTaken source target
  unfolding reached taken_edges incoming
  reached-IsTaken source target rest h =
      let (e, m, taken, from) =
        map-select-head (λ e. e.source) _ (incoming w target) source rest h in
      let into = (string_eq.beq_iff e.target target).0 (select-Mem _ w.edges e m).1 in
      taken_from-IsTaken w.steps source target (λ s i. i) (rw (sym from, sym into) taken)

  settled-Fits :
      (s : Step) (entry : Bool) (from : List String)
      → IsOpen s
      → SourcesResolved s
      → is_empty (incoming w s.id) ≡ entry
      → reached sorted w states outputs s.id ≡ from
      → has_two from ≡ false
      → Fits s (settled sorted w states outputs s entry from)
  settled-Fits s true [] o r e f h = (refl, (o, r, inl (ground arith, refl, refl)))
  settled-Fits s false [] o r e f h = (refl, (o, r, (λ q. ground (arith, ap is_empty q)), f))
  settled-Fits s entry (source ∷ []) o r e f h =
      (refl, (o, r, inr (source, refl, f, reached-IsTaken source s.id [] f, refl)))
  settled-Fits s entry (source ∷ other ∷ rest) o r e f h = cc

  unresolved-is_empty :
      (s : Step) → is_empty (unresolved sorted w states outputs s.id) ≡ true → SourcesResolved s
  unfolding unresolved
  unresolved-is_empty s h e m =
      let fails =
        select-is_empty _ (incoming w s.id) e (sym (is_empty-map (λ (e : Edge V). e.source) _) ∙ h)
          m in
      ground arith

  unresolved-nonempty :
      (s : Step)
      → is_empty (unresolved sorted w states outputs s.id) ≡ false
      → (e : Edge V) × Memᴰ e (incoming w s.id)
        × (is_resolved sorted w states outputs e.source ≡ false)
  unfolding unresolved
  unresolved-nonempty s h =
      let (e, m, p) =
        select-nonempty _ (incoming w s.id) (sym (is_empty-map (λ (e : Edge V). e.source) _) ∙ h) in
      (e, m, ground arith)

  Fits-if :
      (s : Step) (b : Bool) (u v : Verdict V)
      → (b ≡ true → Fits s u)
      → (b ≡ false → Fits s v)
      → Fits s (if b then u else v)
  Fits-if s true u v f g = f refl
  Fits-if s false u v f g = g refl

  pub verdict-Fits : (s : Step) → Fits s (verdict sorted w states outputs s)
  unfolding verdict
  verdict-Fits s =
      Fits-if s _ _ _ (λ done. done)
        (λ undone.
          Fits-if s _ _ _ (λ unknown. (refl, (same_state_iff _ _).0 unknown))
            (λ known.
              let live = open-IsOpen (state_of sorted w states outputs s.id) undone known in
              Fits-if s _ _ _ (λ two. (refl, (live, two, refl)))
                (λ one.
                  Fits-if s _ _ _ (λ some_left. unresolved-nonempty s (not-eq-true _ some_left))
                    (λ none_left.
                      settled-Fits s _ _ live (unresolved-is_empty s (not-eq-false _ none_left))
                        refl refl one))))

  -- A plan that the loop returned is the completion, if it found every remaining step resolved and
  -- none was undecided before, or names one of them.
  abbrev pub IsSound : List Step → Bool → Plan V → Type 0
  IsSound ss undecided p =
      (undecided ≡ false)
        × (p ≡ complete_plan sorted w states outputs)
        × ((s : Step) → Memᴰ s ss → is_resolved sorted w states outputs s.id ≡ true)
      ⊎ ((s : Step) × Memᴰ s ss × (p.step ≡ some s) × Justifies p.kind s p)

  IsSound-resolved :
      (s : Step) (ss : List Step) (u : Bool) (p : Plan V)
      → is_resolved sorted w states outputs s.id ≡ true
      → IsSound ss u p
      → IsSound (s ∷ ss) u p
  IsSound-resolved s ss u p done (inl (none_before, e, rest)) = inl (
    none_before,
    e,
    λ t m. elim (Memᴰ.cases_cons m) [
      | inl same ↦ ap (λ (s : Step). is_resolved sorted w states outputs s.id) same ∙ done
      | inr below ↦ rest t below
    ],
  )
  IsSound-resolved s ss u p done (inr (t, m, named, just)) = inr (t, Memᴰ.tail m, named, just)

  IsSound-waits :
      (s : Step) (ss : List Step) (u : Bool) (p : Plan V) → IsSound ss true p → IsSound (s ∷ ss) u p
  IsSound-waits s ss u p (inl (none_before, e, rest)) = cc
  IsSound-waits s ss u p (inr (t, m, named, just)) = inr (t, Memᴰ.tail m, named, just)

  justified :
      (s : Step) (q p : Plan V)
      → ◌≡◌ {A = Result (Plan V)} (ok q) (ok p)
      → (q.step ≡ some s) × Justifies q.kind s q
      → (p.step ≡ some s) × Justifies p.kind s p
  justified s q p e h =
      let same : q ≡ p = cc in
      subst (λ (r : Plan V). (r.step ≡ some s) × Justifies r.kind s r) same h

  by_verdict :
      (s : Step) (ss : List Step) (u : Bool) (p : Plan V) (v : Verdict V)
      → Fits s v
      → ((b : Bool) → decide sorted w states outputs ss b ≡ ok p → IsSound ss b p)
      → after_verdict sorted w states outputs v (decide sorted w states outputs ss) u ≡ ok p
      → IsSound (s ∷ ss) u p
  by_verdict s ss u p resolved fits ih e = IsSound-resolved s ss u p fits (ih u e)
  by_verdict s ss u p waits fits ih e = IsSound-waits s ss u p (ih true e)
  by_verdict s ss u p (decided q) fits ih e =
      let just = justified s q p e fits in inr (s, Memᴰ.head refl, just.0, just.1)

  decide-IsSound :
      (ss : List Step) (u : Bool) (p : Plan V)
      → decide sorted w states outputs ss u ≡ ok p
      → IsSound ss u p
  unfolding decide
  decide-IsSound [] false p h = inl (refl, cc, λ t m. absurd (Memᴰ.not-nil m))
  decide-IsSound [] true p h = cc
  decide-IsSound (s ∷ ss) u p h =
      by_verdict s ss u p (verdict sorted w states outputs s) (verdict-Fits s)
        (λ b. decide-IsSound ss b p) h

  -- Every plan that `plan_next` returns is justified by the definition and the persisted states. It
  -- names a step only if that step is pending or running, or, for a decision, in doubt; it runs one
  -- only if all its sources are resolved and it is an entry, or exactly one selected edge of a
  -- succeeded step leads to it, whose output it is given; it skips one only if its sources are
  -- resolved and none selected it; it completes only if every step is resolved.
  pub plan_next-IsSound :
      (p : Plan V) → plan_next sorted w states outputs ≡ ok p → IsSound w.steps false p
  unfolding plan_next
  plan_next-IsSound p h = decide-IsSound w.steps false p h
