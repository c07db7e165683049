-- ===== src/Execution/Validation/Acyclic/Decides.antt =====
-- `_validate_acyclic` of src/xyberos/execution/validation.py decides whether a definition has a cycle.
use xyberos.Prelude.{
  ℕ, zero, suc, ◌+◌, ◌≤◌, ◌<◌, String, ◌≡◌, ◌↔◌, inl, inr, refl, Bool, some, List, [], ◌∷◌, arith,
  nat_beq, if◌then◌else◌, ◌==◌, string_eq, length, count, IsWithin, IsWithin-length, IsWithin-full,
  ap, sym, subst, Bool-cases,
}
use mathlib.Core.List.{Memᴰ}
use xyberos.Errors.{ok}
use xyberos.Execution.Models.{Edge, Workflow, select, step_ids}
use xyberos.Execution.Validation.{validate_steps, validate_edges}
use xyberos.Execution.Validation.Edges.{validate_edges-IsOrdered}
use xyberos.Execution.Validation.Steps.{validate_steps-IsDeclared}
use xyberos.Execution.Validation.Ranked.{IsRanked, contains-count, step_of_count, count_distinct}
use xyberos.Execution.Validation.Acyclic.{
  successors, initial, fuel_for, visited_steps, validate_acyclic,
}
use xyberos.Execution.Validation.Acyclic.Pending.{pending-some}
use xyberos.Execution.Validation.Acyclic.Rounds.{SourcesFirst, Visited, visit_ready-Visited}
use xyberos.Execution.Validation.Acyclic.Start.{initial-Holds}

-- The place of a step in the order of the visits
abbrev place : List String → String → ℕ
place [] x = 0
place (y ∷ ys) x = if y == x then length ys else place ys x

place-lt : (xs : List String) (x : String) → 1 ≤ count x xs → place xs x < length xs
place-lt [] x h = absurd (omega arith)
place-lt (y ∷ ys) x h = ground (arith, place-lt ys x)

module _ {V : Type 0} (edges : List (Edge V)) where
  sources-visited :
      (xs : List String) (e : Edge V)
      → SourcesFirst edges xs
      → Memᴰ e edges
      → 1 ≤ count e.target xs
      → 1 ≤ count e.source xs
  sources-visited [] e sorted m h = absurd (omega arith)
  sources-visited (x ∷ xs) e (first, rest) m h = elim (Bool-cases (x == e.target)) [
    | inl here ↦ omega (arith, first e m (sym ((string_eq.beq_iff x e.target).0 here)))
    | inr there ↦ omega (arith, sources-visited xs e rest m (ground (arith, h, there)))
  ]

  -- A source was visited before its target.
  place-upward :
      (xs : List String) (e : Edge V)
      → ((x : String) → count x xs ≤ 1)
      → SourcesFirst edges xs
      → Memᴰ e edges
      → 1 ≤ count e.target xs
      → place xs e.source < place xs e.target
  place-upward [] e once sorted m h = absurd (omega arith)
  place-upward (x ∷ xs) e once (first, rest) m h = elim (Bool-cases (x == e.target)) [
    | inl here ↦
        let before = first e m (sym ((string_eq.beq_iff x e.target).0 here)) in
        ground (arith, here, before, once e.source, place-lt xs e.source before)
    | inr there ↦
        let target : 1 ≤ count e.target xs = ground (arith, h, there) in
        let before = sources-visited xs e rest m target in
        ground (
          arith,
          there,
          before,
          once e.source,
          place-upward xs e (λ y. omega (arith, once y)) rest m target,
        )
  ]

count-target :
    {V : Type 0} (edges : List (Edge V)) (c x : String)
    → 1 ≤ count x (successors edges c)
    → (e : Edge V) × Memᴰ e edges × (e.target ≡ x)
unfolding select
count-target [] c x h = absurd (omega arith)
count-target (e ∷ es) c x h = elim (Bool-cases (e.target == x)) [
  | inl here ↦ (e, Memᴰ.head refl, (string_eq.beq_iff e.target x).0 here)
  | inr there ↦
      let (d, m, q) = count-target es c x (ground (arith, h, there)) in (d, Memᴰ.tail m, q)
]

module _ {V : Type 0} (blank : String → Bool) (w : Workflow V)
    (steps_pass : validate_steps blank w ≡ ok tt) (edges_pass : validate_edges w ≡ ok tt) where
  distinct : (x : String) → count x (step_ids w) ≤ 1
  distinct = count_distinct w.steps (validate_steps-IsDeclared blank w steps_pass).distinct

  source_declared : (e : Edge V) → Memᴰ e w.edges → 1 ≤ count e.source (step_ids w)
  source_declared e m =
      let (source, target, apart) = (validate_edges-IsOrdered w edges_pass).connected e m in
      contains-count e.source (step_ids w) source

  target_declared : (e : Edge V) → Memᴰ e w.edges → 1 ≤ count e.target (step_ids w)
  target_declared e m =
      let (source, target, apart) = (validate_edges-IsOrdered w edges_pass).connected e m in
      contains-count e.target (step_ids w) target

  visited_steps-Visited :
      (all : List String) × (visited_steps w ≡ some (length all)) × Visited w.edges (step_ids w) all
  unfolding visited_steps
  visited_steps-Visited =
      visit_ready-Visited w.edges (step_ids w)
        (λ c x h.
          let (e, m, q) = count-target w.edges c x h in
          subst (λ y. 1 ≤ count y (step_ids w)) q (target_declared e m))
        (fuel_for w) (initial w).degrees (initial w).ready [] (initial-Holds w distinct) tt
        (omega arith)

  pass-length :
      (all : List String)
      → visited_steps w ≡ some (length all)
      → (validate_acyclic w ≡ ok tt) ↔ (length all ≡ length (step_ids w))
  unfolding validate_acyclic
  pass-length all e = ground (arith, e)

  pass→IsRanked : validate_acyclic w ≡ ok tt → (rank : String → ℕ) × IsRanked w rank
  pass→IsRanked pass =
      let (all, e, v) = visited_steps-Visited in
      let full =
        IsWithin-full all (step_ids w) v.within (omega (arith, (pass-length all e).0 pass)) in
      (
        place all,
        record {
          source = λ e m. step_of_count e.source w.steps (source_declared e m);
          upward = λ e m.
              place-upward w.edges all e (λ x. omega (arith, v.within x, distinct x)) v.ordered m
                (omega (arith, target_declared e m, full e.target));
        },
      )

  module _ (rank : String → ℕ) (ranked : IsRanked w rank) (all : List String)
      (v : Visited w.edges (step_ids w) all) where
    ranked-visited : (n : ℕ) (x : String) → rank x < n → 1 ≤ count x (step_ids w) → 1 ≤ count x all
    ranked-visited zero x below i = absurd (omega arith)
    ranked-visited (suc n) x below i = elim (Bool-cases (nat_beq (count x all) 0)) [
      | inr there ↦ ground (arith, there)
      | inl missing ↦
          let (e, m, into, unseen) =
            pending-some w.edges all x (v.stuck x i (ground (arith, missing))) in
          let lower : rank e.source < n = omega (arith, ranked.upward e m, ap rank into, below) in
          absurd (omega (arith, unseen, ranked-visited n e.source lower (source_declared e m)))
    ]

    all_visited_length : length all ≡ length (step_ids w)
    all_visited_length =
        let back : IsWithin (step_ids w) all =
          λ x. grind (arith, distinct x, ranked-visited (rank x + 1) x (omega arith)) in
        omega
          (arith, IsWithin-length all (step_ids w) v.within, IsWithin-length (step_ids w) all back)

  -- On a definition whose steps and edges pass their checks, the loop of the cycle check ends within
  -- one round for each step.
  pub visited_steps_ends :
      (visited : ℕ) × (visited_steps w ≡ some visited) × (visited ≤ length (step_ids w))
  visited_steps_ends =
      let (all, e, v) = visited_steps-Visited in
      (length all, e, IsWithin-length all (step_ids w) v.within)

  -- On a definition whose steps and edges pass their checks, the cycle check passes exactly where the
  -- steps can be numbered so that each edge runs upwards: on the definitions without a cycle.
  pub validate_acyclic_iff : (validate_acyclic w ≡ ok tt) ↔ ((rank : String → ℕ) × IsRanked w rank)
  validate_acyclic_iff = (
    pass→IsRanked,
    λ (rank, ranked).
        let (all, e, v) = visited_steps-Visited in
        (pass-length all e).1 (all_visited_length rank ranked all v),
  )
