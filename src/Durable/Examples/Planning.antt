-- ===== src/Durable/Examples/Planning.antt =====
-- Plans of src/xyberos/durable/scheduler.py on a small workflow.
use xyberos.Prelude.{
  ℕ, ◌<◌, String, ◌≡◌, true, false, none, some, List, [], ◌∷◌, refl, arith, sym, subst, inl, inr,
  string_eq, ◌==◌, if◌then◌else◌, map, not, ◌&&◌,
}
use mathlib.Core.List.{Memᴰ}
use mathlib.Core.List.Memᴰ
use xyberos.Errors.{ok}
use xyberos.Table.{Table, find}
use xyberos.Execution.Models.{Step, contains, select, incoming, outgoing}
use xyberos.Durable.Models.{step_is_terminal}
use xyberos.Durable.Scheduler.{
  PlanKind, Plan, select_edge, taken_from, taken_edges, reached, unresolved, verdict, decide,
  is_resolved, plan_next,
}
use xyberos.Durable.Scheduler.Sound.{IsSound, plan_next-IsSound}
use xyberos.Execution.Validation.Ranked.{IsRanked}
use xyberos.Durable.Scheduler.Progress.{plan_next-total, plan_next_complete}
use xyberos.Durable.Examples.{flow, named, loaded, all_done, recorded, as_is}

-- `load` recorded "1", so that `send` runs on it.
abbrev run_send : Plan String
run_send = record {
  kind = PlanKind.run_step;
  step = some (named "send");
  value = some "1";
  outputs = none;
  sources = "load" ∷ [];
}

plan_next-IsSound_example : IsSound as_is flow loaded recorded flow.steps false run_send
unfolding plan_next decide verdict reached unresolved taken_edges taken_from select_edge select
    incoming outgoing step_is_terminal find
plan_next-IsSound_example = plan_next-IsSound as_is flow loaded recorded run_send refl

abbrev depth : String → ℕ
depth step_id = if step_id == "load" then 0 else 1

All : {A : Type 0} → (A → Type 0) → List A → Type 0
All P [] = Unit {0}
All P (x ∷ xs) = P x × All P xs

All-Memᴰ : {A : Type 0} (P : A → Type 0) (xs : List A) (a : A) → All P xs → Memᴰ a xs → P a
unfolding All
All-Memᴰ P [] a all m = absurd (Memᴰ.not-nil m)
All-Memᴰ P (x ∷ xs) a (here, below) m = elim (Memᴰ.cases_cons m) [
  | inl same ↦ subst P (sym same) here
  | inr deeper ↦ All-Memᴰ P xs a below deeper
]

flow-IsRanked : IsRanked flow depth
unfolding All
flow-IsRanked = record {
  source = λ e m.
      All-Memᴰ (λ e. (s : Step) × Memᴰ s flow.steps × (s.id ≡ e.source)) flow.edges e
        ((named "load", Memᴰ.head refl, refl), ((named "load", Memᴰ.head refl, refl), tt)) m;
  upward = λ e m.
      All-Memᴰ (λ e. depth e.source < depth e.target) flow.edges e (omega arith, (omega arith, tt))
        m;
}

plan_next-total_example : (p : Plan String) × (plan_next as_is flow loaded recorded ≡ ok p)
plan_next-total_example = plan_next-total as_is flow loaded recorded depth flow-IsRanked

all_done-resolved :
    (s : Step) → Memᴰ s flow.steps → is_resolved as_is flow all_done recorded s.id ≡ true
unfolding find step_is_terminal All
all_done-resolved s m =
    All-Memᴰ (λ s. is_resolved as_is flow all_done recorded s.id ≡ true) flow.steps s
      (refl, (refl, (refl, tt))) m

plan_next_complete_example :
    (p : Plan String) × (outs : Table String String) × (plan_next as_is flow all_done recorded
      ≡ ok p)
    × (p.kind ≡ PlanKind.complete)
    × (p.outputs ≡ some outs)
    × ((k : String)
        → find k outs ≡ (
            if contains k (map (λ s. s.id) flow.steps)
              && not (contains k (map (λ e. e.source) flow.edges))
            then find k recorded
            else none))
plan_next_complete_example = plan_next_complete as_is flow all_done recorded all_done-resolved
