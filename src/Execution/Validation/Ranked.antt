-- ===== src/Execution/Validation/Ranked.antt =====
-- Acyclic definitions of src/xyberos/execution/models.py, and what the earlier checks of
-- src/xyberos/execution/validation.py say in numbers.
use xyberos.Prelude.{
  ℕ, ◌≤◌, ◌<◌, String, ◌≡◌, ◌≢◌, inl, inr, refl, true, List, [], ◌∷◌, ◌++◌, map, arith, ap, sym,
  ◌∙◌, ◌==◌, string_eq, count, Bool-cases,
}
use mathlib.Core.List.{Memᴰ}
use xyberos.Execution.Models.{Step, Edge, Workflow, contains}

-- A definition whose edges start at declared steps and run upwards in some numbering of the steps,
-- as the edges of every acyclic definition do.
pub record IsRanked {V : Type 0} (w : Workflow V) (rank : String → ℕ) : Type 0 where
  pub source : (e : Edge V) → Memᴰ e w.edges → (s : Step) × Memᴰ s w.steps × (s.id ≡ e.source)
  pub upward : (e : Edge V) → Memᴰ e w.edges → rank e.source < rank e.target

pub contains-count : (x : String) (xs : List String) → contains x xs ≡ true → 1 ≤ count x xs
contains-count x [] h = cc
contains-count x (y ∷ ys) h = ground (arith, contains-count x ys)

pub step_of_count :
    (x : String) (ss : List Step)
    → 1 ≤ count x (map (λ s. s.id) ss)
    → (s : Step) × Memᴰ s ss × (s.id ≡ x)
step_of_count x [] h = absurd (omega arith)
step_of_count x (s ∷ ss) h = elim (Bool-cases (s.id == x)) [
  | inl here ↦ (s, Memᴰ.head refl, (string_eq.beq_iff s.id x).0 here)
  | inr there ↦ let (t, m, e) = step_of_count x ss (ground (arith, h)) in (t, Memᴰ.tail m, e)
]

count-none :
    (x : String) (ss : List Step)
    → ((t : Step) → Memᴰ t ss → t.id ≢ x)
    → count x (map (λ s. s.id) ss) ≡ 0
count-none x [] h = refl
count-none x (s ∷ ss) h = ground (
  arith,
  h s (Memᴰ.head refl),
  string_eq.beq_iff s.id x,
  count-none x ss (λ t m. h t (Memᴰ.tail m)),
)

-- No two steps of different places have the same id: each id stands at most once.
pub count_distinct :
    (ss : List Step)
    → ((xs ys : List Step) (s t : Step) → ss ≡ xs ++ s ∷ ys → Memᴰ t ys → s.id ≢ t.id)
    → (x : String) → count x (map (λ s. s.id) ss) ≤ 1
count_distinct [] h x = omega arith
count_distinct (s ∷ ss) h x = elim (Bool-cases (s.id == x)) [
  | inl here ↦
      let same = (string_eq.beq_iff s.id x).0 here in
      ground (arith, count-none x ss (λ t m e. h [] ss s t refl m (same ∙ sym e)))
  | inr there ↦
      ground (
        arith,
        there,
        count_distinct ss (λ xs ys a b e m. h (s ∷ xs) ys a b (ap (λ l. s ∷ l) e) m) x,
      )
]
