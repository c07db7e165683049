-- ===== src/Runtime/Dependencies/Visits.antt =====
-- What one visit of `ProviderRegistry.validate` in src/xyberos/runtime/dependencies.py does to what
-- was found so far.
use xyberos.Prelude.{
  ◌+◌, ◌≤◌, String, ◌≡◌, ◌≢◌, Bool, true, false, Option, none, some, List, [], ◌∷◌, ◌++◌, arith,
  refl, ap, subst, string_eq, ◌==◌, ◌||◌, if◌then◌else◌, length, count, one_if, map, ltb,
  Bool-cases, inl, inr,
}
use xyberos.Table.{Table, find}
use xyberos.Execution.Models.{contains}
use xyberos.Runtime.Dependencies.{
  scope_rank, Provider, Problem, Checked, valid, refused, Progress, and_then, check_dependency,
  visit_dependencies,
}

pub contains-append :
    (a x : String) (xs : List String) → contains a (xs ++ x ∷ []) ≡ (contains a xs || x == a)
contains-append a x [] = ground arith
contains-append a x (y ∷ ys) = ground (arith, contains-append a x ys)

pub count-append :
    (a x : String) (xs : List String) → count a (xs ++ x ∷ []) ≡ count a xs + one_if (x == a)
count-append a x [] = omega arith
count-append a x (y ∷ ys) = omega (arith, count-append a x ys)

pub length-append : (x : String) (xs : List String) → length (xs ++ x ∷ []) ≡ length xs + 1
length-append x [] = refl
length-append x (y ∷ ys) = ap (λ n. n + 1) (length-append x ys)

pub count-absent : (a : String) (xs : List String) → contains a xs ≡ false → count a xs ≡ 0
count-absent a [] h = refl
count-absent a (x ∷ xs) h = ground (arith, h, count-absent a xs)

-- The contracts under which providers are registered
abbrev pub keys : Table String Provider → List String
keys [] = []
keys ((k, p) ∷ t) = k ∷ keys t

pub count-keys :
    (k : String) (t : Table String Provider) {p : Provider}
    → find k t ≡ some p
    → 1 ≤ count k (keys t)
unfolding find
count-keys k [] h = cc
count-keys k ((j, q) ∷ t) {p = p} h = ground (arith, h, count-keys k t {p = p})

pub length-keys : (t : Table String Provider) → length (keys t) ≡ length t
length-keys [] = refl
length-keys ((j, q) ∷ t) = ap (λ n. n + 1) (length-keys t)

module _ (providers : Table String Provider) where
  -- A list of providers in which each stands once and after what it needs, which lives as long
  pub data IsSafe : List Provider → Type 0 where
    no_providers : IsSafe []
    next_is :
        (before after : List Provider) (p : Provider)
        → IsSafe before
        → find p.contract providers ≡ some p
        → contains p.contract (map (λ q. q.contract) before) ≡ false
        → ((d : String)
            → contains d p.dependencies ≡ true
            → (contains d (map (λ q. q.contract) before) ≡ true)
              × (needed : Provider) × (find d providers ≡ some needed)
              × (scope_rank p.scope ≤ scope_rank needed.scope))
        → after ≡ before ++ p ∷ []
        → IsSafe after

  pub record IsGood (s : Progress) : Type 0 where
    pub safe : IsSafe s.ordered
    pub same : s.visited ≡ map (λ q. q.contract) s.ordered

  -- From `s` to `t`: nothing is forgotten, and no contract of `active` is added.
  pub record Grows (active : List String) (s t : Progress) : Type 0 where
    pub good : IsGood t
    pub kept : (c : String) → contains c s.visited ≡ true → contains c t.visited ≡ true
    pub waits :
        (c : String)
        → contains c active ≡ true
        → contains c s.visited ≡ false
        → contains c t.visited ≡ false

  abbrev pub Visits : List String → String → Progress → Checked Progress → Type 0
  Visits active contract s (valid t) = Grows active s t × (contains contract t.visited ≡ true)
  Visits active contract s (refused problem) = problem ≢ Problem.no_fuel

  -- What a provider that needs `d` may rely on
  abbrev pub IsServed : Provider → String → Type 0
  IsServed p d =
      (needed : Provider) × (find d providers ≡ some needed)
      × (scope_rank p.scope ≤ scope_rank needed.scope)

  abbrev pub Covers : Provider → List String → List String → Progress → Checked Progress → Type 0
  Covers p active contracts s (valid t) =
      Grows active s t
      × ((c : String) → contains c contracts ≡ true → (contains c t.visited ≡ true) × IsServed p c)
  Covers p active contracts s (refused problem) = problem ≢ Problem.no_fuel

  pub Grows-refl : (active : List String) (s : Progress) → IsGood s → Grows active s s
  Grows-refl active s good = record { good = good; kept = λ c h. h; waits = λ c a h. h }

  pub Grows-trans :
      (active : List String) (s t u : Progress)
      → Grows active s t
      → Grows active t u
      → Grows active s u
  Grows-trans active s t u a b = record {
    good = b.good;
    kept = λ c h. b.kept c (a.kept c h);
    waits = λ c m h. b.waits c m (a.waits c m h);
  }

  module _ (provider : Provider) (active : List String)
      (next : String → Progress → Checked Progress)
      (visits : (d : String) (s : Progress) → IsGood s → Visits active d s (next d s)) where
    Covers-then :
        (d : String) (rest : List String) (s : Progress) (r : Checked Progress)
        → ((t : Progress)
            → IsGood t
            → Covers provider active rest t (visit_dependencies providers next provider rest t))
        → IsServed provider d
        → Visits active d s r
        → Covers provider active
            (d ∷ rest)
            s
            (and_then (visit_dependencies providers next provider rest) r)
    Covers-then d rest s (refused problem) ih served visited = visited
    Covers-then d rest s (valid t) ih served (grown, there) =
        joined (visit_dependencies providers next provider rest t) (ih t grown.good)
      where
        joined :
            (q : Checked Progress)
            → Covers provider active rest t q
            → Covers provider active (d ∷ rest) s q
        joined (refused problem) h = h
        joined (valid u) (onwards, all) = (
          Grows-trans active s t u grown onwards,
          λ c m. elim (Bool-cases (d == c)) [
            | inl same ↦
                subst (λ (x : String). (contains x u.visited ≡ true) × IsServed provider x)
                  ((string_eq.beq_iff d c).0 same) (onwards.kept d there, served)
            | inr other ↦ all c (ground (arith, m, other))
          ],
        )

    checked-Covers :
        (d : String) (rest : List String) (s : Progress) (found : Option Provider)
        → find d providers ≡ found
        → IsGood s
        → ((t : Progress)
            → IsGood t
            → Covers provider active rest t (visit_dependencies providers next provider rest t))
        → Covers provider active (d ∷ rest) s (
            and_then
              (visit_dependencies providers next provider rest)
              (check_dependency providers next provider d found s))
    checked-Covers d rest s none e good ih = λ h. cc
    checked-Covers d rest s (some needed) e good ih =
        by_rank (ltb (scope_rank needed.scope) (scope_rank provider.scope)) refl
      where
        by_rank :
            (shorter : Bool)
            → ltb (scope_rank needed.scope) (scope_rank provider.scope) ≡ shorter
            → Covers provider active (d ∷ rest) s (
                and_then
                  (visit_dependencies providers next provider rest)
                  (if shorter then refused Problem.scope_violation else next d s))
        by_rank true h = λ x. cc
        by_rank false h =
            Covers-then d rest s (next d s) ih (needed, e, ground (arith, h)) (visits d s good)

    pub visit_dependencies-Covers :
        (contracts : List String) (s : Progress)
        → IsGood s
        → Covers provider active contracts s
            (visit_dependencies providers next provider contracts s)
    unfolding visit_dependencies
    visit_dependencies-Covers [] s good = (Grows-refl active s good, λ c h. cc)
    visit_dependencies-Covers (d ∷ rest) s good =
        checked-Covers d rest s (find d providers) refl good (visit_dependencies-Covers rest)
