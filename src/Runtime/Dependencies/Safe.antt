-- ===== src/Runtime/Dependencies/Safe.antt =====
-- `ProviderRegistry.validate` of src/xyberos/runtime/dependencies.py ends, and orders the providers so
-- that each can be built.
use xyberos.Prelude.{
  String, ◌≡◌, ◌≢◌, true, some, List, [], ◌∷◌, arith, refl, subst, string_eq, ◌==◌, ◌||◌, map,
}
use xyberos.Table.{Table, find}
use xyberos.Execution.Models.{contains}
use xyberos.Runtime.Dependencies.{
  Provider, Registry, Problem, Checked, valid, refused, Progress, and_then, visit_each, by_order,
  insert_by_order, fuel_for, validate, ordered_result,
}
use xyberos.Runtime.Dependencies.Visits.{IsSafe, no_providers}
use xyberos.Runtime.Dependencies.Search.{IsKeyed, Found, visit_each-Found}

contains-insert :
    (c : String) (p : Provider) (ps : List Provider)
    → contains c (map (λ q. q.contract) (insert_by_order p ps))
      ≡ (p.contract == c || contains c (map (λ q. q.contract) ps))
unfolding insert_by_order
contains-insert c p [] = refl
contains-insert c p (q ∷ qs) = ground (arith, contains-insert c p qs)

contains-by_order :
    (k : String) (t : Table String Provider) (p : Provider)
    → find k t ≡ some p
    → contains p.contract (map (λ q. q.contract) (by_order t)) ≡ true
unfolding by_order find
contains-by_order k [] p h = cc
contains-by_order k ((j, q) ∷ t) p h = ground (
  arith,
  h,
  contains-insert p.contract q (by_order t),
  contains-by_order k t p,
  string_eq.beq_iff q.contract p.contract,
)

module _ (registry : Registry) (keyed : IsKeyed registry.providers) where
  abbrev start : Progress
  start = record { visited = []; ordered = [] }

  looped : Found registry.providers keyed (by_order registry.providers) start (
      visit_each registry.providers
        (fuel_for registry.providers)
        (by_order registry.providers)
        start)
  looped =
      visit_each-Found registry.providers keyed (fuel_for registry.providers)
        (by_order registry.providers) start (omega arith)
        (record { safe = no_providers; same = refl })

  ended :
      (q : Checked Progress)
      → Found registry.providers keyed (by_order registry.providers) start q
      → and_then ordered_result q ≢ refused Problem.no_fuel
  unfolding Found
  ended (valid t) h e = cc
  ended (refused problem) h e = h (ground (arith, e))

  returned :
      (q : Checked Progress) (ordered : List Provider)
      → Found registry.providers keyed (by_order registry.providers) start q
      → and_then ordered_result q ≡ valid ordered
      → IsSafe registry.providers ordered
        × ((k : String) (p : Provider)
            → find k registry.providers ≡ some p
            → contains k (map (λ q. q.contract) ordered) ≡ true)
  unfolding Found IsKeyed
  returned (refused problem) ordered h e = cc
  returned (valid t) ordered (good, kept, all) e =
      let same : t.ordered ≡ ordered = ground (arith, e) in
      (
        subst (λ (l : List Provider). IsSafe registry.providers l) same good.safe,
        λ k p found.
            subst (λ (l : List Provider). contains k (map (λ q. q.contract) l) ≡ true) same
              (subst (λ (l : List String). contains k l ≡ true) good.same
                (subst (λ (x : String). contains x t.visited ≡ true) (keyed k p found)
                  (all p.contract (contains-by_order k registry.providers p found)))),
      )

  -- The recursion of `validate` ends: a level for each provider and one more is enough, whatever the
  -- dependencies are.
  pub validate_ends : validate registry ≢ refused Problem.no_fuel
  unfolding validate
  validate_ends =
      ended
        (visit_each registry.providers (fuel_for registry.providers) (by_order registry.providers)
          start)
        looped

  -- An order that `validate` returns is safe to build in: it holds each provider at most once, and
  -- after every provider that it depends on, none of which has a shorter-lived scope; and it holds
  -- every registered provider.
  pub validate-IsSafe :
      (ordered : List Provider)
      → validate registry ≡ valid ordered
      → IsSafe registry.providers ordered
        × ((k : String) (p : Provider)
            → find k registry.providers ≡ some p
            → contains k (map (λ q. q.contract) ordered) ≡ true)
  unfolding validate
  validate-IsSafe ordered h =
      returned
        (visit_each registry.providers (fuel_for registry.providers) (by_order registry.providers)
          start)
        ordered looped h
