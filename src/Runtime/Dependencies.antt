-- ===== src/Runtime/Dependencies.antt =====
-- `ProviderRegistry` of src/xyberos/runtime/dependencies.py. A contract is a text; the factories, their
-- inspection and the paths in the errors are not modelled.
pub mod Visits
pub mod Search
pub mod Safe
pub mod Registration
use xyberos.Prelude.{
  ℕ, zero, suc, ◌+◌, String, Bool, true, false, not, ◌&&◌, Option, none, some, List, [], ◌∷◌, ◌++◌,
  ltb, leb, nat_beq, is_some, if◌then◌else◌, string_eq, length, map,
}
use xyberos.Table.{Table, find, upsert}
use xyberos.Execution.Models.{contains}

pub data Scope : Type 0 where
  app request transient : Scope

abbrev pub scope_rank : Scope → ℕ
scope_rank Scope.app = 3
scope_rank Scope.request = 2
scope_rank Scope.transient = 1

pub record Provider : Type 0 where
  pub contract : String
  pub scope : Scope
  pub dependencies : List String
  pub eager : Bool
  pub order : ℕ

pub record Registry : Type 0 where
  pub providers : Table String Provider
  pub frozen : Bool
  pub next_order : ℕ

-- RegistrationError, MissingProviderError, DependencyCycleError and ScopeViolationError; `no_fuel`
-- is the model's own.
pub data Problem : Type 0 where
  registration missing_provider dependency_cycle scope_violation no_fuel : Problem

pub data Checked (A : Type 0) : Type 0 where
  valid : A → Checked A
  refused : Problem → Checked A

abbrev and_then : {A B : Type 0} → (A → Checked B) → Checked A → Checked B
and_then f (valid a) = f a
and_then f (refused problem) = refused problem

-- `register`, on an inspected factory: the provider is stored under its contract.
unfoldable pub register : String → Scope → List String → Bool → Bool → Registry → Checked Registry
register contract scope dependencies eager replace registry =
    if registry.frozen
    then refused Problem.registration
    else if eager && not (nat_beq (scope_rank scope) 3)
    then refused Problem.registration
    else if is_some (find contract registry.providers) && not replace
    then refused Problem.registration
    else valid (record registry {
      providers =
          upsert contract
            (record {
              contract = contract;
              scope = scope;
              dependencies = dependencies;
              eager = eager;
              order = registry.next_order;
            })
            registry.providers;
      next_order = registry.next_order + 1;
    })

unfoldable pub freeze : Registry → Registry
freeze registry = record registry { frozen = true }

unfoldable pub clone : Registry → Registry
clone registry = record registry { frozen = false }

-- `visited` and `ordered`
pub record Progress : Type 0 where
  pub visited : List String
  pub ordered : List Provider

module _ (providers : Table String Provider) where
  abbrev pub check_dependency :
      (String → Progress → Checked Progress)
      → Provider
      → String
      → Option Provider
      → Progress
      → Checked Progress
  check_dependency next provider dependency none progress = refused Problem.missing_provider
  check_dependency next provider dependency (some needed) progress =
      if ltb (scope_rank needed.scope) (scope_rank provider.scope)
      then refused Problem.scope_violation
      else next dependency progress

  -- The loop over `provider.dependencies`; `next` is the inner `visit`.
  unfoldable pub visit_dependencies :
      (String → Progress → Checked Progress) → Provider → List String → Progress → Checked Progress
  visit_dependencies next provider [] progress = valid progress
  visit_dependencies next provider (dependency ∷ rest) progress =
      and_then (visit_dependencies next provider rest)
        (check_dependency next provider dependency (find dependency providers) progress)

  -- `visited.add(contract)` and `ordered.append(provider)`
  abbrev pub finish_visit : String → Provider → Progress → Checked Progress
  finish_visit contract provider progress = valid (record {
    visited = progress.visited ++ contract ∷ [];
    ordered = progress.ordered ++ provider ∷ [];
  })

  abbrev pub visit_found :
      (String → Progress → Checked Progress)
      → String
      → Option Provider
      → Progress
      → Checked Progress
  visit_found next contract none progress = refused Problem.missing_provider
  visit_found next contract (some provider) progress =
      and_then (finish_visit contract provider)
        (visit_dependencies next provider provider.dependencies progress)

  unfoldable pub visit : ℕ → List String → String → Progress → Checked Progress
  unfolding visit_dependencies
  visit zero active contract progress = refused Problem.no_fuel
  visit (suc fuel) active contract progress =
      if contains contract progress.visited
      then valid progress
      else if contains contract active
      then refused Problem.dependency_cycle
      else visit_found (visit fuel (active ++ contract ∷ [])) contract (find contract providers)
          progress

  unfoldable pub visit_each : ℕ → List Provider → Progress → Checked Progress
  unfolding visit
  visit_each fuel [] progress = valid progress
  visit_each fuel (provider ∷ rest) progress =
      and_then (visit_each fuel rest) (visit fuel [] provider.contract progress)

-- `sorted(…, key=lambda item: item.order)`
unfoldable pub insert_by_order : Provider → List Provider → List Provider
insert_by_order p [] = p ∷ []
insert_by_order p (q ∷ qs) = if leb p.order q.order then p ∷ q ∷ qs else q ∷ insert_by_order p qs

unfoldable pub by_order : Table String Provider → List Provider
unfolding insert_by_order
by_order [] = []
by_order ((contract, p) ∷ rest) = insert_by_order p (by_order rest)

-- One level for each provider, and one for the visit that finds a cycle
abbrev pub fuel_for : Table String Provider → ℕ
fuel_for providers = length providers + 1

abbrev pub ordered_result : Progress → Checked (List Provider)
ordered_result progress = valid progress.ordered

unfoldable pub validate : Registry → Checked (List Provider)
unfolding visit_each by_order
validate registry = and_then ordered_result (
    visit_each registry.providers (fuel_for registry.providers) (by_order registry.providers)
      (record { visited = []; ordered = [] }))
