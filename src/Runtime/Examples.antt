-- ===== src/Runtime/Examples.antt =====
-- A registry of a database, a repository that needs it, and a service that needs both.
use xyberos.Prelude.{String, ◌≡◌, ◌≢◌, true, false, [], ◌∷◌, some, refl, string_eq, map, arith}
use xyberos.Table.{find, upsert}
use xyberos.Execution.Models.{contains}
use xyberos.Runtime.Dependencies.{
  Scope, Provider, Registry, Problem, refused, valid, register, validate,
}
use xyberos.Runtime.Dependencies.Visits.{IsSafe}
use xyberos.Runtime.Dependencies.Search.{IsKeyed}
use xyberos.Runtime.Dependencies.Safe.{validate_ends, validate-IsSafe}
use xyberos.Runtime.Dependencies.Registration.{
  IsNumbered, Registers, new_provider, register-Registers,
}

abbrev service : Provider
service = record {
  contract = "service";
  scope = Scope.request;
  dependencies = "repository" ∷ "database" ∷ [];
  eager = false;
  order = 0;
}

abbrev repository : Provider
repository = record {
  contract = "repository";
  scope = Scope.app;
  dependencies = "database" ∷ [];
  eager = false;
  order = 1;
}

abbrev database : Provider
database = record {
  contract = "database";
  scope = Scope.app;
  dependencies = [];
  eager = true;
  order = 2;
}

abbrev empty : Registry
empty = record { providers = []; frozen = false; next_order = 0 }

abbrev registry : Registry
registry = record {
  providers = ("service", service) ∷ ("repository", repository) ∷ ("database", database) ∷ [];
  frozen = false;
  next_order = 3;
}

abbrev one : Registry
one = record { providers = ("service", service) ∷ []; frozen = false; next_order = 1 }

empty-IsKeyed : IsKeyed empty.providers
unfolding IsKeyed find
empty-IsKeyed k p h = cc

registry-IsKeyed : IsKeyed registry.providers
unfolding IsKeyed find
registry-IsKeyed k p h = ground (
  arith,
  h,
  string_eq.beq_iff "service" k,
  string_eq.beq_iff "repository" k,
  string_eq.beq_iff "database" k,
)

empty-IsNumbered : IsNumbered empty
unfolding find
empty-IsNumbered = record {
  keyed = empty-IsKeyed;
  below = λ c p h. cc;
  distinct = λ c d p q h k e. cc;
}

abbrev late : Provider
late = new_provider "service" Scope.request ("repository" ∷ "database" ∷ []) false false empty

register-Registers_example : Registers late false empty (valid one)
unfolding register upsert find
register-Registers_example =
    register-Registers "service" Scope.request ("repository" ∷ "database" ∷ []) false false empty
      empty-IsNumbered

validate_ends_example : validate registry ≢ refused Problem.no_fuel
validate_ends_example = validate_ends registry registry-IsKeyed

validate-IsSafe_example :
    IsSafe registry.providers (database ∷ repository ∷ service ∷ [])
    × ((k : String) (p : Provider)
        → find k registry.providers ≡ some p
        → contains k (map (λ q. q.contract) (database ∷ repository ∷ service ∷ [])) ≡ true)
unfolding validate find
validate-IsSafe_example =
    validate-IsSafe registry registry-IsKeyed (database ∷ repository ∷ service ∷ []) refl
