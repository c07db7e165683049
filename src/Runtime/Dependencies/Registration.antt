-- ===== src/Runtime/Dependencies/Registration.antt =====
-- `ProviderRegistry.register` of src/xyberos/runtime/dependencies.py: what it accepts, and the registry
-- that it leaves.
use xyberos.Prelude.{
  ◌+◌, String, ◌≡◌, Bool, true, false, some, List, [], ◌∷◌, arith, refl, string_eq, ◌<◌, ◌==◌, ◌||◌,
  if◌then◌else◌, map, ◌&&◌, not, nat_beq, is_some,
}
use xyberos.Table.{Table, find, upsert, find-upsert}
use xyberos.Execution.Models.{contains}
use xyberos.Runtime.Dependencies.{
  register, scope_rank, Scope, Provider, Registry, Problem, Checked, valid, refused,
}
use xyberos.Runtime.Dependencies.Search.{IsKeyed}

upsert-IsKeyed :
    (p : Provider) (t : Table String Provider) → IsKeyed t → IsKeyed (upsert p.contract p t)
unfolding IsKeyed
upsert-IsKeyed p t keyed k q found =
    ground (arith, found, find-upsert p.contract k p t, string_eq.beq_iff p.contract k, keyed k q)

abbrev is_app : Scope → Bool
is_app Scope.app = true
is_app Scope.request = false
is_app Scope.transient = false

-- The registry takes the provider: it is not frozen, an eager provider is of the application, and
-- the contract is new or its provider is to be replaced.
abbrev accepts : String → Scope → Bool → Bool → Registry → Bool
accepts contract scope eager replace registry =
    not registry.frozen
    && ((not eager || is_app scope)
        && (replace || not (contains contract (map (λ x. x.0) registry.providers))))

-- Each provider stands under its own contract, with a number that no other has and that is below
-- the next one.
pub record IsNumbered (registry : Registry) : Type 0 where
  pub keyed : IsKeyed registry.providers
  pub below :
      (c : String) (p : Provider)
      → find c registry.providers ≡ some p
      → p.order < registry.next_order
  pub distinct :
      (c d : String) (p q : Provider)
      → find c registry.providers ≡ some p
      → find d registry.providers ≡ some q
      → p.order ≡ q.order
      → c ≡ d

-- After a registration the contract has the new provider, with the next number, and every other
-- contract has the provider that it had.
pub record IsRegistered (p : Provider) (registry after : Registry) : Type 0 where
  pub stored :
      (c : String)
      → find c after.providers ≡ (if p.contract == c then some p else find c registry.providers)
  pub next : after.next_order ≡ registry.next_order + 1
  pub unfrozen : after.frozen ≡ false
  pub numbered : IsNumbered after

-- The answer of `register` is an acceptance or a refusal for good reason.
abbrev pub Registers : Provider → Bool → Registry → Checked Registry → Type 0
Registers p replace registry (valid after) =
    (accepts p.contract p.scope p.eager replace registry ≡ true) × IsRegistered p registry after
Registers p replace registry (refused problem) =
    (accepts p.contract p.scope p.eager replace registry ≡ false) × (problem ≡ Problem.registration)

is_app-scope_rank : (scope : Scope) → nat_beq (scope_rank scope) 3 ≡ is_app scope
is_app-scope_rank Scope.app = refl
is_app-scope_rank Scope.request = refl
is_app-scope_rank Scope.transient = refl

is_some-find :
    (c : String) (t : Table String Provider) → is_some (find c t) ≡ contains c (map (λ x. x.0) t)
unfolding find
is_some-find c [] = refl
is_some-find c ((k, p) ∷ t) = ground (arith, is_some-find c t)

upsert-IsNumbered :
    (p : Provider) (registry : Registry)
    → p.order ≡ registry.next_order
    → IsNumbered registry
    → IsNumbered (record registry {
      providers = upsert p.contract p registry.providers;
      next_order = registry.next_order + 1;
    })
unfolding IsKeyed
upsert-IsNumbered p registry next was = record {
  keyed = upsert-IsKeyed p registry.providers was.keyed;
  below = λ c q h.
      ground (arith, h, next, find-upsert p.contract c p registry.providers, was.below c q);
  distinct = λ c d q r hq hr same. ground (
    arith,
    hq,
    hr,
    same,
    next,
    find-upsert p.contract c p registry.providers,
    find-upsert p.contract d p registry.providers,
    string_eq.beq_iff p.contract c,
    string_eq.beq_iff p.contract d,
    was.below c q,
    was.below d r,
    was.distinct c d q r,
  );
}

registered :
    (p : Provider) (registry : Registry)
    → registry.frozen ≡ false
    → p.order ≡ registry.next_order
    → IsNumbered registry
    → IsRegistered p registry (record registry {
      providers = upsert p.contract p registry.providers;
      next_order = registry.next_order + 1;
    })
registered p registry unfrozen next was = record {
  stored = λ c. find-upsert p.contract c p registry.providers;
  next = refl;
  unfrozen = unfrozen;
  numbered = upsert-IsNumbered p registry next was;
}

module _ (contract : String) (scope : Scope) (dependencies : List String) (eager replace : Bool)
    (registry : Registry) where
  abbrev pub new_provider : Provider
  new_provider = record {
    contract = contract;
    scope = scope;
    dependencies = dependencies;
    eager = eager;
    order = registry.next_order;
  }

  decided :
      (frozen lazy taken : Bool)
      → registry.frozen ≡ frozen
      → (eager && not (nat_beq (scope_rank scope) 3)) ≡ lazy
      → (is_some (find contract registry.providers) && not replace) ≡ taken
      → IsNumbered registry
      → Registers new_provider replace registry (
          if frozen
          then refused Problem.registration
          else if lazy
          then refused Problem.registration
          else if taken
          then refused Problem.registration
          else valid (record registry {
            providers = upsert contract new_provider registry.providers;
            next_order = registry.next_order + 1;
          }))
  decided true lazy taken f l t was = (ground (arith, f), refl)
  decided false true taken f l t was = (ground (arith, f, l, is_app-scope_rank scope), refl)
  decided false false true f l t was =
      (ground (arith, f, t, is_some-find contract registry.providers), refl)
  decided false false false f l t was = (
    ground (arith, f, l, t, is_app-scope_rank scope, is_some-find contract registry.providers),
    registered new_provider registry f refl was,
  )

  pub register-Registers :
      IsNumbered registry
      → Registers new_provider replace registry
          (register contract scope dependencies eager replace registry)
  unfolding register
  register-Registers was = decided registry.frozen _ _ refl refl refl was
