-- ===== src/Runtime/Dependencies/Search.antt =====
-- The search of `ProviderRegistry.validate` in src/xyberos/runtime/dependencies.py: what was visited
-- is always safe to build, and there is fuel for every path.
use xyberos.Prelude.{
  ℕ, zero, suc, ◌+◌, ◌≤◌, ◌<◌, String, ◌≡◌, ◌≢◌, Bool, true, false, Option, none, some, List, [],
  ◌∷◌, ◌++◌, arith, refl, ap, sym, subst, string_eq, ◌==◌, if◌then◌else◌, length, count, IsWithin,
  IsWithin-length, map, Bool-cases, inl, inr,
}
use xyberos.Table.{Table, find}
use xyberos.Execution.Models.{contains}
use xyberos.Runtime.Dependencies.{
  Provider, Problem, Checked, valid, refused, Progress, and_then, finish_visit, visit_found, visit,
  visit_each,
}
use xyberos.Runtime.Dependencies.Visits.{
  contains-append, count-append, length-append, count-absent, keys, count-keys, length-keys,
  next_is, IsGood, Grows, Visits, Covers, IsServed, Grows-refl, visit_dependencies-Covers,
}

map-append :
    (xs : List Provider) (p : Provider)
    → map (λ q. q.contract) (xs ++ p ∷ []) ≡ map (λ q. q.contract) xs ++ p.contract ∷ []
map-append [] p = refl
map-append (x ∷ xs) p = ap (λ l. x.contract ∷ l) (map-append xs p)

-- Each provider is stored under its own contract.
unfoldable pub IsKeyed : Table String Provider → Type 0
IsKeyed providers = (k : String) (p : Provider) → find k providers ≡ some p → p.contract ≡ k

module _ (providers : Table String Provider) (keyed : IsKeyed providers) where
  finish_visit-Visits :
      (active : List String) (contract : String) (p : Provider) (s t : Progress)
      → find contract providers ≡ some p
      → contains contract s.visited ≡ false
      → contains contract active ≡ false
      → Grows providers (active ++ contract ∷ []) s t
      → ((c : String)
          → contains c p.dependencies ≡ true
          → (contains c t.visited ≡ true) × IsServed providers p c)
      → Visits providers active contract s (finish_visit providers contract p t)
  unfolding IsKeyed
  finish_visit-Visits active contract p s t found unseen idle grown all =
      let named = keyed contract p found in
      let fresh =
        grown.waits contract
          (ground
            (arith, contains-append contract contract active, string_eq.beq_iff contract contract))
          unseen in
      (
        record {
          good = record {
            safe =
                next_is t.ordered (t.ordered ++ p ∷ []) p grown.good.safe
                  (subst (λ (x : String). find x providers ≡ some p) (sym named) found)
                  (cc (fresh, grown.good.same, named))
                  (λ d m.
                    let (there, served) = all d m in
                    let (needed, at, rank) = served in
                    (
                      subst (λ (l : List String). contains d l ≡ true) grown.good.same there,
                      needed,
                      at,
                      rank,
                    ))
                  refl;
            same = cc (map-append t.ordered p, grown.good.same, named);
          };
          kept = λ c h. ground (arith, contains-append c contract t.visited, grown.kept c h);
          waits = λ c a h. ground (
            arith,
            contains-append c contract t.visited,
            contains-append c contract active,
            grown.waits c,
            string_eq.beq_iff contract c,
            a,
            idle,
            h,
          );
        },
        ground (
          arith,
          contains-append contract contract t.visited,
          string_eq.beq_iff contract contract,
        ),
      )

  visited-Visits :
      (active : List String) (contract : String) (p : Provider) (s : Progress)
      (r : Checked Progress)
      → find contract providers ≡ some p
      → contains contract s.visited ≡ false
      → contains contract active ≡ false
      → Covers providers p (active ++ contract ∷ []) p.dependencies s r
      → Visits providers active contract s (and_then (finish_visit providers contract p) r)
  visited-Visits active contract p s (refused problem) found unseen idle h = h
  visited-Visits active contract p s (valid t) found unseen idle (grown, all) =
      finish_visit-Visits active contract p s t found unseen idle grown all

  abbrev HasRoom : ℕ → List String → Type 0
  HasRoom fuel active = IsWithin active (keys providers) × (length providers < fuel + length active)

  room_below :
      (fuel : ℕ) (active : List String) (contract : String) (p : Provider)
      → find contract providers ≡ some p
      → contains contract active ≡ false
      → HasRoom (suc fuel) active
      → HasRoom fuel (active ++ contract ∷ [])
  room_below fuel active contract p found idle (within, room) = (
    λ a. elim (Bool-cases (contract == a)) [
      | inl same ↦
          subst (λ (x : String). count x (active ++ contract ∷ []) ≤ count x (keys providers))
            ((string_eq.beq_iff contract a).0 same)
            (ground (
              arith,
              count-append contract contract active,
              count-absent contract active idle,
              count-keys contract providers found,
            ))
      | inr other ↦ ground (arith, other, count-append a contract active, within a)
    ],
    omega (arith, room, length-append contract active),
  )

  found-Visits :
      (fuel : ℕ) (active : List String) (contract : String) (s : Progress) (found : Option Provider)
      → find contract providers ≡ found
      → contains contract s.visited ≡ false
      → contains contract active ≡ false
      → IsGood providers s
      → HasRoom (suc fuel) active
      → ((d : String) (t : Progress)
          → IsGood providers t
          → HasRoom fuel (active ++ contract ∷ [])
          → Visits providers
              (active ++ contract ∷ [])
              d
              t
              (visit providers fuel (active ++ contract ∷ []) d t))
      → Visits providers active contract s
          (visit_found providers (visit providers fuel (active ++ contract ∷ [])) contract found s)
  found-Visits fuel active contract s none e unseen idle good room ih = λ h. cc
  found-Visits fuel active contract s (some p) e unseen idle good room ih =
      visited-Visits active contract p s _ e unseen idle (
        visit_dependencies-Covers providers p (active ++ contract ∷ [])
          (visit providers fuel (active ++ contract ∷ []))
          (λ d t gt. ih d t gt (room_below fuel active contract p e idle room)) p.dependencies s
          good)

  visit_by :
      (fuel : ℕ) (active : List String) (contract : String) (s : Progress) (seen busy : Bool)
      → contains contract s.visited ≡ seen
      → contains contract active ≡ busy
      → IsGood providers s
      → (seen ≡ false
          → busy ≡ false
          → Visits providers active contract s (
              visit_found providers
                (visit providers fuel (active ++ contract ∷ []))
                contract
                (find contract providers)
                s))
      → Visits providers active contract s (
          if seen
          then valid s
          else if busy
          then refused Problem.dependency_cycle
          else visit_found providers
              (visit providers fuel (active ++ contract ∷ []))
              contract
              (find contract providers)
              s)
  visit_by fuel active contract s true busy e b good h = (Grows-refl providers active s good, e)
  visit_by fuel active contract s false true e b good h = λ x. cc
  visit_by fuel active contract s false false e b good h = h refl refl

  visit-Visits :
      (fuel : ℕ) (active : List String) (contract : String) (s : Progress)
      → IsGood providers s
      → HasRoom fuel active
      → Visits providers active contract s (visit providers fuel active contract s)
  unfolding visit
  visit-Visits zero active contract s good (within, room) =
      absurd
        (omega (arith, room, IsWithin-length active (keys providers) within, length-keys providers))
  visit-Visits (suc fuel) active contract s good room =
      visit_by fuel active contract s (contains contract s.visited) (contains contract active) refl
        refl good
        (λ unseen idle.
          found-Visits fuel active contract s (find contract providers) refl unseen idle good room
            (λ d t gt below. visit-Visits fuel (active ++ contract ∷ []) d t gt below))

  -- What the loop over the registered providers ends with
  unfoldable pub Found : List Provider → Progress → Checked Progress → Type 0
  Found ps s (valid t) =
      IsGood providers t
      × ((c : String) → contains c s.visited ≡ true → contains c t.visited ≡ true)
      × ((c : String) → contains c (map (λ q. q.contract) ps) ≡ true → contains c t.visited ≡ true)
  Found ps s (refused problem) = problem ≢ Problem.no_fuel

  further-Found :
      (p : Provider) (rest : List Provider) (s t : Progress) (q : Checked Progress)
      → Grows providers [] s t
      → contains p.contract t.visited ≡ true
      → Found rest t q
      → Found (p ∷ rest) s q
  unfolding Found
  further-Found p rest s t (refused problem) grown there h = h
  further-Found p rest s t (valid u) grown there (g, kept, all) = (
    g,
    (λ c m. kept c (grown.kept c m)),
    λ c m. elim (Bool-cases (p.contract == c)) [
      | inl same ↦
          subst (λ (x : String). contains x u.visited ≡ true)
            ((string_eq.beq_iff p.contract c).0 same) (kept p.contract there)
      | inr other ↦ all c (ground (arith, m, other))
    ],
  )

  first-Found :
      (fuel : ℕ) (p : Provider) (rest : List Provider) (s : Progress) (r : Checked Progress)
      → ((t : Progress) → IsGood providers t → Found rest t (visit_each providers fuel rest t))
      → Visits providers [] p.contract s r
      → Found (p ∷ rest) s (and_then (visit_each providers fuel rest) r)
  unfolding Found
  first-Found fuel p rest s (refused problem) ih h = h
  first-Found fuel p rest s (valid t) ih (grown, there) =
      further-Found p rest s t (visit_each providers fuel rest t) grown there (ih t grown.good)

  pub visit_each-Found :
      (fuel : ℕ) (ps : List Provider) (s : Progress)
      → length providers < fuel
      → IsGood providers s
      → Found ps s (visit_each providers fuel ps s)
  unfolding visit_each Found
  visit_each-Found fuel [] s room good = (good, (λ c h. h), λ c h. cc)
  visit_each-Found fuel (p ∷ rest) s room good =
      first-Found fuel p rest s (visit providers fuel [] p.contract s)
        (λ t g. visit_each-Found fuel rest t room g)
        (visit-Visits fuel [] p.contract s good ((λ a. omega arith), omega (arith, room)))
