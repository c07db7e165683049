-- ===== src/Durable/Store/Evolution/Primitives.antt =====
-- Each single statement on the journal's tables respects `Evolves`, given that the row it writes
-- evolves from the row that it finds.
use mathlib.Core.Option
use xyberos.Prelude.{
  ℕ, String, ◌≡◌, refl, Bool, true, Option, none, some, arith, Eq, ◌==◌, string_eq, ◌⊎◌, pair_eq,
  Bool-cases, inl, inr, subst, Option-cases,
}
use xyberos.Errors.{ok}
use xyberos.Table.{Table, find, update, upsert, find-update, find-upsert}
use xyberos.Durable.Models.{EventKind}
use xyberos.Durable.Rows.{ExecutionRow, StepRow, LeaseRow, RetryRow, DefinitionRow, Journal}
use xyberos.Durable.Txn.{
  update_execution, update_step, update_lease, insert_execution, insert_step, insert_definition,
  upsert_retry, delete_retry, append_event,
}
use xyberos.Durable.Txn.Ensures.{Ensures, ensures_rules, ok-journal}
use xyberos.Durable.Store.Evolution.{
  ExecutionEvolves, StepEvolves, LeaseEvolves, Evolves, Evolves-refl, Evolves-preorder, Follows,
  Follows-refl, ExecutionEvolves-refl, StepEvolves-refl, LeaseEvolves-refl,
}

module _ {V : Type 0} (R : V → V → Type 0) where
  Follows-map :
      (o : Option V) (f : V → V) → ((r : V) → o ≡ some r → R r (f r)) → Follows R o (Option.map f o)
  Follows-map none f h = tt
  Follows-map (some r) f h = h r refl

  Follows-some : (o : Option V) (v : V) → ((r : V) → o ≡ some r → R r v) → Follows R o (some v)
  Follows-some none v h = tt
  Follows-some (some r) v h = h r refl

module _ {K V : Type 0} ⦃e : Eq K⦄ (R : V → V → Type 0) (R-refl : (r : V) → R r r) where
  pub Follows-update :
      (k i : K) (f : V → V) (t : Table K V)
      → ((r : V) → find k t ≡ some r → R r (f r))
      → Follows R (find i t) (find i (update k f t))
  Follows-update k i f t h = rw find-update (elim (Bool-cases (k == i)) [
    | inl p ↦ rw p (Follows-map R (find i t) f (λ r q. h r (rw ((e.beq_iff k i).0 p) q)))
    | inr p ↦ rw p (Follows-refl R R-refl (find i t))
  ])

  pub Follows-upsert :
      (k i : K) (v : V) (t : Table K V)
      → ((r : V) → find k t ≡ some r → R r v)
      → Follows R (find i t) (find i (upsert k v t))
  Follows-upsert k i v t h = rw find-upsert (elim (Bool-cases (k == i)) [
    | inl p ↦ rw p (Follows-some R (find i t) v (λ r q. h r (rw ((e.beq_iff k i).0 p) q)))
    | inr p ↦ rw p (Follows-refl R R-refl (find i t))
  ])

module _ (j : Journal) where
  pub with_executions :
      (t : Table String ExecutionRow)
      → ((i : String) → Follows ExecutionEvolves (find i j.executions) (find i t))
      → Evolves j (record j { executions = t })
  with_executions t h =
      let same = Evolves-refl j in
      record {
        executions = h;
        steps = same.steps;
        leases = same.leases;
        definitions = same.definitions;
        events = same.events;
      }

  pub with_steps :
      (t : Table (String × String) StepRow)
      → ((i : String × String) → Follows StepEvolves (find i j.steps) (find i t))
      → Evolves j (record j { steps = t })
  with_steps t h =
      let same = Evolves-refl j in
      record {
        executions = same.executions;
        steps = h;
        leases = same.leases;
        definitions = same.definitions;
        events = same.events;
      }

  pub with_leases :
      (t : Table String LeaseRow)
      → ((i : String) → Follows LeaseEvolves (find i j.leases) (find i t))
      → Evolves j (record j { leases = t })
  with_leases t h =
      let same = Evolves-refl j in
      record {
        executions = same.executions;
        steps = same.steps;
        leases = h;
        definitions = same.definitions;
        events = same.events;
      }

  with_definitions :
      (t : Table (String × String) DefinitionRow)
      → ((i : String × String) → Follows (λ r s. s ≡ r) (find i j.definitions) (find i t))
      → Evolves j (record j { definitions = t })
  with_definitions t h =
      let same = Evolves-refl j in
      record {
        executions = same.executions;
        steps = same.steps;
        leases = same.leases;
        definitions = h;
        events = same.events;
      }

  with_retries : (t : Table String RetryRow) → Evolves j (record j { retries = t })
  with_retries t =
      let same = Evolves-refl j in
      record {
        executions = same.executions;
        steps = same.steps;
        leases = same.leases;
        definitions = same.definitions;
        events = same.events;
      }

-- What an UPDATE does to the journal, whether or not its row matches.
update_execution_cases :
    (k : String) (test : ExecutionRow → Bool) (set : ExecutionRow → ExecutionRow) (j : Journal)
    {b : Bool} {j' : Journal}
    → update_execution k test set j ≡ ok (b, j')
    → (j ≡ j')
      ⊎ ((r : ExecutionRow) × (find k j.executions ≡ some r)
          × (test r ≡ true)
          × (record j { executions = update k set j.executions } ≡ j'))
unfolding update_execution
update_execution_cases k test set j h = ground arith

update_step_cases :
    (k s : String) (test : StepRow → Bool) (set : StepRow → StepRow) (j : Journal) {b : Bool}
    {j' : Journal}
    → update_step k s test set j ≡ ok (b, j')
    → (j ≡ j')
      ⊎ ((r : StepRow) × (find (k, s) j.steps ≡ some r)
          × (test r ≡ true)
          × (record j { steps = update (k, s) set j.steps } ≡ j'))
unfolding update_step
update_step_cases k s test set j h = ground arith

update_lease_cases :
    (k : String) (test : LeaseRow → Bool) (set : LeaseRow → LeaseRow) (j : Journal) {b : Bool}
    {j' : Journal}
    → update_lease k test set j ≡ ok (b, j')
    → (j ≡ j')
      ⊎ ((r : LeaseRow) × (find k j.leases ≡ some r)
          × (test r ≡ true)
          × (record j { leases = update k set j.leases } ≡ j'))
unfolding update_lease
update_lease_cases k test set j h = ground arith

same-row : {A : Type 0} {r s : A} {o : Option A} → o ≡ some r → o ≡ some s → s ≡ r
same-row e f = cc

module _ (k : String) where
  -- The written row may be compared with the row that stands in the journal.
  pub update_execution-Evolves :
      (test : ExecutionRow → Bool) (set : ExecutionRow → ExecutionRow) (j : Journal) {b : Bool}
      {l : Journal}
      → ((r : ExecutionRow)
          → find k j.executions ≡ some r
          → test r ≡ true
          → ExecutionEvolves r (set r))
      → update_execution k test set j ≡ ok (b, l)
      → Evolves j l
  update_execution-Evolves test set j h e = elim (update_execution_cases k test set j e) [
    | inl p ↦ subst (Evolves j) p (Evolves-refl j)
    | inr (r, found, passed, p) ↦ subst (Evolves j) p (
        with_executions j _ (λ i.
          Follows-update ExecutionEvolves ExecutionEvolves-refl k i set j.executions
            (λ s q. h s q (rw (same-row found q) passed))))
  ]

  pub Ensures-update_execution :
      (test : ExecutionRow → Bool) (set : ExecutionRow → ExecutionRow)
      → ((r : ExecutionRow) → test r ≡ true → ExecutionEvolves r (set r))
      → Ensures Evolves (update_execution k test set)
  Ensures-update_execution test set h = record {
    at = λ j e. update_execution-Evolves test set j (λ r f. h r) e;
  }

  pub Ensures-update_step :
      (s : String) (test : StepRow → Bool) (set : StepRow → StepRow)
      → ((r : StepRow) → test r ≡ true → StepEvolves r (set r))
      → Ensures Evolves (update_step k s test set)
  Ensures-update_step s test set h = record {
    at = λ j e. elim (update_step_cases k s test set j e) [
      | inl p ↦ subst (Evolves j) p (Evolves-refl j)
      | inr (r, found, passed, p) ↦ subst (Evolves j) p (
          with_steps j _ (λ i.
            Follows-update StepEvolves StepEvolves-refl (k, s) i set j.steps
              (λ t q. h t (rw (same-row found q) passed))))
    ];
  }

  pub Ensures-update_lease :
      (test : LeaseRow → Bool) (set : LeaseRow → LeaseRow)
      → ((r : LeaseRow) → LeaseEvolves r (set r))
      → Ensures Evolves (update_lease k test set)
  Ensures-update_lease test set h = record {
    at = λ j e. elim (update_lease_cases k test set j e) [
      | inl p ↦ subst (Evolves j) p (Evolves-refl j)
      | inr (r, found, passed, p) ↦ subst (Evolves j) p (
          with_leases j _
            (λ i. Follows-update LeaseEvolves LeaseEvolves-refl k i set j.leases (λ s q. h s)))
    ];
  }

  pub Ensures-upsert_retry : (row : RetryRow) → Ensures Evolves (upsert_retry k row)
  unfolding upsert_retry
  Ensures-upsert_retry row = record {
    at = λ j e. subst (Evolves j) (ok-journal e) (with_retries j _);
  }

  pub Ensures-delete_retry : Ensures Evolves (delete_retry k)
  unfolding delete_retry
  Ensures-delete_retry = record { at = λ j e. subst (Evolves j) (ok-journal e) (with_retries j _) }

  pub Ensures-append_event :
      (kind : EventKind) (now : ℕ) (s : Option String) (attempt : Option ℕ)
      → Ensures Evolves (append_event k kind now s attempt)
  unfolding append_event
  Ensures-append_event kind now s attempt = record {
    at = λ j e.
        let same = Evolves-refl j in
        subst (Evolves j) (ok-journal e) (record {
          executions = same.executions;
          steps = same.steps;
          leases = same.leases;
          definitions = same.definitions;
          events = (_, refl);
        });
  }

  pub Ensures-insert_execution : (row : ExecutionRow) → Ensures Evolves (insert_execution k row)
  unfolding insert_execution
  Ensures-insert_execution row = record {
    at = λ j e. elim (Option-cases (find k j.executions)) [
      | inl absent ↦ subst (Evolves j) (cc (rw absent at e)) (
          with_executions j _ (λ i.
            Follows-upsert ExecutionEvolves ExecutionEvolves-refl k i row j.executions
              (λ r q. cc (absent, q))))
      | inr (r, found) ↦ cc (rw found at e)
    ];
  }

  pub Ensures-insert_step : (s : String) (row : StepRow) → Ensures Evolves (insert_step k s row)
  unfolding insert_step
  Ensures-insert_step s row = record {
    at = λ j e. elim (Option-cases (find (k, s) j.steps)) [
      | inl absent ↦ subst (Evolves j) (cc (rw absent at e)) (
          with_steps j _ (λ i.
            Follows-upsert StepEvolves StepEvolves-refl (k, s) i row j.steps
              (λ r q. cc (absent, q))))
      | inr (r, found) ↦ cc (rw found at e)
    ];
  }

  pub Ensures-insert_definition :
      (version : String) (row : DefinitionRow) → Ensures Evolves (insert_definition k version row)
  unfolding insert_definition
  Ensures-insert_definition version row = record {
    at = λ j e. elim (Option-cases (find (k, version) j.definitions)) [
      | inl absent ↦ subst (Evolves j) (cc (rw absent at e)) (
          with_definitions j _ (λ i.
            Follows-upsert (λ r s. s ≡ r) (λ r. refl) (k, version) i row j.definitions
              (λ r q. cc (absent, q))))
      | inr (r, found) ↦ cc (rw found at e)
    ];
  }

pub ruleset evolution_rules = (
  ensures_rules, Evolves-preorder, Ensures-upsert_retry, Ensures-delete_retry, Ensures-append_event,
  Ensures-insert_execution, Ensures-insert_step, Ensures-insert_definition,
)
