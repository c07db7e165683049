-- ===== src/Durable/Store/Evolution.antt =====
-- How src/xyberos/durable/store.py may change the journal: a relation between an earlier and a later
-- journal that every operation of the store respects (its child modules), whoever calls it.
pub mod Primitives
pub mod Guarded
pub mod Steps
pub mod Submission
pub mod Endings
pub mod Cancellation
pub mod Claims
use xyberos.Prelude.{
  ℕ, ◌≤◌, String, ◌≡◌, Bool, true, false, Option, none, some, List, ◌++◌, is_some, arith, string_eq,
  pair_eq, refl, sym, subst, ◌∙◌, [],
}
use mathlib.Core.List.{append-nil, append_assoc}
use xyberos.Table.{find}
use xyberos.Durable.Models.{ExecutionStatus, execution_is_terminal, step_is_terminal}
use xyberos.Durable.Rows.{ExecutionRow, StepRow, LeaseRow, EventRow, DefinitionRow, Journal}
use xyberos.Durable.Txn.Ensures.{IsPreorder}

-- What was submitted stays as it was submitted; a terminal row keeps its status, its result and
-- the kind of its failure; a cancellation request is never withdrawn or moved, and an execution for
-- which it stands does not become completed.
pub record ExecutionEvolves (r s : ExecutionRow) : Type 0 where
  pub workflow : s.workflow ≡ r.workflow
  pub version : s.version ≡ r.version
  pub fingerprint : s.fingerprint ≡ r.fingerprint
  pub input : s.input ≡ r.input
  pub submitted_at : s.submitted_at ≡ r.submitted_at
  pub deadline_at : s.deadline_at ≡ r.deadline_at
  pub final :
      execution_is_terminal r.status ≡ true
      → (s.status ≡ r.status) × (s.result ≡ r.result) × (s.failure_kind ≡ r.failure_kind)
  pub requested :
      is_some r.cancellation_requested_at ≡ true
      → s.cancellation_requested_at ≡ r.cancellation_requested_at
  pub not_completed :
      is_some r.cancellation_requested_at ≡ true
      → s.status ≡ ExecutionStatus.completed
      → r.status ≡ ExecutionStatus.completed

-- A resolved step keeps its state and its output, and attempts are only counted up.
pub record StepEvolves (r s : StepRow) : Type 0 where
  pub final : step_is_terminal r.state ≡ true → (s.state ≡ r.state) × (s.output ≡ r.output)
  pub attempts : r.attempts ≤ s.attempts

-- A fencing token is never lowered, and belongs to one owner.
pub record LeaseEvolves (r s : LeaseRow) : Type 0 where
  pub fence : r.fence ≤ s.fence
  pub owner : r.fence ≡ s.fence → s.owner ≡ r.owner

-- Of each row that was there, a later row is there that it evolved to.
abbrev pub Follows : {V : Type 0} → (V → V → Type 0) → Option V → Option V → Type 0
Follows R none o = Unit {0}
Follows R (some r) none = ⊥
Follows R (some r) (some s) = R r s

pub record Evolves (j k : Journal) : Type 0 where
  pub executions :
      (i : String) → Follows ExecutionEvolves (find i j.executions) (find i k.executions)
  pub steps : (i : String × String) → Follows StepEvolves (find i j.steps) (find i k.steps)
  pub leases : (i : String) → Follows LeaseEvolves (find i j.leases) (find i k.leases)
  pub definitions :
      (i : String × String) → Follows (λ r s. s ≡ r) (find i j.definitions) (find i k.definitions)
  pub events : (more : List EventRow) × (k.events ≡ j.events ++ more)

module _ {V : Type 0} (R : V → V → Type 0) where
  pub Follows-refl : ((r : V) → R r r) → (o : Option V) → Follows R o o
  Follows-refl h none = tt
  Follows-refl h (some r) = h r

  pub Follows-trans :
      ((q r s : V) → R q r → R r s → R q s)
      → (o p q : Option V) → Follows R o p
      → Follows R p q
      → Follows R o q
  Follows-trans h none p q a b = tt
  Follows-trans h (some r) none q a b = absurd a
  Follows-trans h (some r) (some s) none a b = absurd b
  Follows-trans h (some r) (some s) (some t) a b = h r s t a b

pub Follows-some :
    {V : Type 0} (R : V → V → Type 0) (r : V) (o p : Option V)
    → o ≡ some r
    → Follows R o p
    → (s : V) × (p ≡ some s) × R r s
Follows-some R r none p e h = cc
Follows-some R r (some q) none e h = absurd h
Follows-some R r (some q) (some s) e h =
    let same : q ≡ r = cc in (s, refl, subst (λ t. R t s) same h)

pub ExecutionEvolves-refl : (r : ExecutionRow) → ExecutionEvolves r r
ExecutionEvolves-refl r = record {
  workflow = refl;
  version = refl;
  fingerprint = refl;
  input = refl;
  submitted_at = refl;
  deadline_at = refl;
  final = λ h. (refl, refl, refl);
  requested = λ h. refl;
  not_completed = λ h e. e;
}

ExecutionEvolves-trans :
    (q r s : ExecutionRow) → ExecutionEvolves q r → ExecutionEvolves r s → ExecutionEvolves q s
ExecutionEvolves-trans q r s a b = record {
  workflow = b.workflow ∙ a.workflow;
  version = b.version ∙ a.version;
  fingerprint = b.fingerprint ∙ a.fingerprint;
  input = b.input ∙ a.input;
  submitted_at = b.submitted_at ∙ a.submitted_at;
  deadline_at = b.deadline_at ∙ a.deadline_at;
  final = λ h. let f = a.final h in let g = b.final (rw f.0 h) in (g.0 ∙ f.0, g.1 ∙ f.1, g.2 ∙ f.2);
  requested = λ h. b.requested (rw (a.requested h) h) ∙ a.requested h;
  not_completed = λ h e. a.not_completed h (b.not_completed (rw (a.requested h) h) e);
}

StepEvolves-trans : (q r s : StepRow) → StepEvolves q r → StepEvolves r s → StepEvolves q s
StepEvolves-trans q r s a b = record {
  final = λ h. let f = a.final h in let g = b.final (rw f.0 h) in (g.0 ∙ f.0, g.1 ∙ f.1);
  attempts = omega (arith, a.attempts, b.attempts);
}

LeaseEvolves-trans : (q r s : LeaseRow) → LeaseEvolves q r → LeaseEvolves r s → LeaseEvolves q s
LeaseEvolves-trans q r s a b = record {
  fence = omega (arith, a.fence, b.fence);
  owner = λ e.
      b.owner (omega (arith, a.fence, b.fence, e)) ∙ a.owner (omega (arith, a.fence, b.fence, e));
}

pub StepEvolves-refl : (r : StepRow) → StepEvolves r r
StepEvolves-refl r = record { final = λ h. (refl, refl); attempts = omega arith }

pub LeaseEvolves-refl : (r : LeaseRow) → LeaseEvolves r r
LeaseEvolves-refl r = record { fence = omega arith; owner = λ e. refl }

pub Evolves-refl : (j : Journal) → Evolves j j
Evolves-refl j = record {
  executions = λ i. Follows-refl ExecutionEvolves ExecutionEvolves-refl (find i j.executions);
  steps = λ i. Follows-refl StepEvolves StepEvolves-refl (find i j.steps);
  leases = λ i. Follows-refl LeaseEvolves LeaseEvolves-refl (find i j.leases);
  definitions = λ i. Follows-refl (λ r s. s ≡ r) (λ r. refl) (find i j.definitions);
  events = ([], sym (append-nil j.events));
}

pub Evolves-trans : (j k l : Journal) → Evolves j k → Evolves k l → Evolves j l
Evolves-trans j k l a b = record {
  executions = λ i.
      Follows-trans ExecutionEvolves ExecutionEvolves-trans (find i j.executions) _ _
        (a.executions i) (b.executions i);
  steps =
      λ i. Follows-trans StepEvolves StepEvolves-trans (find i j.steps) _ _ (a.steps i) (b.steps i);
  leases = λ i.
      Follows-trans LeaseEvolves LeaseEvolves-trans (find i j.leases) _ _ (a.leases i) (b.leases i);
  definitions = λ i.
      Follows-trans (λ r s. s ≡ r) (λ q r s e f. f ∙ e) (find i j.definitions) _ _ (a.definitions i)
        (b.definitions i);
  events = (
    a.events.0 ++ b.events.0,
    cc (a.events.1, b.events.1, append_assoc j.events a.events.0 b.events.0),
  );
}

pub Evolves-preorder : IsPreorder Evolves
Evolves-preorder = record { reflexive = Evolves-refl; transitive = Evolves-trans }
