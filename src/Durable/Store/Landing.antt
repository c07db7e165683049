-- ===== src/Durable/Store/Landing.antt =====
-- The status in which an operation of src/xyberos/durable/store.py leaves its execution.
pub mod Calls
pub mod Failures
use xyberos.Prelude.{
  ℕ, String, ◌≡◌, Bool, Option, none, some, arith, string_eq, pair_eq, ap, ◌∙◌, sym, refl,
  if◌then◌else◌,
}
use xyberos.Errors.{Result, ok, err}
use xyberos.Table.{find, update, find-update}
use xyberos.Durable.Models.{ExecutionStatus, EventKind}
use xyberos.Durable.Rows.{ExecutionRow, RetryRow, Claim, Journal}
use xyberos.Durable.Txn.{
  Txn, pure, read, lift, ◌>>=◌, ◌>>◌, append_event, delete_retry, upsert_retry, update_lease,
}
use xyberos.Durable.Txn.Ensures.{
  Ensures, IsPreorder, >>=-eq-ok, ensures_rules, Ensures-pure, Ensures-raise, Ensures-lift,
  Ensures-read, Ensures-or_raise, Ensures-if, Ensures-execution_row, Ensures-step_row, Ensures-bind,
}
use xyberos.Durable.Store.Writes.{set_execution_status, release_owned_lease}
use xyberos.Durable.Store.Success.{StatusSet, set_execution_status-eq-ok}

pub record Has (i : String) (s : ExecutionStatus) (j : Journal) : Type 0 where
  pub row : ExecutionRow
  pub found : find i j.executions ≡ some row
  pub had : row.status ≡ s

-- Where the transaction returns, the execution has that status.
pub record Lands {A : Type 0} (i : String) (s : ExecutionStatus) (m : Txn A) : Type 0 where
  pub at : (j : Journal) {a : A} {k : Journal} → m j ≡ ok (a, k) → Has i s k

pub SameExecutions : Journal → Journal → Type 0
SameExecutions j k = k.executions ≡ j.executions

pub same : IsPreorder SameExecutions
unfolding SameExecutions
same = record { reflexive = λ j. refl; transitive = λ j k l a b. b ∙ a }

pub Ensures-append_event-same :
    (i : String) (kind : EventKind) (now : ℕ) (step_id : Option String) (attempt : Option ℕ)
    → Ensures SameExecutions (append_event i kind now step_id attempt)
unfolding append_event SameExecutions
Ensures-append_event-same i kind now step_id attempt = record { at = λ j e. ground arith }

pub Ensures-delete_retry-same : (i : String) → Ensures SameExecutions (delete_retry i)
unfolding delete_retry SameExecutions
Ensures-delete_retry-same i = record { at = λ j e. ground arith }

pub Ensures-release_owned_lease-same :
    (claim : Claim) (now : ℕ) → Ensures SameExecutions (release_owned_lease claim now)
unfolding release_owned_lease update_lease SameExecutions
Ensures-release_owned_lease-same claim now = record { at = λ j e. ground arith }

pub same-then :
    {B : Type 0} (m : Txn (Unit {0})) (k : Txn B)
    → Ensures SameExecutions m
    → Ensures SameExecutions k
    → Ensures SameExecutions (m >> k)
same-then m k hm hk = Ensures-bind same m (λ u. k) hm (λ u. hk)

module _ {A B : Type 0} {i : String} {s : ExecutionStatus} where
  pub Lands-bind : (m : Txn A) (f : A → Txn B) → ((a : A) → Lands i s (f a)) → Lands i s (m >>= f)
  Lands-bind m f hf = record {
    at = λ j e. let (a, k, first, rest) = >>=-eq-ok m f j e in (hf a).at k rest;
  }

pub StatusSet-Has :
    (claim : Claim) (target : ExecutionStatus) (now : ℕ) (extra : ExecutionRow → ExecutionRow)
    (allow : Bool) (j k : Journal)
    → ((r : ExecutionRow) → (extra r).status ≡ r.status)
    → StatusSet claim target now extra allow j k
    → Has claim.execution_id target k
StatusSet-Has claim target now extra allow j k keeps set =
    let write = (λ (r : ExecutionRow). extra (record r { status = target; updated_at = now })) in
    record {
      row = write set.row;
      found = ground (
        arith,
        set.found,
        set.written,
        find-update claim.execution_id claim.execution_id write j.executions,
        string_eq.beq_iff claim.execution_id claim.execution_id,
      );
      had = keeps (record set.row { status = target; updated_at = now });
    }

-- After the status is set, the rest leaves it.
pub Lands-set :
    {B : Type 0} (claim : Claim) (target : ExecutionStatus) (now : ℕ)
    (extra : ExecutionRow → ExecutionRow) (allow : Bool) (rest : Txn B)
    → ((r : ExecutionRow) → (extra r).status ≡ r.status)
    → Ensures SameExecutions rest
    → Lands claim.execution_id target (set_execution_status claim target now extra allow >> rest)
unfolding SameExecutions
Lands-set claim target now extra allow rest keeps same_after = record {
  at = λ j e.
      let (u, k, first, onwards) =
        >>=-eq-ok (set_execution_status claim target now extra allow) (λ u. rest) j e in
      let has =
        StatusSet-Has claim target now extra allow j k keeps
          (set_execution_status-eq-ok claim target now extra allow j first) in
      record {
        row = has.row;
        found = ap (find claim.execution_id) (same_after.at k onwards) ∙ has.found;
        had = has.had;
      };
}

-- Where the transaction returns, it returns that.
pub record Returns {A : Type 0} (x : A) (m : Txn A) : Type 0 where
  pub at : (j : Journal) {a : A} {k : Journal} → m j ≡ ok (a, k) → a ≡ x

pub Returns-pure : {A : Type 0} (x : A) → Returns x (pure x)
Returns-pure x = record { at = λ j e. cc }

pub Returns-bind :
    {A B : Type 0} {x : B} (m : Txn A) (f : A → Txn B)
    → ((a : A) → Returns x (f a))
    → Returns x (m >>= f)
Returns-bind m f hf = record {
  at = λ j e. let (a, k, first, rest) = >>=-eq-ok m f j e in (hf a).at k rest;
}

pub Returns-then :
    {B : Type 0} {x : B} (m : Txn (Unit {0})) (k : Txn B) → Returns x k → Returns x (m >> k)
Returns-then m k hk = Returns-bind m (λ u. k) (λ u. hk)
