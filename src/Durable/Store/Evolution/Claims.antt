-- ===== src/Durable/Store/Evolution/Claims.antt =====
-- Claims, lease renewals and the deadline sweep of src/xyberos/durable/store.py respect `Evolves`.
use xyberos.Prelude.{
  ℕ, String, ◌≡◌, refl, Bool, true, not, Option, none, some, List, [], ◌∷◌, arith, string_eq, subst,
}
use xyberos.Table.{find}
use xyberos.Durable.Models.{ExecutionStatus, FailureKind, execution_is_terminal}
use xyberos.Durable.Rows.{ExecutionRow, LeaseRow, Claim}
use xyberos.Durable.Txn.{upsert_lease}
use xyberos.Durable.Txn.Ensures.{Ensures, Ensures-bind, ok-journal}
use xyberos.Durable.Store.Claims.{
  new_lease, may_claim, take_lease, finish_claim, claim_candidate, claim_or_none, claim_next,
  renew_lease, release_lease, expire_one, expire_all, expire_deadlines,
}
use xyberos.Durable.Store.Evolution.{
  Evolves, Evolves-preorder, ExecutionEvolves, LeaseEvolves, LeaseEvolves-refl,
  ExecutionEvolves-refl,
}
use xyberos.Durable.Store.Evolution.Primitives.{
  with_leases, Follows-upsert, Ensures-update_execution, Ensures-update_lease, evolution_rules,
}
use xyberos.Durable.Store.Evolution.Guarded.{Ensures-explain_refused_write}

-- The last lease of an execution evolves into the next one: its fence grows.
new_lease-Evolves :
    (o : Option LeaseRow) (owner : String) (now expires : ℕ) (r : LeaseRow)
    → o ≡ some r
    → LeaseEvolves r (new_lease owner now expires o)
new_lease-Evolves none owner now expires r e = cc
new_lease-Evolves (some l) owner now expires r e =
    let same : l ≡ r = cc in
    subst (λ t. LeaseEvolves t (new_lease owner now expires (some l))) same
      (record { fence = omega arith; owner = λ q. absurd (omega (arith, q)) })

Ensures-take_lease :
    (i owner : String) (now expires : ℕ) → Ensures Evolves (take_lease i owner now expires)
unfolding take_lease upsert_lease
Ensures-take_lease i owner now expires = record {
  at = λ j e. subst (Evolves j) (ok-journal e) (
      with_leases j _ (λ k.
        Follows-upsert LeaseEvolves LeaseEvolves-refl i k _ j.leases
          (new_lease-Evolves (find i j.leases) owner now expires)));
}

running_row-Evolves :
    (e : ExecutionRow) (now : ℕ) (lease : Option LeaseRow)
    → may_claim now lease e ≡ true
    → ExecutionEvolves e (record e { status = ExecutionStatus.running; updated_at = now })
unfolding may_claim execution_is_terminal
running_row-Evolves e now lease h =
    let same = ExecutionEvolves-refl e in
    record {
      workflow = refl;
      version = refl;
      fingerprint = refl;
      input = refl;
      submitted_at = refl;
      deadline_at = refl;
      final = λ t. ground arith;
      requested = same.requested;
      not_completed = λ t c. cc;
    }

Ensures-finish_claim :
    (i owner : String) (now expires : ℕ) → Ensures Evolves (finish_claim i owner now expires)
unfolding finish_claim
Ensures-finish_claim i owner now expires = search (evolution_rules, Ensures-take_lease) depth 12

Ensures-claim_candidate :
    (i owner : String) (now expires : ℕ) → Ensures Evolves (claim_candidate i owner now expires)
unfolding claim_candidate
Ensures-claim_candidate i owner now expires =
    search (evolution_rules, running_row-Evolves, Ensures-update_execution, Ensures-finish_claim)
      depth 9

Ensures-claim_or_none :
    (o : Option (String × ExecutionRow)) (owner : String) (now expires : ℕ)
    → Ensures Evolves (claim_or_none o owner now expires)
Ensures-claim_or_none none owner now expires = search evolution_rules
Ensures-claim_or_none (some (i, r)) owner now expires = Ensures-claim_candidate i owner now expires

pub Ensures-claim_next :
    (blank : String → Bool) (lease_ttl : ℕ) (owner : String) (ttl : Option ℕ) (now : ℕ)
    → Ensures Evolves (claim_next blank lease_ttl owner ttl now)
unfolding claim_next
Ensures-claim_next blank lease_ttl owner ttl now = search (evolution_rules, Ensures-claim_or_none)

lease_times-evolve :
    (l : LeaseRow) (expires heartbeat : ℕ)
    → LeaseEvolves l (record l { expires_at = expires; heartbeat_at = heartbeat })
lease_times-evolve l expires heartbeat = record { fence = omega arith; owner = λ q. refl }

pub Ensures-renew_lease :
    (lease_ttl : ℕ) (claim : Claim) (ttl : Option ℕ) (now : ℕ)
    → Ensures Evolves (renew_lease lease_ttl claim ttl now)
unfolding renew_lease
Ensures-renew_lease lease_ttl claim ttl now =
    search
      (evolution_rules, lease_times-evolve, Ensures-update_lease, Ensures-explain_refused_write)
      depth 9

pub Ensures-release_lease : (claim : Claim) (now : ℕ) → Ensures Evolves (release_lease claim now)
unfolding release_lease
Ensures-release_lease claim now =
    search
      (evolution_rules, lease_times-evolve, Ensures-update_lease, Ensures-explain_refused_write)
      depth 9

-- An execution that is not terminal may be timed out.
expired-Evolves :
    (e : ExecutionRow) (now : ℕ)
    → not (execution_is_terminal e.status) ≡ true
    → ExecutionEvolves e (record e {
      status = ExecutionStatus.timed_out;
      failure_kind = some FailureKind.timed_out;
      current_step = none;
      updated_at = now;
    })
expired-Evolves e now h =
    let same = ExecutionEvolves-refl e in
    record {
      workflow = refl;
      version = refl;
      fingerprint = refl;
      input = refl;
      submitted_at = refl;
      deadline_at = refl;
      final = λ t. ground arith;
      requested = same.requested;
      not_completed = λ t c. cc;
    }

Ensures-expire_one : (i : String) (now : ℕ) → Ensures Evolves (expire_one i now)
unfolding expire_one
Ensures-expire_one i now =
    search (evolution_rules, expired-Evolves, Ensures-update_execution) depth 9

Ensures-expire_all : (ids : List String) (now : ℕ) → Ensures Evolves (expire_all ids now)
unfolding expire_all
Ensures-expire_all [] now = search evolution_rules
Ensures-expire_all (i ∷ ids) now =
    Ensures-bind Evolves-preorder _ _ (Ensures-expire_one i now) (λ u. Ensures-expire_all ids now)

pub Ensures-expire_deadlines : (now : ℕ) → Ensures Evolves (expire_deadlines now)
unfolding expire_deadlines
Ensures-expire_deadlines now = search (evolution_rules, Ensures-expire_all)
