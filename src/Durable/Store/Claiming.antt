-- ===== src/Durable/Store/Claiming.antt =====
-- What `claim_next` of src/xyberos/durable/store.py hands out.
use xyberos.Prelude.{
  ℕ, ◌+◌, String, ◌≡◌, ◌≢◌, ◌⊎◌, inl, inr, refl, Bool, true, false, Option, none, some, [], ◌∷◌,
  ◌++◌, arith, string_eq, Option-cases,
}
use text.Mathlib.TextEquality.{eq_iff}
use text.Mathlib.TextPositions.{eq_refl}
use xyberos.Errors.{ok}
use xyberos.Table.{find, update, upsert, delete, find-update, find-upsert, find-delete}
use xyberos.Durable.Models.{ExecutionStatus, EventKind}
use xyberos.Durable.Rows.{ExecutionRow, LeaseRow, Claim, Journal}
use xyberos.Durable.Txn.{execution_row, update_execution, upsert_lease, delete_retry, append_event}
use xyberos.Durable.Store.Claims.{
  eligible, oldest, claim_of, may_claim, take_lease, finish_claim, claim_candidate, claim_next,
  new_lease, next_fence, lifetime,
}
use xyberos.Durable.Store.Oldest.{Every, IsOldest, oldest-none, oldest-IsOldest, oldest-Every}

-- What is eligible passes the conditions that the claiming UPDATE states again.
eligible→may_claim :
    (now : ℕ) (j : Journal) (k : String) (e : ExecutionRow)
    → eligible now j k e ≡ true
    → may_claim now (find k j.leases) e ≡ true
unfolding eligible may_claim
eligible→may_claim now j k e h = ground arith

-- What a claim leaves behind: the execution runs under a fresh lease of the new owner, its
-- scheduled retry is gone, one event is appended, and no other execution or lease is touched.
pub record IsClaimed (now expires : ℕ) (owner : String) (i : String) (row : ExecutionRow)
    (c : Claim) (j k : Journal) : Type 0 where
  pub execution : c.execution_id ≡ i
  pub holder : c.owner ≡ owner
  pub fence : c.fence ≡ next_fence (find i j.leases)
  pub lease : find i k.leases ≡ some (new_lease owner now expires (find i j.leases))
  pub running :
      find i k.executions ≡ some (record row { status = ExecutionStatus.running; updated_at = now })
  pub retry : find i k.retries ≡ none
  pub other_executions : (o : String) → o ≢ i → find o k.executions ≡ find o j.executions
  pub other_leases : (o : String) → o ≢ i → find o k.leases ≡ find o j.leases
  pub steps : k.steps ≡ j.steps

abbrev started_row : ℕ → ExecutionRow → ExecutionRow
started_row now e = record e { status = ExecutionStatus.running; updated_at = now }

module _ (now expires : ℕ) (owner i : String) (j : Journal) where
  abbrev fresh_lease : LeaseRow
  fresh_lease = new_lease owner now expires (find i j.leases)

  abbrev claimed_journal : Journal
  claimed_journal = record j {
    executions = update i (started_row now) j.executions;
    leases = upsert i fresh_lease j.leases;
    retries = delete i j.retries;
    events =
        j.events
        ++ record {
          execution_id = i;
          kind = EventKind.claimed;
          step_id = none;
          attempt = none;
          at = now;
        }
          ∷ [];
  }

  module _ (row : ExecutionRow) (found : find i j.executions ≡ some row)
      (allowed : may_claim now (find i j.leases) row ≡ true) where
    claim_candidate_lem :
        claim_candidate i owner now expires j
        ≡ ok (some (claim_of i owner fresh_lease (started_row now row)), claimed_journal)
    unfolding claim_candidate finish_claim take_lease update_execution upsert_lease delete_retry
        execution_row append_event
    claim_candidate_lem = ground (
      arith,
      found,
      allowed,
      find-update i i (started_row now) j.executions,
      find-upsert i i fresh_lease j.leases,
      eq_refl i,
    )

    claim_candidate-IsClaimed :
        IsClaimed now expires owner i row
          (claim_of i owner fresh_lease (started_row now row))
          j
          claimed_journal
    claim_candidate-IsClaimed = record {
      execution = refl;
      holder = refl;
      fence = refl;
      lease = simp (find-upsert, eq_refl);
      running = simp (find-update, found, eq_refl);
      retry = simp (find-delete, eq_refl);
      other_executions =
          λ o n. ground (arith, find-update i o (started_row now) j.executions, eq_iff i o);
      other_leases = λ o n. ground (arith, find-upsert i o fresh_lease j.leases, eq_iff i o);
      steps = refl;
    }

-- The primary key of `executions`: each row is the one that its key finds.
abbrev pub IsKeyed : Journal → Type 0
IsKeyed j = Every (λ k e. find k j.executions ≡ some e) j.executions

module _ (blank : String → Bool) (lease_ttl : ℕ) (owner : String) (ttl : Option ℕ) (now : ℕ)
    (j : Journal) where
  abbrev expires : ℕ
  expires = now + lifetime lease_ttl ttl

  -- In a journal whose execution rows have different keys, a worker with a name gets no claim
  -- only if no execution is eligible, and the journal is then unchanged. Otherwise it gets one of
  -- the eligible executions that were submitted first: the execution runs under a lease of this
  -- worker with the next fencing token, its scheduled retry is gone, and no other execution, no
  -- other lease and no step is touched.
  pub claim_next-IsOldest :
      IsKeyed j
      → blank owner ≡ false
      → (claim_next blank lease_ttl owner ttl now j ≡ ok (none, j))
          × Every (λ k e. eligible now j k e ≡ false) j.executions
        ⊎ ((i : String) × (row : ExecutionRow) × (c : Claim) × (k : Journal) × (claim_next blank
                lease_ttl owner ttl now j
              ≡ ok (some c, k))
            × IsOldest (eligible now j) j.executions i row
            × IsClaimed now expires owner i row c j k)
  unfolding claim_next
  claim_next-IsOldest keyed named = elim (Option-cases (oldest (eligible now j) j.executions)) [
    | inl nothing ↦ inl (rw (named, nothing), oldest-none (eligible now j) j.executions nothing)
    | inr ((i, row), chosen) ↦
        let best = oldest-IsOldest (eligible now j) j.executions i row chosen in
        let found =
          oldest-Every (λ k e. find k j.executions ≡ some e) (eligible now j) j.executions i row
            keyed chosen in
        let allowed = eligible→may_claim now j i row best.0 in
        inr (
          i,
          row,
          _,
          _,
          rw (named, chosen) (claim_candidate_lem now expires owner i j row found allowed),
          best,
          claim_candidate-IsClaimed now expires owner i j row found allowed,
        )
  ]
