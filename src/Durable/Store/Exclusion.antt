-- ===== src/Durable/Store/Exclusion.antt =====
-- One owner at a time: what a claim of src/xyberos/durable/store.py means for the owner before it.
use xyberos.Prelude.{
  ℕ, ◌+◌, ◌<◌, String, ◌≡◌, ◌≢◌, inl, inr, Bool, true, false, Option, none, some, arith, string_eq,
  subst, sym, ◌∙◌,
}
use text.Mathlib.TextPositions.{eq_refl}
use xyberos.Errors.{Result, ok}
use xyberos.Table.{find}
use xyberos.Durable.Rows.{ExecutionRow, LeaseRow, Claim, Journal, holds, lease_guard}
use xyberos.Durable.Store.Claims.{claim_next, lifetime, new_lease}
use xyberos.Durable.Store.Claiming.{IsKeyed, IsClaimed, claim_next-IsOldest}

-- A claim that was handed out holds its lease until it expires.
IsClaimed-guarded :
    (now expires : ℕ) (owner i : String) (row : ExecutionRow) (c : Claim) (j k : Journal) (t : ℕ)
    → IsClaimed now expires owner i row c j k
    → t < expires
    → lease_guard c t k ≡ true
unfolding lease_guard
IsClaimed-guarded now expires owner i row c j k t made live =
    rw (made.execution, made.lease) (ground (arith, made.holder, made.fence, live, eq_refl owner))

-- The lease that a claim held, and the one that replaces it
fence-passed :
    (d : Claim) (t u now expires : ℕ) (owner : String) (last : Option LeaseRow)
    → holds d t last ≡ true
    → holds d u (some (new_lease owner now expires last)) ≡ false
fence-passed d t u now expires owner none held = cc
fence-passed d t u now expires owner (some l) held = ground arith

-- The owner before it holds nothing any more.
IsClaimed-fenced :
    (now expires : ℕ) (owner i : String) (row : ExecutionRow) (c : Claim) (j k : Journal)
    (d : Claim) (t u : ℕ)
    → IsClaimed now expires owner i row c j k
    → d.execution_id ≡ i
    → lease_guard d t j ≡ true
    → lease_guard d u k ≡ false
unfolding lease_guard
IsClaimed-fenced now expires owner i row c j k d t u made same held =
    rw (same, made.lease)
      (fence-passed d t u now expires owner (find i j.leases)
        (subst (λ x. holds d t (find x j.leases) ≡ true) same held))

nothing_claimed :
    {c : Claim} {j k : Journal}
    → ◌≢◌ {A = Result (Option Claim × Journal)} (ok (none, j)) (ok (some c, k))
nothing_claimed e = cc

same_claim :
    {c d : Claim} {j k : Journal}
    → ◌≡◌ {A = Result (Option Claim × Journal)} (ok (some d, j)) (ok (some c, k))
    → (d ≡ c) × (j ≡ k)
same_claim e = (cc, cc)

module _ (blank : String → Bool) (lease_ttl : ℕ) (owner : String) (ttl : Option ℕ) (now : ℕ)
    (j : Journal) (c : Claim) (k : Journal) where
  -- In a journal whose execution rows have different keys: a claim that a worker with a name is
  -- given holds the lease until the lifetime that it asked for is over, and any claim of the same
  -- execution that held the lease before, at whatever clock reading, holds it at no clock reading
  -- any more.
  pub claim_next-exclusive :
      IsKeyed j
      → blank owner ≡ false
      → claim_next blank lease_ttl owner ttl now j ≡ ok (some c, k)
      → ((t : ℕ) → t < now + lifetime lease_ttl ttl → lease_guard c t k ≡ true)
        × ((d : Claim) (t u : ℕ)
            → d.execution_id ≡ c.execution_id
            → lease_guard d t j ≡ true
            → lease_guard d u k ≡ false)
  claim_next-exclusive keyed named_owner e =
      elim (claim_next-IsOldest blank lease_ttl owner ttl now j keyed named_owner) [
        | inl (nothing, rest) ↦ absurd (nothing_claimed (sym nothing ∙ e))
        | inr (i, row, d, l, f, best, made) ↦
            let (one, two) = same_claim (sym f ∙ e) in
            let made' : IsClaimed now (now + lifetime lease_ttl ttl) owner i row c j k =
              rw (sym one, sym two) made in
            (
              λ t live. IsClaimed-guarded now _ owner i row c j k t made' live,
              λ d t u same held.
                  IsClaimed-fenced now _ owner i row c j k d t u made' (same ∙ made'.execution)
                    held,
            )
      ]
