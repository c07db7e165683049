-- ===== src/Durable/Store/Fencing.antt =====
-- The lease guard of src/xyberos/durable/store.py: a worker whose fencing token was passed by a newer
-- claim writes nothing any more, whatever it calls and whenever.
use xyberos.Prelude.{ℕ, ◌<◌, String, ◌≡◌, Option, none, some, List, string_eq, arith, Bool}
use xyberos.Table.{find}
use xyberos.Durable.Rows.{LeaseRow, Claim, Journal, lease_guard}
use xyberos.Durable.Txn.{Txn, commit}
use xyberos.Durable.Txn.Blocked.{Blocked, Blocked-commit}
use xyberos.Durable.Store.History
use xyberos.Durable.Store.History.{Call, perform, replay}
use xyberos.Durable.Store.History.Evolution.{lease-fence}
use xyberos.Durable.Store.Writes.{Payloads}
use xyberos.Durable.Store.Refusals.{
  IsLost, IsLostTwice, Blocked-renew_lease, Blocked-release_lease, Blocked-start_step,
  Blocked-complete_step, Blocked-yield_execution, Blocked-skip_step, Blocked-fail_step,
  Blocked-mark_step_outcome_unknown, Blocked-resolve_step, Blocked-complete_execution,
  Blocked-fail_execution, Blocked-time_out_execution, Blocked-acknowledge_cancellation,
  Blocked-mark_waiting,
}

-- The claim by whose authority a call writes; submitters, operators and new claims have none.
unfoldable pub authority : {V : Type 0} → Call V → Option Claim
authority (History.renews c ttl) = some c
authority (History.releases c) = some c
authority (History.starts c s key) = some c
authority (History.completes_step c s v) = some c
authority (History.yields c) = some c
authority (History.skips c s r) = some c
authority (History.fails_step c s e m at r later) = some c
authority (History.doubts c s r) = some c
authority (History.resolves c s t v d) = some c
authority (History.completes c v) = some c
authority (History.fails c k) = some c
authority (History.times_out c) = some c
authority (History.acknowledges c r) = some c
authority (History.parks c) = some c
authority _ = none

-- The last reading of the clock that a call takes: `fail_step` may read it twice.
unfoldable pub last_reading : {V : Type 0} → Call V → ℕ → ℕ
last_reading (History.fails_step c s e m at r later) now = later
last_reading _ now = now

refused :
    {A : Type 0} {c claim : Claim} {j : Journal} (now : ℕ) (m : Txn A)
    → Blocked (IsLost c now) m
    → ◌≡◌ {A = Option Claim} (some c) (some claim)
    → IsLost claim now j
    → (commit m j).1 ≡ j
refused {A} {c} {claim} {j} now m blocked e lost =
    let same : claim ≡ c = cc in Blocked-commit (IsLost c now) m j blocked (rw same at lost)

refused_twice :
    {A : Type 0} {c claim : Claim} {j : Journal} (now later : ℕ) (m : Txn A)
    → Blocked (IsLostTwice c now later) m
    → ◌≡◌ {A = Option Claim} (some c) (some claim)
    → IsLostTwice claim now later j
    → (commit m j).1 ≡ j
refused_twice {A} {c} {claim} {j} now later m blocked e lost =
    let same : claim ≡ c = cc in
    Blocked-commit (IsLostTwice c now later) m j blocked (rw same at lost)

-- A newer claim of the execution was made.
abbrev IsStale : Claim → Journal → Type 0
IsStale claim j =
    (l : LeaseRow) × (find claim.execution_id j.leases ≡ some l) × (claim.fence < l.fence)

lease_guard-IsStale : (claim : Claim) (now : ℕ) (j : Journal) → IsStale claim j → IsLost claim now j
unfolding lease_guard
lease_guard-IsStale claim now j (l, found, newer) = ground arith

module _ {V : Type 0} (payloads : Payloads V) (blank : String → Bool) (lease_ttl : ℕ) where
  -- A call under a claim that holds no live lease, when the call reads the clock, changes nothing.
  pub perform-IsLost :
      (call : Call V) (claim : Claim) (now : ℕ) (j : Journal)
      → authority call ≡ some claim
      → IsLost claim now j
      → IsLost claim (last_reading call now) j
      → perform payloads blank lease_ttl call now j ≡ j
  unfolding perform authority last_reading
  perform-IsLost (History.renews c ttl) claim now j a lost twice =
      refused now _ (Blocked-renew_lease c now lease_ttl ttl) a lost
  perform-IsLost (History.releases c) claim now j a lost twice =
      refused now _ (Blocked-release_lease c now) a lost
  perform-IsLost (History.starts c s key) claim now j a lost twice =
      refused now _ (Blocked-start_step c now s key) a lost
  perform-IsLost (History.completes_step c s v) claim now j a lost twice =
      refused now _ (Blocked-complete_step c now payloads s v) a lost
  perform-IsLost (History.yields c) claim now j a lost twice =
      refused now _ (Blocked-yield_execution c now) a lost
  perform-IsLost (History.skips c s r) claim now j a lost twice =
      refused now _ (Blocked-skip_step c now s r) a lost
  perform-IsLost (History.fails_step c s x m at r later) claim now j a lost twice =
      refused_twice now later _ (Blocked-fail_step c s x m at r now later) a (lost, twice)
  perform-IsLost (History.doubts c s r) claim now j a lost twice =
      refused now _ (Blocked-mark_step_outcome_unknown c now s r) a lost
  perform-IsLost (History.resolves c s t v d) claim now j a lost twice =
      refused now _ (Blocked-resolve_step c now payloads s t v d) a lost
  perform-IsLost (History.completes c v) claim now j a lost twice =
      refused now _ (Blocked-complete_execution c now payloads v) a lost
  perform-IsLost (History.fails c k) claim now j a lost twice =
      refused now _ (Blocked-fail_execution c now k) a lost
  perform-IsLost (History.times_out c) claim now j a lost twice =
      refused now _ (Blocked-time_out_execution c now) a lost
  perform-IsLost (History.acknowledges c r) claim now j a lost twice =
      refused now _ (Blocked-acknowledge_cancellation c r now) a lost
  perform-IsLost (History.parks c) claim now j a lost twice =
      refused now _ (Blocked-mark_waiting c now) a lost
  perform-IsLost _ claim now j a lost twice = cc

  -- Once a newer claim of its execution was made, a claim never writes again: after any history of
  -- calls by anyone, each call under the old claim leaves the journal exactly as it found it.
  pub stale_claim-writes_nothing :
      (calls : List (Call V × ℕ)) (j : Journal) (call : Call V) (claim : Claim) (lease : LeaseRow)
      (now : ℕ)
      → authority call ≡ some claim
      → find claim.execution_id j.leases ≡ some lease
      → claim.fence < lease.fence
      → perform payloads blank lease_ttl call now (replay payloads blank lease_ttl calls j)
        ≡ replay payloads blank lease_ttl calls j
  stale_claim-writes_nothing calls j call claim lease now a found newer =
      let (later, e, grown, owner) =
        lease-fence payloads blank lease_ttl calls j claim.execution_id lease found in
      let stale : IsStale claim (replay payloads blank lease_ttl calls j) =
        (later, e, omega (arith, newer, grown)) in
      perform-IsLost call claim now _ a (lease_guard-IsStale claim now _ stale)
        (lease_guard-IsStale claim (last_reading call now) _ stale)
