-- ===== src/Durable/Store/Spent.antt =====
-- Operations of src/xyberos/durable/store.py that give the lease up: what the same claim may do next.
use xyberos.Prelude.{
  ℕ, ◌≤◌, String, ◌≡◌, false, Option, none, some, arith, string_eq, pair_eq, List, [], ◌∷◌, refl,
  Bool,
}
use text.Mathlib.TextPositions.{eq_refl}
use xyberos.Errors.{ok}
use xyberos.Table.{find-update}
use xyberos.Durable.Models.{ExecutionStatus, StepState, EventKind, same_state}
use xyberos.Durable.Rows.{Claim, Journal, StepRow, lease_guard}
use xyberos.Durable.Txn.{◌>>◌, lift, step_row, append_event, update_lease}
use xyberos.Durable.Txn.Ensures.{>>=-eq-ok}
use xyberos.Durable.Store.History.{Call, replay}
use xyberos.Durable.Store.Refusals.{IsLost}
use xyberos.Durable.Store.Fencing.{authority, last_reading, perform-IsLost}
use xyberos.Durable.Store.Writes.{
  Payloads, dump, release_owned_lease, set_step_state, set_execution_status,
}
use xyberos.Durable.Store.Steps.{no_step, record_resolution, resolve_step, optional}

-- The claim's own statements find no live lease: from now on their guard fails.
release-unguarded :
    (claim : Claim) (now later : ℕ) (j : Journal) {u : Unit {0}} {k : Journal}
    → now ≤ later
    → release_owned_lease claim now j ≡ ok (u, k)
    → lease_guard claim later k ≡ false
unfolding release_owned_lease update_lease lease_guard
release-unguarded claim now later j h e = ground (
  arith,
  eq_refl claim.execution_id,
  find-update claim.execution_id claim.execution_id (λ l. record l { expires_at = now }) j.leases,
)

leases-append_event :
    (i : String) (kind : EventKind) (now : ℕ) (s : Option String) (n : Option ℕ) (j : Journal)
    {u : Unit {0}} {k : Journal}
    → append_event i kind now s n j ≡ ok (u, k)
    → k.leases ≡ j.leases
unfolding append_event
leases-append_event i kind now s n j e = ground arith

-- The end that a yield and a resolution share
release_and_note-unguarded :
    (claim : Claim) (now later : ℕ) (kind : EventKind) (s : Option String) (j : Journal)
    {u : Unit {0}} {k : Journal}
    → now ≤ later
    → (release_owned_lease claim now >> append_event claim.execution_id kind now s none) j
      ≡ ok (u, k)
    → lease_guard claim later k ≡ false
unfolding lease_guard
release_and_note-unguarded claim now later kind s j h e =
    let (v, m, first, last) =
      >>=-eq-ok (release_owned_lease claim now)
        (λ v. append_event claim.execution_id kind now s none) j e in
    rw (leases-append_event claim.execution_id kind now s none m last)
      (unfold lease_guard in release-unguarded claim now later j h first)

pub journal-step_row :
    (i step_id : String) (j : Journal) {row : StepRow} {k : Journal}
    → step_row i step_id j ≡ ok (row, k)
    → k ≡ j
unfolding step_row
journal-step_row i step_id j e = ground arith

resolve_step-IsLost :
    {V : Type 0} (payloads : Payloads V) (claim : Claim) (step_id : String) (state : StepState)
    (output : V) (detail : Option String) (now later : ℕ) (j k : Journal) (u : Unit {0})
    → now ≤ later
    → resolve_step payloads claim step_id state output detail now j ≡ ok (u, k)
    → IsLost claim later k
unfolding resolve_step record_resolution
resolve_step-IsLost payloads claim step_id state output detail now later j k u h e =
    let (payload, a, e1, e2) =
      >>=-eq-ok (lift (optional (same_state state StepState.succeeded) (dump payloads output)))
        (λ payload. record_resolution claim step_id state payload detail now) j e in
    let (u1, b, e3, e4) =
      >>=-eq-ok
        (set_step_state claim step_id state now
          (λ s. record s { output = payload; finished_at = some now; state_detail = detail }) [])
        (λ v.
          set_execution_status claim ExecutionStatus.pending now no_step false
          >> (release_owned_lease claim now
              >> append_event claim.execution_id EventKind.recovered now (some step_id) none))
        a e2 in
    let (u2, c, e5, e6) =
      >>=-eq-ok (set_execution_status claim ExecutionStatus.pending now no_step false)
        (λ v.
          release_owned_lease claim now
          >> append_event claim.execution_id EventKind.recovered now (some step_id) none)
        b e4 in
    release_and_note-unguarded claim now later EventKind.recovered (some step_id) c h e6

-- Calls that the claim makes one after the other, at clock readings from `now` on
abbrev pub OwnCalls : {V : Type 0} → Claim → ℕ → List (Call V × ℕ) → Type 0
OwnCalls claim now [] = Unit {0}
OwnCalls claim now ((call, at) ∷ rest) =
    (authority call ≡ some claim)
    × (now ≤ at)
    × (now ≤ last_reading call at)
    × OwnCalls claim now rest

module _ {V : Type 0} (payloads : Payloads V) (blank : String → Bool) (lease_ttl : ℕ)
    (claim : Claim) (now : ℕ) where
  replay-OwnCalls :
      (calls : List (Call V × ℕ)) (k : Journal)
      → ((later : ℕ) → now ≤ later → IsLost claim later k)
      → OwnCalls claim now calls
      → replay payloads blank lease_ttl calls k ≡ k
  unfolding replay
  replay-OwnCalls [] k lost own = refl
  replay-OwnCalls ((call, at) ∷ rest) k lost (mine, first, last, more) =
      rw
        (perform-IsLost payloads blank lease_ttl call claim at k mine (lost at first)
          (lost (last_reading call at) last))
        (replay-OwnCalls rest k lost more)

  -- A resolution gives the lease up: whatever calls the same claim makes on the journal that the
  -- resolution left, one after the other, before any call of others and with clock readings no
  -- earlier than the resolution's, they change nothing: it starts no step, ends none, and does not
  -- renew the lease.
  pub resolve_step-spends_claim :
      (step_id : String) (state : StepState) (output : V) (detail : Option String) (j k : Journal)
      (u : Unit {0}) (calls : List (Call V × ℕ))
      → resolve_step payloads claim step_id state output detail now j ≡ ok (u, k)
      → OwnCalls claim now calls
      → replay payloads blank lease_ttl calls k ≡ k
  resolve_step-spends_claim step_id state output detail j k u calls e own =
      replay-OwnCalls calls k
        (λ later h.
          resolve_step-IsLost payloads claim step_id state output detail now later j k u h e)
        own
