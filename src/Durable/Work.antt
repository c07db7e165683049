-- ===== src/Durable/Work.antt =====
-- What a worker does to the journal: a sequence of calls of `JournalStore`, each in its own
-- transaction, with whatever anyone else does before each of them.
pub mod Reached
pub mod Rules
pub mod Calls
use xyberos.Prelude.{ℕ, ◌+◌, Option, none, some, List}
use xyberos.Errors.{Error, durable_version, Result, ok, err}
use xyberos.Durable.Rows.{Journal}
use xyberos.Durable.Txn.{Txn, commit}
use xyberos.Durable.Store.Writes.{Payloads}
use xyberos.Durable.Store.History.{Call, replay}
use xyberos.Prelude.{String, Bool}

-- Before a transaction: the calls of others since the last one, the heartbeat's renewals among them,
-- then the readings of this worker's clock
pub record Turn (V : Type 0) : Type 0 where
  pub others : List (Call V × ℕ)
  pub now : ℕ
  pub later : ℕ

pub record World : Type 0 where
  pub journal : Journal
  pub turn : ℕ

abbrev pub Work : Type 0 → Type 0
Work A = World → Result A × World

module _ {A : Type 0} where
  abbrev pub pure : A → Work A
  pure a w = (ok a, w)

  abbrev pub lift : Result A → Work A
  lift r w = (r, w)

-- What an earlier call returned is passed on; what it raised ends the work.
abbrev pub go_on : {A B : Type 0} → (A → Work B) → Result A × World → Result B × World
go_on f (ok a, w) = f a w
go_on f (err e, w) = (err e, w)

infixl 5 ◌>>=◌ ◌>>◌
abbrev pub ◌>>=◌ : {A B : Type 0} → Work A → (A → Work B) → Work B
◌>>=◌ m f w = go_on f (m w)

abbrev pub ◌>>◌ : {A B : Type 0} → Work A → Work B → Work B
m >> k = m >>= λ _. k

-- `except DurableVersionError: …`
abbrev pub version_handled : {A : Type 0} → Work A → Result A × World → Result A × World
version_handled handler (err durable_version, w) = handler w
version_handled handler (err e, w) = (err e, w)
version_handled handler (ok a, w) = (ok a, w)

abbrev pub except_version : {A : Type 0} → Work A → Work A → Work A
except_version m handler w = version_handled handler (m w)

module _ {V : Type 0} (payloads : Payloads V) (blank : String → Bool) (lease_ttl : ℕ)
    (schedule : ℕ → Turn V) where
  -- The journal that the next transaction finds
  abbrev pub meanwhile : World → Journal
  meanwhile w = replay payloads blank lease_ttl (schedule w.turn).others w.journal

  abbrev pub write : {A : Type 0} → (ℕ → ℕ → Txn A) → Work A
  write op w =
      let (result, j) = commit (op (schedule w.turn).now (schedule w.turn).later) (meanwhile w) in
      (result, record { journal = j; turn = w.turn + 1 })

  abbrev pub query : {A : Type 0} → (ℕ → Journal → Result A) → Work A
  query f w =
      (f (schedule w.turn).now (meanwhile w), record { journal = meanwhile w; turn = w.turn + 1 })

  -- A reading of the clock outside of a transaction
  abbrev pub clock : Work ℕ
  clock w = (ok (schedule w.turn).now, record w { turn = w.turn + 1 })
