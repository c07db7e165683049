-- ===== src/Errors.antt =====
-- src/xyberos/errors.py: the errors that the modelled code raises, without their messages.
-- A function that may raise returns a `Result`.
use xyberos.Prelude.{◌≡◌, Bool, true, false, arith}

-- The three messages that `_explain_refused_write` puts into a DurableLeaseError.
pub data LeaseProblem : Type 0 where
  missing taken expired : LeaseProblem

pub data Error : Type 0 where
  durable_state durable_conflict durable_version durable_payload : Error
  durable_lease : LeaseProblem → Error
  -- SQLAlchemy's IntegrityError: an INSERT met its primary key.
  integrity : Error
  workflow_validation : Error

pub data Result {ℓ} (A : Type ℓ) : Type ℓ where
  ok : A → Result A
  err : Error → Result A

-- What follows a call that raised is not run.
infixl 5 ◌>>=◌ ◌>>◌
abbrev pub ◌>>=◌ {κ ℓ} : {X : Type κ} {Y : Type ℓ} → Result X → (X → Result Y) → Result Y
err raised >>= next = err raised
ok value >>= next = next value

abbrev pub ◌>>◌ {ℓ} : {B : Type ℓ} → Result (Unit {0}) → Result B → Result B
m >> k = m >>= λ _. k

-- `if not test: raise error`
abbrev pub require : Bool → Error → Result (Unit {0})
require true e = ok tt
require false e = err e

pub require-eq-ok : (b : Bool) (e : Error) {u : Unit {0}} → require b e ≡ ok u → b ≡ true
require-eq-ok b e h = ground arith
