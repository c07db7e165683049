-- ===== src/Durable/Txn/Blocked.antt =====
-- Transactions that cannot return: `Blocked P m` says that `m` raises in every journal of which `P`
-- holds. A part that cannot return blocks the whole.
use xyberos.Prelude.{◌≡◌, refl, Bool, true, false, if◌then◌else◌}
use xyberos.Errors.{Result, ok, err}
use xyberos.Durable.Rows.{Journal}
use xyberos.Durable.Txn.{Txn, ◌>>=◌, commit, settle}
use xyberos.Durable.Txn.Ensures.{Ensures, IsPreorder, >>=-eq-ok}

pub record Blocked {A : Type 0} (P : Journal → Type 0) (m : Txn A) : Type 0 where
  pub at : (j : Journal) (a : A) (k : Journal) → P j → m j ≡ ok (a, k) → ⊥

-- `P` is kept where a transaction returns.
abbrev pub Keeping : (Journal → Type 0) → Journal → Journal → Type 0
Keeping P j k = P j → P k

pub Keeping-preorder : (P : Journal → Type 0) → IsPreorder (Keeping P)
Keeping-preorder P = record { reflexive = λ j p. p; transitive = λ j k l f g p. g (f p) }

module _ {A B : Type 0} {P : Journal → Type 0} where
  pub Blocked-first : (m : Txn A) (f : A → Txn B) → Blocked P m → Blocked P (m >>= f)
  Blocked-first m f h = record {
    at = λ j b l p e. let (a, k, first, rest) = >>=-eq-ok m f j e in h.at j a k p first;
  }

  pub Blocked-then :
      (m : Txn A) (f : A → Txn B)
      → Ensures (Keeping P) m
      → ((a : A) → Blocked P (f a))
      → Blocked P (m >>= f)
  Blocked-then m f g h = record {
    at = λ j b l p e.
        let (a, k, first, rest) = >>=-eq-ok m f j e in (h a).at k b l (g.at j first p) rest;
  }

module _ {A : Type 0} {P : Journal → Type 0} where
  pub Blocked-if :
      (b : Bool) (m n : Txn A) → Blocked P m → Blocked P n → Blocked P (if b then m else n)
  Blocked-if true m n h g = h
  Blocked-if false m n h g = g

settle_err :
    {A : Type 0} (j : Journal) (r : Result (A × Journal))
    → ((a : A) (k : Journal) → r ≡ ok (a, k) → ⊥)
    → (settle j r).1 ≡ j
settle_err j (ok (a, k)) h = absurd (h a k refl)
settle_err j (err e) h = refl

-- A transaction that raises leaves the journal as it was.
pub Blocked-commit :
    {A : Type 0} (P : Journal → Type 0) (m : Txn A) (j : Journal)
    → Blocked P m
    → P j
    → (commit m j).1 ≡ j
unfolding commit
Blocked-commit P m j h p = settle_err j (m j) (λ a k e. h.at j a k p e)
