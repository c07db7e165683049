-- ===== src/Durable/Txn/Ensures.antt =====
-- Proof rules for transactions: `Ensures R m` says that where `m` returns, the journal it leaves is
-- related by `R` to the journal it found. One rule for each way to build a transaction.
use xyberos.Table.{find}
use xyberos.Prelude.{
  String, subst, string_eq, pair_eq, ◌≡◌, Bool, true, false, Option, none, some, if◌then◌else◌,
  refl,
}
use xyberos.Errors.{durable_state, Error, Result, ok, err}
use xyberos.Durable.Rows.{Journal}
use xyberos.Durable.Txn.{Txn, pure, raise, lift, read, or_raise, ◌>>=◌, execution_row, step_row}

pub record Ensures {A : Type 0} (R : Journal → Journal → Type 0) (m : Txn A) : Type 0 where
  pub at : (j : Journal) {a : A} {j' : Journal} → m j ≡ ok (a, j') → R j j'

-- A transaction that returns has returned from its first part.
pub >>=-eq-ok :
    {A B : Type 0} (m : Txn A) (f : A → Txn B) (j : Journal) {b : B} {j' : Journal}
    → (m >>= f) j ≡ ok (b, j')
    → (a : A) × (k : Journal) × (m j ≡ ok (a, k)) × (f a k ≡ ok (b, j'))
>>=-eq-ok {A} {B} m f j {b} {j'} h = split (m j) refl h
  where
    split :
        (r : Result (A × Journal))
        → m j ≡ r
        → (elim r [ err e ↦ err e | ok (a, k) ↦ f a k ]) ≡ ok (b, j')
        → (a : A) × (k : Journal) × (m j ≡ ok (a, k)) × (f a k ≡ ok (b, j'))
    split (ok (a, k)) e h' = (a, k, e, h')
    split (err x) e h' = cc

pub ok-journal :
    {A : Type 0} {a b : A} {j k : Journal}
    → ◌≡◌ {A = Result (A × Journal)} (ok (a, j)) (ok (b, k))
    → j ≡ k
ok-journal e = cc

-- What the rules need of a relation.
pub record IsPreorder (R : Journal → Journal → Type 0) : Type 0 where
  pub reflexive : (j : Journal) → R j j
  pub transitive : (j k l : Journal) → R j k → R k l → R j l

module _ {A : Type 0} {R : Journal → Journal → Type 0} (p : IsPreorder R) where
  pub Ensures-pure : (a : A) → Ensures R (pure a)
  Ensures-pure a = record { at = λ j e. subst (R j) (ok-journal e) (p.reflexive j) }

  pub Ensures-raise : (e : Error) → Ensures R (raise {A = A} e)
  Ensures-raise e = record { at = λ j h. cc }

  pub Ensures-lift : (r : Result A) → Ensures R (lift r)
  Ensures-lift (ok a) = Ensures-pure a
  Ensures-lift (err e) = Ensures-raise e

  pub Ensures-read : (f : Journal → A) → Ensures R (read f)
  Ensures-read f = record { at = λ j e. subst (R j) (ok-journal e) (p.reflexive j) }

  pub Ensures-or_raise : (o : Option A) (e : Error) → Ensures R (or_raise o e)
  Ensures-or_raise none e = Ensures-raise e
  Ensures-or_raise (some a) e = Ensures-pure a

  pub Ensures-if :
      (b : Bool) (m n : Txn A) → Ensures R m → Ensures R n → Ensures R (if b then m else n)
  Ensures-if true m n hm hn = hm
  Ensures-if false m n hm hn = hn

module _ {R : Journal → Journal → Type 0} (p : IsPreorder R) where
  pub Ensures-execution_row : (k : String) → Ensures R (execution_row k)
  unfolding execution_row
  Ensures-execution_row k = record {
    at = λ j e. (Ensures-or_raise p (find k j.executions) durable_state).at j e;
  }

  pub Ensures-step_row : (k s : String) → Ensures R (step_row k s)
  unfolding step_row
  Ensures-step_row k s = record {
    at = λ j e. (Ensures-or_raise p (find (k, s) j.steps) durable_state).at j e;
  }

module _ {A B : Type 0} {R : Journal → Journal → Type 0} (p : IsPreorder R) where
  pub Ensures-bind :
      (m : Txn A) (f : A → Txn B) → Ensures R m → ((a : A) → Ensures R (f a)) → Ensures R (m >>= f)
  Ensures-bind m f hm hf = record {
    at = λ j h.
        let (a, k, first, rest) = >>=-eq-ok m f j h in
        p.transitive j k _ (hm.at j first) ((hf a).at k rest);
  }

  -- After a check that may raise, the rest may use that it passed.
  pub Ensures-bind-lift :
      (r : Result A) (f : A → Txn B)
      → ((a : A) → r ≡ ok a → Ensures R (f a))
      → Ensures R (lift r >>= f)
  Ensures-bind-lift (ok a) f h = record { at = (h a refl).at }
  Ensures-bind-lift (err e) f h = record { at = λ j x. cc }

pub ruleset ensures_rules = (
  Ensures-pure, Ensures-raise, Ensures-lift, Ensures-read, Ensures-or_raise, Ensures-if,
  Ensures-execution_row, Ensures-step_row, Ensures-bind,
)
