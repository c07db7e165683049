-- ===== src/Durable/Work/Reached.antt =====
-- What a worker does leads from one journal to another by a history of calls: `Runs Q m` says so, and
-- that `Q` relates what `m` returns to the journals before and after.
use xyberos.Prelude.{
  ℕ, String, ◌≡◌, refl, sym, ap, ◌∙◌, Bool, List, [], ◌∷◌, ◌++◌, string_eq, pair_eq, some,
}
use xyberos.Errors.{Result, ok, err}
use xyberos.Table.{find}
use xyberos.Durable.Models.{ExecutionStatus}
use xyberos.Durable.Rows.{ExecutionRow, Journal}
use xyberos.Durable.Txn.{Txn, commit, settle}
use xyberos.Durable.Store.Writes.{Payloads}
use xyberos.Durable.Store.History.{Call, perform, replay}
use xyberos.Durable.Work.{World, Work}

module _ {V : Type 0} (payloads : Payloads V) (blank : String → Bool) (lease_ttl : ℕ) where
  -- Some history of calls leads from one journal to the other.
  pub record Reached (j k : Journal) : Type 0 where
    pub calls : List (Call V × ℕ)
    pub led : k ≡ replay payloads blank lease_ttl calls j

  -- At some moment between two journals the execution had that status.
  pub record Moment (i : String) (s : ExecutionStatus) (j l : Journal) : Type 0 where
    pub then_was : Journal
    pub before : Reached j then_was
    pub row : ExecutionRow
    pub found : find i then_was.executions ≡ some row
    pub had : row.status ≡ s
    pub after : Reached then_was l

  abbrev pub Post :
      {A : Type 0} → (A → Journal → Journal → Type 0) → Journal → Result A × World → Type 0
  Post Q j (ok a, w) = Reached j w.journal × Q a j w.journal
  Post Q j (err e, w) = Reached j w.journal

  pub record Runs {A : Type 0} (Q : A → Journal → Journal → Type 0) (m : Work A) : Type 0 where
    pub at : (w : World) → Post Q w.journal (m w)

  replay-append :
      (before after : List (Call V × ℕ)) (j : Journal)
      → replay payloads blank lease_ttl (before ++ after) j
        ≡ replay payloads blank lease_ttl after (replay payloads blank lease_ttl before j)
  unfolding replay
  replay-append [] after j = refl
  replay-append ((call, now) ∷ before) after j =
      replay-append before after (perform payloads blank lease_ttl call now j)

  -- A transaction that is one call
  pub record IsCall {A : Type 0} (op : ℕ → ℕ → Txn A) : Type 0 where
    pub call : ℕ → ℕ → Call V
    pub performed :
        (now later : ℕ) (j : Journal)
        → (commit (op now later) j).1 ≡ perform payloads blank lease_ttl (call now later) now j

module _ {V : Type 0} {payloads : Payloads V} {blank : String → Bool} {lease_ttl : ℕ} where
  pub Reached-refl : (j : Journal) → Reached payloads blank lease_ttl j j
  unfolding replay
  Reached-refl j = record { calls = []; led = refl }

  pub Reached-trans :
      (j k l : Journal)
      → Reached payloads blank lease_ttl j k
      → Reached payloads blank lease_ttl k l
      → Reached payloads blank lease_ttl j l
  Reached-trans j k l a b = record {
    calls = a.calls ++ b.calls;
    led = cc (a.led, b.led, replay-append payloads blank lease_ttl a.calls b.calls j);
  }

  pub Reached-replay :
      (calls : List (Call V × ℕ)) (j : Journal)
      → Reached payloads blank lease_ttl j (replay payloads blank lease_ttl calls j)
  Reached-replay calls j = record { calls = calls; led = refl }

  pub Reached-perform :
      (call : Call V) (now : ℕ) (j : Journal)
      → Reached payloads blank lease_ttl j (perform payloads blank lease_ttl call now j)
  unfolding replay
  Reached-perform call now j = record { calls = (call, now) ∷ []; led = refl }

  pub Moment-extend :
      {i : String} {s : ExecutionStatus} (j k l : Journal)
      → Reached payloads blank lease_ttl j k
      → Moment payloads blank lease_ttl i s k l
      → Moment payloads blank lease_ttl i s j l
  Moment-extend j k l r m = record {
    then_was = m.then_was;
    before = Reached-trans j k m.then_was r m.before;
    row = m.row;
    found = m.found;
    had = m.had;
    after = m.after;
  }

  pub Moment-last :
      {i : String} {s : ExecutionStatus} (j k l : Journal)
      → Moment payloads blank lease_ttl i s j k
      → Reached payloads blank lease_ttl k l
      → Moment payloads blank lease_ttl i s j l
  Moment-last j k l m r = record {
    then_was = m.then_was;
    before = m.before;
    row = m.row;
    found = m.found;
    had = m.had;
    after = Reached-trans m.then_was k l m.after r;
  }

  pub Reached-by :
      (j : Journal) {k : Journal} (l : Journal)
      → Reached payloads blank lease_ttl j l
      → k ≡ l
      → Reached payloads blank lease_ttl j k
  Reached-by j l r e = record { calls = r.calls; led = e ∙ r.led }

  pub Reached-returned :
      {A : Type 0} (i j : Journal) (r : Result (A × Journal)) (a : A) (k : Journal)
      → r ≡ ok (a, k)
      → Reached payloads blank lease_ttl i (settle j r).1
      → Reached payloads blank lease_ttl i k
  Reached-returned i j r a k e led = Reached-by i _ led (sym (ap (λ x. (settle j x).1) e))
