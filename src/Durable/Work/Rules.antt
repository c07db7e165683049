-- ===== src/Durable/Work/Rules.antt =====
-- One proof rule for each way to build the work of a worker.
use xyberos.Prelude.{
  ℕ, String, ◌≡◌, refl, ◌+◌, if◌then◌else◌, Bool, true, false, string_eq, pair_eq,
}
use xyberos.Errors.{
  durable_state, durable_conflict, durable_version, durable_payload, durable_lease, integrity,
  workflow_validation, Result, ok, err,
}
use xyberos.Durable.Rows.{Journal}
use xyberos.Durable.Txn.{Txn, commit, settle}
use xyberos.Durable.Store.Writes.{Payloads}
use xyberos.Durable.Work.{
  Turn, World, Work, pure, lift, ◌>>=◌, go_on, version_handled, except_version, write, query, clock,
  meanwhile,
}
use xyberos.Durable.Work.Reached.{
  Reached, Post, Runs, IsCall, Reached-refl, Reached-trans, Reached-replay, Reached-perform,
  Reached-by, Reached-returned,
}

module _ {V : Type 0} {payloads : Payloads V} {blank : String → Bool} {lease_ttl : ℕ} where
  module _ {A : Type 0} where
    pub Post-extend :
        (S Q : A → Journal → Journal → Type 0) (j k : Journal) (r : Result A × World)
        → Reached payloads blank lease_ttl j k
        → ((a : A) (l : Journal) → Reached payloads blank lease_ttl k l → S a k l → Q a j l)
        → Post payloads blank lease_ttl S k r
        → Post payloads blank lease_ttl Q j r
    Post-extend S Q j k (ok a, w) before weaken (reached, s) =
        (Reached-trans j k w.journal before reached, weaken a w.journal reached s)
    Post-extend S Q j k (err e, w) before weaken reached =
        Reached-trans j k w.journal before reached

    pub Runs-weaken :
        {S Q : A → Journal → Journal → Type 0} (m : Work A)
        → Runs payloads blank lease_ttl S m
        → ((a : A) (j l : Journal) → Reached payloads blank lease_ttl j l → S a j l → Q a j l)
        → Runs payloads blank lease_ttl Q m
    Runs-weaken {S} {Q} m hm weaken = record {
      at = λ w.
          Post-extend S Q w.journal w.journal (m w) (Reached-refl w.journal)
            (λ a l. weaken a w.journal l) (hm.at w);
    }

    pub Runs-pure :
        {Q : A → Journal → Journal → Type 0} (a : A)
        → ((j : Journal) → Q a j j)
        → Runs payloads blank lease_ttl Q (pure a)
    Runs-pure a q = record { at = λ w. (Reached-refl w.journal, q w.journal) }

    pub Runs-lift :
        {Q : A → Journal → Journal → Type 0} (r : Result A)
        → ((a : A) (j : Journal) → r ≡ ok a → Q a j j)
        → Runs payloads blank lease_ttl Q (lift r)
    Runs-lift (ok a) q = record { at = λ w. (Reached-refl w.journal, q a w.journal refl) }
    Runs-lift (err e) q = record { at = λ w. Reached-refl w.journal }

    pub Runs-if :
        {Q : A → Journal → Journal → Type 0} (b : Bool) (m n : Work A)
        → (b ≡ true → Runs payloads blank lease_ttl Q m)
        → (b ≡ false → Runs payloads blank lease_ttl Q n)
        → Runs payloads blank lease_ttl Q (if b then m else n)
    Runs-if true m n hm hn = hm refl
    Runs-if false m n hm hn = hn refl

  module _ {A B : Type 0} {P : A → Journal → Journal → Type 0}
      {Q : B → Journal → Journal → Type 0} where
    go_on-Post :
        (S : A → B → Journal → Journal → Type 0) (f : A → Work B) (j : Journal)
        (r : Result A × World)
        → ((a : A) → Runs payloads blank lease_ttl (S a) (f a))
        → ((a : A) (b : B) (j k l : Journal)
            → Reached payloads blank lease_ttl j k
            → P a j k
            → Reached payloads blank lease_ttl k l
            → S a b k l
            → Q b j l)
        → Post payloads blank lease_ttl P j r
        → Post payloads blank lease_ttl Q j (go_on f r)
    go_on-Post S f j (ok a, w) hf combine (reached, p) =
        Post-extend (S a) Q j w.journal (f a w) reached
          (λ b l onwards s. combine a b j w.journal l reached p onwards s) ((hf a).at w)
    go_on-Post S f j (err e, w) hf combine reached = reached

    pub Runs-bind :
        (S : A → B → Journal → Journal → Type 0) (m : Work A) (f : A → Work B)
        → Runs payloads blank lease_ttl P m
        → ((a : A) → Runs payloads blank lease_ttl (S a) (f a))
        → ((a : A) (b : B) (j k l : Journal)
            → Reached payloads blank lease_ttl j k
            → P a j k
            → Reached payloads blank lease_ttl k l
            → S a b k l
            → Q b j l)
        → Runs payloads blank lease_ttl Q (m >>= f)
    Runs-bind S m f hm hf combine = record {
      at = λ w. go_on-Post S f w.journal (m w) hf combine (hm.at w);
    }

  version_handled-Post :
      {A : Type 0} (Q : A → Journal → Journal → Type 0) (handler : Work A) (j : Journal)
      (r : Result A × World)
      → Runs payloads blank lease_ttl Q handler
      → ((a : A) (j k l : Journal) → Reached payloads blank lease_ttl j k → Q a k l → Q a j l)
      → Post payloads blank lease_ttl Q j r
      → Post payloads blank lease_ttl Q j (version_handled handler r)
  version_handled-Post Q handler j (ok a, w) hh extend p = p
  version_handled-Post Q handler j (err durable_version, w) hh extend reached =
      Post-extend Q Q j w.journal (handler w) reached
        (λ a l onwards q. extend a j w.journal l reached q) (hh.at w)
  version_handled-Post Q handler j (err durable_state, w) hh extend reached = reached
  version_handled-Post Q handler j (err durable_conflict, w) hh extend reached = reached
  version_handled-Post Q handler j (err durable_payload, w) hh extend reached = reached
  version_handled-Post Q handler j (err (durable_lease problem), w) hh extend reached = reached
  version_handled-Post Q handler j (err integrity, w) hh extend reached = reached
  version_handled-Post Q handler j (err workflow_validation, w) hh extend reached = reached

  pub Runs-except_version :
      {A : Type 0} {Q : A → Journal → Journal → Type 0} (m handler : Work A)
      → Runs payloads blank lease_ttl Q m
      → Runs payloads blank lease_ttl Q handler
      → ((a : A) (j k l : Journal) → Reached payloads blank lease_ttl j k → Q a k l → Q a j l)
      → Runs payloads blank lease_ttl Q (except_version m handler)
  Runs-except_version {A} {Q} m handler hm hh extend = record {
    at = λ w. version_handled-Post Q handler w.journal (m w) hh extend (hm.at w);
  }

  module _ (schedule : ℕ → Turn V) {A : Type 0} where
    settled-Post :
        (P : A → Journal → Journal → Type 0) (i j : Journal) (turn : ℕ) (r : Result (A × Journal))
        → Reached payloads blank lease_ttl i j
        → Reached payloads blank lease_ttl i (settle j r).1
        → ((a : A) (k : Journal) → r ≡ ok (a, k) → P a i k)
        → Post payloads blank lease_ttl P i
            ((settle j r).0, record { journal = (settle j r).1; turn = turn })
    settled-Post P i j turn (ok (a, k)) before led fact = (led, fact a k refl)
    settled-Post P i j turn (err e) before led fact = led

    pub Runs-write :
        {P : A → Journal → Journal → Type 0} (op : ℕ → ℕ → Txn A)
        → IsCall payloads blank lease_ttl op
        → ((now later : ℕ) (i j : Journal) (a : A) (k : Journal)
            → op now later j ≡ ok (a, k)
            → Reached payloads blank lease_ttl i k
            → P a i k)
        → Runs payloads blank lease_ttl P (write payloads blank lease_ttl schedule op)
    unfolding commit
    Runs-write {P} op one fact = record {
      at = λ w.
          let turn = schedule w.turn in
          let j = meanwhile payloads blank lease_ttl schedule w in
          let before = Reached-replay turn.others w.journal in
          let led = Reached-trans w.journal j _ before (
            Reached-by j _ (Reached-perform (one.call turn.now turn.later) turn.now j)
              (one.performed turn.now turn.later j)) in
          settled-Post P w.journal j (w.turn + 1) (op turn.now turn.later j) before led (λ a k e.
            fact turn.now turn.later w.journal j a k e
              (Reached-returned w.journal j (op turn.now turn.later j) a k e led));
    }

    answered-Post :
        (P : A → Journal → Journal → Type 0) (i j : Journal) (turn : ℕ) (r : Result A)
        → Reached payloads blank lease_ttl i j
        → ((a : A) → r ≡ ok a → P a i j)
        → Post payloads blank lease_ttl P i (r, record { journal = j; turn = turn })
    answered-Post P i j turn (ok a) led fact = (led, fact a refl)
    answered-Post P i j turn (err e) led fact = led

    pub Runs-query :
        {P : A → Journal → Journal → Type 0} (f : ℕ → Journal → Result A)
        → ((now : ℕ) (i j : Journal) (a : A)
            → Reached payloads blank lease_ttl i j
            → f now j ≡ ok a
            → P a i j)
        → Runs payloads blank lease_ttl P (query payloads blank lease_ttl schedule f)
    Runs-query {P} f fact = record {
      at = λ w.
          let turn = schedule w.turn in
          let j = meanwhile payloads blank lease_ttl schedule w in
          let led = Reached-replay turn.others w.journal in
          answered-Post P w.journal j (w.turn + 1) (f turn.now j) led
            (λ a e. fact turn.now w.journal j a led e);
    }

  pub Runs-clock :
      (schedule : ℕ → Turn V)
      → Runs payloads blank lease_ttl
          (λ now j k. Unit {0})
          (clock payloads blank lease_ttl schedule)
  Runs-clock schedule = record { at = λ w. (Reached-refl w.journal, tt) }
