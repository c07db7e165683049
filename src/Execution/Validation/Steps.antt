-- ===== src/Execution/Validation/Steps.antt =====
-- What a definition satisfies whose steps `_validate_steps` of src/xyberos/execution/validation.py let
-- pass.
use xyberos.Prelude.{
  ℕ, ◌<◌, String, ◌≡◌, ◌≢◌, inl, inr, Bool, true, false, Option, some, List, [], ◌∷◌, ◌++◌, arith,
  sym, subst, string_eq,
}
use mathlib.Core.List.{Memᴰ}
use mathlib.Core.List.Memᴰ
use xyberos.Errors.{ok}
use xyberos.Execution.Models.{Step, Workflow, contains, is_empty}
use xyberos.Execution.Validation.{positive, check_step, check_steps, validate_steps}

module _ (blank : String → Bool) where
  record Passed (seen : List String) (s : Step) : Type 0 where
    named : blank s.id ≡ false
    fresh : contains s.id seen ≡ false
    timely : positive s.timeout ≡ true

  check_steps-cons :
      (seen : List String) (s : Step) (ss : List Step)
      → check_steps blank seen (s ∷ ss) ≡ ok tt
      → Passed seen s × (check_steps blank (s.id ∷ seen) ss ≡ ok tt)
  unfolding check_steps check_step
  check_steps-cons seen s ss h =
      (record { named = ground arith; fresh = ground arith; timely = ground arith }, ground arith)

  Passed-weaken : (seen : List String) (r s : Step) → Passed (r.id ∷ seen) s → Passed seen s
  Passed-weaken seen r s p = record {
    named = p.named;
    fresh = ground (arith, p.fresh);
    timely = p.timely;
  }

  check_steps-Passed :
      (seen : List String) (ss : List Step) (s : Step)
      → check_steps blank seen ss ≡ ok tt
      → Memᴰ s ss
      → Passed seen s
  check_steps-Passed seen [] s h m = absurd (Memᴰ.not-nil m)
  check_steps-Passed seen (r ∷ ss) s h m =
      let (here, rest) = check_steps-cons seen r ss h in
      elim (Memᴰ.cases_cons m) [
        | inl same ↦ subst (Passed seen) (sym same) here
        | inr below ↦ Passed-weaken seen r s (check_steps-Passed (r.id ∷ seen) ss s rest below)
      ]

  check_steps-apart :
      (seen : List String) (xs : List Step) (s : Step) (ys : List Step) (t : Step)
      → check_steps blank seen (xs ++ s ∷ ys) ≡ ok tt
      → Memᴰ t ys
      → s.id ≢ t.id
  check_steps-apart seen [] s ys t h m =
      let (here, rest) = check_steps-cons seen s ys h in
      let p = check_steps-Passed (s.id ∷ seen) ys t rest m in
      λ q. ground (arith, string_eq.beq_iff s.id t.id, p.fresh)
  check_steps-apart seen (x ∷ xs) s ys t h m =
      let (here, rest) = check_steps-cons seen x (xs ++ s ∷ ys) h in
      check_steps-apart (x.id ∷ seen) xs s ys t rest m

-- What the steps of a definition are: there is one, none has a blank id or a timeout of zero, and no
-- two have the same id.
pub record IsDeclared {V : Type 0} (blank : String → Bool) (w : Workflow V) : Type 0 where
  pub some_step : is_empty w.steps ≡ false
  pub named : (s : Step) → Memᴰ s w.steps → blank s.id ≡ false
  pub timely : (s : Step) (timeout : ℕ) → Memᴰ s w.steps → s.timeout ≡ some timeout → 0 < timeout
  pub distinct : (xs ys : List Step) (s t : Step) → w.steps ≡ xs ++ s ∷ ys → Memᴰ t ys → s.id ≢ t.id

validate_steps-eq-ok :
    {V : Type 0} (blank : String → Bool) (w : Workflow V)
    → validate_steps blank w ≡ ok tt
    → (is_empty w.steps ≡ false) × (check_steps blank [] w.steps ≡ ok tt)
unfolding validate_steps
validate_steps-eq-ok blank w h = ground arith

positive-lt : (o : Option ℕ) (timeout : ℕ) → positive o ≡ true → o ≡ some timeout → 0 < timeout
positive-lt o timeout p q = ground arith

-- A definition whose steps pass the validation declares at least one step, none with a blank id or a
-- timeout that is zero, and no id twice.
pub validate_steps-IsDeclared :
    {V : Type 0} (blank : String → Bool) (w : Workflow V)
    → validate_steps blank w ≡ ok tt
    → IsDeclared blank w
validate_steps-IsDeclared blank w h =
    let (nonempty, passed) = validate_steps-eq-ok blank w h in
    record {
      some_step = nonempty;
      named = λ s m. (check_steps-Passed blank [] w.steps s passed m).named;
      timely = λ s timeout m q.
          positive-lt s.timeout timeout (check_steps-Passed blank [] w.steps s passed m).timely q;
      distinct = λ xs ys s t q m.
          check_steps-apart blank [] xs s ys t
            (subst (λ ss. check_steps blank [] ss ≡ ok tt) q passed) m;
    }
