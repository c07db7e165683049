-- ===== src/Execution/Validation/Edges.antt =====
-- What a definition satisfies whose edges `_validate_edges` of src/xyberos/execution/validation.py
-- let pass.
use xyberos.Prelude.{
  String, ◌≡◌, ◌≢◌, inl, inr, Bool, true, false, ◌||◌, Option, none, some, List, [], ◌∷◌, ◌++◌,
  arith, sym, subst, string_eq, pair_eq,
}
use mathlib.Core.List.{Memᴰ}
use mathlib.Core.List.Memᴰ
use xyberos.Errors.{ok}
use xyberos.Execution.Models.{Edge, Workflow, contains, step_ids}
use xyberos.Execution.Validation.{fallback_after, check_edge, check_edges, validate_edges}

abbrev pub pair_of : {V : Type 0} → Edge V → String × String
pair_of e = (e.source, e.target)

or-false : (a b : Bool) → (a || b) ≡ false → b ≡ false
or-false a b h = ground arith

after-false :
    {A : Type 0} (when : Option A) (source other : String) (fallback : List String)
    → contains other (fallback_after when source fallback) ≡ false
    → contains other fallback ≡ false
after-false none source other fallback h = or-false _ _ h
after-false (some w) source other fallback h = h

module _ {V : Type 0} (declared : List String) where
  -- What one edge passed
  record Passed (seen : List (String × String)) (fallback : List String) (e : Edge V) : Type 0 where
    source : contains e.source declared ≡ true
    target : contains e.target declared ≡ true
    no_loop : e.source ≢ e.target
    fresh : contains (pair_of e) seen ≡ false
    open_source : contains e.source fallback ≡ false

  check_edges-cons :
      (seen : List (String × String)) (fallback : List String) (e : Edge V) (es : List (Edge V))
      → check_edges declared seen fallback (e ∷ es) ≡ ok tt
      → Passed seen fallback e
        × (check_edges declared (pair_of e ∷ seen) (fallback_after e.when e.source fallback) es
            ≡ ok tt)
  unfolding check_edges check_edge
  check_edges-cons seen fallback e es h = (
    record {
      source = ground arith;
      target = ground arith;
      no_loop = λ q. ground (arith, string_eq.beq_iff e.source e.target);
      fresh = ground arith;
      open_source = ground arith;
    },
    ground arith,
  )

  -- Passing with more seen is passing with less.
  Passed-weaken :
      (seen : List (String × String)) (fallback : List String) (d e : Edge V)
      → Passed (pair_of d ∷ seen) (fallback_after d.when d.source fallback) e
      → Passed seen fallback e
  Passed-weaken seen fallback d e p = record {
    source = p.source;
    target = p.target;
    no_loop = p.no_loop;
    fresh = or-false _ _ p.fresh;
    open_source = after-false d.when d.source e.source fallback p.open_source;
  }

  check_edges-Passed :
      (seen : List (String × String)) (fallback : List String) (es : List (Edge V)) (e : Edge V)
      → check_edges declared seen fallback es ≡ ok tt
      → Memᴰ e es
      → Passed seen fallback e
  check_edges-Passed seen fallback [] e h m = absurd (Memᴰ.not-nil m)
  check_edges-Passed seen fallback (d ∷ es) e h m =
      let (here, rest) = check_edges-cons seen fallback d es h in
      elim (Memᴰ.cases_cons m) [
        | inl same ↦ subst (Passed seen fallback) (sym same) here
        | inr below ↦ Passed-weaken seen fallback d e (
            check_edges-Passed (pair_of d ∷ seen) (fallback_after d.when d.source fallback) es e
              rest below)
      ]

  -- An edge and one that stands after it
  check_edges-apart :
      (seen : List (String × String)) (fallback : List String) (xs : List (Edge V)) (e : Edge V)
      (ys : List (Edge V)) (f : Edge V)
      → check_edges declared seen fallback (xs ++ e ∷ ys) ≡ ok tt
      → Memᴰ f ys
      → (pair_of e ≢ pair_of f) × (e.when ≡ none → f.source ≢ e.source)
  check_edges-apart seen fallback [] e ys f h m =
      let (here, rest) = check_edges-cons seen fallback e ys h in
      let p = check_edges-Passed _ _ ys f rest m in
      (
        λ q. ground (arith, pair_eq.beq_iff (pair_of e) (pair_of f), p.fresh),
        λ n q. ground (arith, string_eq.beq_iff e.source f.source, p.open_source),
      )
  check_edges-apart seen fallback (x ∷ xs) e ys f h m =
      let (here, rest) = check_edges-cons seen fallback x (xs ++ e ∷ ys) h in
      check_edges-apart (pair_of x ∷ seen) (fallback_after x.when x.source fallback) xs e ys f rest
        m

-- What the order of the edges says: no edge is declared twice, and an edge without a condition is
-- the last of its source.
pub record IsOrdered {V : Type 0} (w : Workflow V) : Type 0 where
  pub connected :
      (e : Edge V)
      → Memᴰ e w.edges
      → (contains e.source (step_ids w) ≡ true)
        × (contains e.target (step_ids w) ≡ true)
        × (e.source ≢ e.target)
  pub distinct :
      (xs ys : List (Edge V)) (e f : Edge V)
      → w.edges ≡ xs ++ e ∷ ys
      → Memᴰ f ys
      → pair_of e ≢ pair_of f
  pub fallback_last :
      (xs ys : List (Edge V)) (e f : Edge V)
      → w.edges ≡ xs ++ e ∷ ys
      → Memᴰ f ys
      → e.when ≡ none
      → f.source ≢ e.source

-- In a definition whose edges pass the validation, every edge joins two different declared steps, no
-- two edges join the same steps, and no edge of a step stands after an unconditional one of it.
pub validate_edges-IsOrdered :
    {V : Type 0} (w : Workflow V) → validate_edges w ≡ ok tt → IsOrdered w
unfolding validate_edges
validate_edges-IsOrdered w h = record {
  connected = λ e m.
      let p = check_edges-Passed (step_ids w) [] [] w.edges e h m in
      (p.source, p.target, p.no_loop);
  distinct = λ xs ys e f q m.
      (check_edges-apart (step_ids w) [] [] xs e ys f
        (subst (λ es. check_edges (step_ids w) [] [] es ≡ ok tt) q h) m).0;
  fallback_last = λ xs ys e f q m.
      (check_edges-apart (step_ids w) [] [] xs e ys f
        (subst (λ es. check_edges (step_ids w) [] [] es ≡ ok tt) q h) m).1;
}
