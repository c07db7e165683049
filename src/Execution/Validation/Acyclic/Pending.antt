-- ===== src/Execution/Validation/Acyclic/Pending.antt =====
-- The edges that `_validate_acyclic` of src/xyberos/execution/validation.py still counts.
use xyberos.Prelude.{
  ℕ, ◌+◌, ◌≤◌, String, ◌≡◌, inl, inr, refl, ◌&&◌, List, [], ◌∷◌, ◌++◌, arith, nat_beq, ◌==◌,
  string_eq, count, one_if, ap, Bool-cases,
}
use mathlib.Core.List.{Memᴰ}
use mathlib.Core.List.Memᴰ
use xyberos.Execution.Models.{Edge, select}
use xyberos.Execution.Validation.Acyclic.{successors}

pub count-append : (a : String) (xs ys : List String) → count a (xs ++ ys) ≡ count a xs + count a ys
count-append a [] ys = omega arith
count-append a (x ∷ xs) ys = omega (arith, count-append a xs ys)

module _ {V : Type 0} where
  -- The edges into a step whose source was not visited yet
  abbrev pub pending : List (Edge V) → List String → String → ℕ
  pending [] visited t = 0
  pending (e ∷ es) visited t =
      one_if (e.target == t && nat_beq (count e.source visited) 0) + pending es visited t

  pub pending-visit_ready :
      (es : List (Edge V)) (visited : List String) (c t : String)
      → count c visited ≡ 0
      → pending es (c ∷ visited) t + count t (successors es c) ≡ pending es visited t
  unfolding select
  pending-visit_ready [] visited c t fresh = refl
  pending-visit_ready (e ∷ es) visited c t fresh = ground (
    arith,
    string_eq.beq_iff e.source c,
    string_eq.beq_iff c e.source,
    pending-visit_ready es visited c t fresh,
  )

  pub pending-none :
      (es : List (Edge V)) (visited : List String) (t : String) (e : Edge V)
      → pending es visited t ≡ 0
      → Memᴰ e es
      → e.target ≡ t
      → 1 ≤ count e.source visited
  pending-none [] visited t e h m into = absurd (Memᴰ.not-nil m)
  pending-none (d ∷ es) visited t e h m into = elim (Memᴰ.cases_cons m) [
    | inl same ↦ rw same (
        ground
          (arith, string_eq.beq_iff d.target t, into, same, ap (λ (x : Edge V). x.target) same))
    | inr below ↦ pending-none es visited t e (omega (arith, h)) below into
  ]

  pub pending-some :
      (es : List (Edge V)) (visited : List String) (t : String)
      → 1 ≤ pending es visited t
      → (e : Edge V) × Memᴰ e es × (e.target ≡ t) × (count e.source visited ≡ 0)
  pending-some [] visited t h = absurd (omega arith)
  pending-some (d ∷ es) visited t h =
      elim (Bool-cases (d.target == t && nat_beq (count d.source visited) 0)) [
        | inl here ↦ (d, Memᴰ.head refl, ground (arith, string_eq.beq_iff d.target t), ground arith)
        | inr there ↦
            let (e, m, p, f) = pending-some es visited t (ground (arith, h)) in
            (e, Memᴰ.tail m, p, f)
      ]
