-- ===== src/Execution/Selection.antt =====
-- Comprehensions of src/xyberos/execution/models.py: what they keep and what they drop.
use xyberos.Prelude.{
  ◌≡◌, inl, inr, refl, Bool, true, false, List, [], ◌∷◌, map, arith, ap, ◌∙◌, Bool-cases,
}
use mathlib.Core.List.{Memᴰ}
use mathlib.Core.List.Memᴰ
use xyberos.Execution.Models.{select, is_empty}

-- Everything that a comprehension drops fails its test.
pub select-is_empty :
    {A : Type 0} (test : A → Bool) (xs : List A) (a : A)
    → is_empty (select test xs) ≡ true
    → Memᴰ a xs
    → test a ≡ false
unfolding select
select-is_empty test [] a e m = absurd (Memᴰ.not-nil m)
select-is_empty test (x ∷ xs) a e m = elim (Memᴰ.cases_cons m) [
  | inl same ↦ ground (arith, ap test same)
  | inr below ↦ select-is_empty test xs a (ground arith) below
]

-- What a comprehension keeps passes its test.
pub select-nonempty :
    {A : Type 0} (test : A → Bool) (xs : List A)
    → is_empty (select test xs) ≡ false
    → (a : A) × Memᴰ a xs × (test a ≡ true)
unfolding select
select-nonempty test [] e = cc
select-nonempty test (x ∷ xs) e = elim (Bool-cases (test x)) [
  | inl passes ↦ (x, Memᴰ.head refl, passes)
  | inr fails ↦ let (a, m, p) = select-nonempty test xs (rw fails at e) in (a, Memᴰ.tail m, p)
]

pub select-Mem :
    {A : Type 0} (test : A → Bool) (xs : List A) (a : A)
    → Memᴰ a (select test xs)
    → Memᴰ a xs × (test a ≡ true)
unfolding select
select-Mem test [] a m = absurd (Memᴰ.not-nil m)
select-Mem test (x ∷ xs) a m = elim (Bool-cases (test x)) [
  | inr fails ↦ let (n, p) = select-Mem test xs a (rw fails at m) in (Memᴰ.tail n, p)
  | inl passes ↦ elim (Memᴰ.cases_cons (rw passes at m)) [
    | inl same ↦ (Memᴰ.head same, ap test same ∙ passes)
    | inr below ↦ let (n, p) = select-Mem test xs a below in (Memᴰ.tail n, p)
  ]
]

pub map-select-head :
    {A B : Type 0} (f : A → B) (test : A → Bool) (xs : List A) (b : B) (rest : List B)
    → map f (select test xs) ≡ b ∷ rest
    → (a : A) × Memᴰ a xs × (test a ≡ true) × (f a ≡ b)
unfolding select
map-select-head f test [] b rest e = cc
map-select-head f test (x ∷ xs) b rest e = elim (Bool-cases (test x)) [
  | inl passes ↦ (x, Memᴰ.head refl, passes, ground (arith, passes))
  | inr fails ↦
      let (a, m, p, q) = map-select-head f test xs b rest (rw fails at e) in (a, Memᴰ.tail m, p, q)
]

pub is_empty-map : {A B : Type 0} (f : A → B) (xs : List A) → is_empty (map f xs) ≡ is_empty xs
is_empty-map f [] = refl
is_empty-map f (x ∷ xs) = refl
