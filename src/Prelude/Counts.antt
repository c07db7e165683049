-- ===== src/Prelude/Counts.antt =====
-- How often a text stands in a list of texts: membership, absence of duplicates and inclusion of one
-- list in another are statements about these numbers.
use Prim.Native.Nat.{ℕ, ◌+◌, ◌≤◌}
use Prim.Native.String.{String}
use mathlib.Core.Path.{◌≡◌, refl}
use mathlib.Core.Bool.{Bool, true, false}
use mathlib.Core.List.{List, [], ◌∷◌}
use native.Mathlib.Omega.{arith}
use xyberos.Prelude.Equality.{◌==◌, string_eq}
use xyberos.Prelude.Tests.{if◌then◌else◌}

-- `len(xs)`
abbrev pub length {ℓ} : {A : Type ℓ} → List A → ℕ
length [] = 0
length (x ∷ xs) = length xs + 1

abbrev pub one_if : Bool → ℕ
one_if true = 1
one_if false = 0

abbrev pub count : String → List String → ℕ
count a [] = 0
count a (x ∷ xs) = one_if (x == a) + count a xs

-- Each text stands in the first list at most as often as in the second.
abbrev pub IsWithin : List String → List String → Type 0
IsWithin xs ys = (a : String) → count a xs ≤ count a ys

remove : String → List String → List String
remove a [] = []
remove a (x ∷ xs) = if x == a then xs else x ∷ remove a xs

count-remove :
    (a b : String) (xs : List String)
    → 1 ≤ count a xs
    → count b (remove a xs) + one_if (a == b) ≡ count b xs
unfolding remove
count-remove a b [] h = absurd (omega arith)
count-remove a b (x ∷ xs) h = ground (
  arith,
  string_eq.beq_iff x a,
  string_eq.beq_iff x b,
  string_eq.beq_iff a b,
  count-remove a b xs,
)

length-remove :
    (a : String) (xs : List String) → 1 ≤ count a xs → length (remove a xs) + 1 ≡ length xs
unfolding remove
length-remove a [] h = absurd (omega arith)
length-remove a (x ∷ xs) h = ground (arith, length-remove a xs)

pub count_self : (a : String) (xs : List String) → count a (a ∷ xs) ≡ 1 + count a xs
count_self a xs = ground (arith, string_eq.beq_iff a a)

IsWithin-remove :
    (a : String) (xs ys : List String) → IsWithin (a ∷ xs) ys → IsWithin xs (remove a ys)
IsWithin-remove a xs ys h b =
    omega (arith, h b, count-remove a b ys (omega (arith, h a, count_self a xs)))

-- A list within another is not longer.
pub IsWithin-length : (xs ys : List String) → IsWithin xs ys → length xs ≤ length ys
IsWithin-length [] ys h = omega arith
IsWithin-length (x ∷ xs) ys h = omega (
  arith,
  length-remove x ys (omega (arith, h x, count_self x xs)),
  IsWithin-length xs (remove x ys) (IsWithin-remove x xs ys h),
)

count_empty : (a : String) (xs : List String) → length xs ≡ 0 → count a xs ≡ 0
count_empty a [] h = refl
count_empty a (x ∷ xs) h = absurd (omega arith)

-- A list within another of the same length holds the same texts as often.
pub IsWithin-full : (xs ys : List String) → IsWithin xs ys → length ys ≤ length xs → IsWithin ys xs
IsWithin-full [] ys h e a = omega (arith, count_empty a ys (omega arith))
IsWithin-full (x ∷ xs) ys h e a =
    let inside : 1 ≤ count x ys = omega (arith, h x, count_self x xs) in
    omega (
      arith,
      count-remove x a ys inside,
      IsWithin-full xs (remove x ys) (IsWithin-remove x xs ys h)
          (omega (arith, e, length-remove x ys inside)) a,
    )
