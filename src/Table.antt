-- ===== src/Table.antt =====
-- A keyed table of rows in insertion order: what the journal's SQL statements do to one table
-- with a primary key. A row that is updated keeps its place, a new row goes to the end.
use mathlib.Core.Option
use xyberos.Prelude.{◌≡◌, refl, Option, none, some, List, [], ◌∷◌, arith, Eq, ◌==◌, if◌then◌else◌}

abbrev pub Table {ℓ} : Type ℓ → Type ℓ → Type ℓ
Table K V = List (K × V)

module _ {ℓ} {K V : Type ℓ} ⦃e : Eq K⦄ where
  -- SELECT … WHERE key = k
  unfoldable pub find : K → Table K V → Option V
  find k [] = none
  find k ((j, v) ∷ t) = if j == k then some v else find k t

  -- UPDATE … WHERE key = k
  unfoldable pub update : K → (V → V) → Table K V → Table K V
  update k f [] = []
  update k f ((j, v) ∷ t) = if j == k then (j, f v) ∷ t else (j, v) ∷ update k f t

  -- INSERT … ON CONFLICT (key) DO UPDATE
  unfoldable pub upsert : K → V → Table K V → Table K V
  upsert k v [] = (k, v) ∷ []
  upsert k v ((j, w) ∷ t) = if j == k then (j, v) ∷ t else (j, w) ∷ upsert k v t

  -- DELETE … WHERE key = k
  unfoldable pub delete : K → Table K V → Table K V
  delete k [] = []
  delete k ((j, v) ∷ t) = let rest = delete k t in if j == k then rest else (j, v) ∷ rest

  pub find-update :
      (k j : K) (f : V → V) (t : Table K V)
      → find j (update k f t) ≡ (if k == j then Option.map f (find j t) else find j t)
  unfolding find update
  find-update k j f [] = ground arith
  find-update k j f ((i, v) ∷ t) =
      ground (arith, e.beq_iff i k, e.beq_iff i j, e.beq_iff k j, find-update k j f t)

  pub find-upsert :
      (k j : K) (v : V) (t : Table K V)
      → find j (upsert k v t) ≡ (if k == j then some v else find j t)
  unfolding find upsert
  find-upsert k j v [] = refl
  find-upsert k j v ((i, w) ∷ t) =
      ground (arith, e.beq_iff i k, e.beq_iff i j, e.beq_iff k j, find-upsert k j v t)

  pub find-delete :
      (k j : K) (t : Table K V) → find j (delete k t) ≡ (if k == j then none else find j t)
  unfolding find delete
  find-delete k j [] = ground arith
  find-delete k j ((i, w) ∷ t) =
      ground (arith, e.beq_iff i k, e.beq_iff i j, e.beq_iff k j, find-delete k j t)

pub ruleset table_laws = (find-update, find-upsert, find-delete)
