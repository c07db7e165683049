-- ===== src/Execution/Validation/Acyclic/Rounds.antt =====
-- The loop of `_validate_acyclic` in src/xyberos/execution/validation.py: what its counters and its
-- queue hold at each moment.
use xyberos.Prelude.{
  ℕ, zero, suc, ◌+◌, ◌-◌, ◌≤◌, String, ◌≡◌, ◌≢◌, refl, ◌&&◌, none, some, List, [], ◌∷◌, arith,
  nat_beq, if◌then◌else◌, ◌==◌, string_eq, length, count, one_if, count_self, IsWithin,
  IsWithin-length,
}
use mathlib.Core.List.{Memᴰ}
use xyberos.Table.{Table, find, update, find-update}
use xyberos.Execution.Models.{Edge}
use xyberos.Execution.Validation.Acyclic.{
  Queue, degree, release, release_all, successors, visit_ready,
}
use xyberos.Execution.Validation.Acyclic.Pending.{
  pending, pending-visit_ready, pending-none, count-append,
}

-- How often a step stands in the queue or among the visited steps: once if no edge into it is
-- counted any more, else not at all.
abbrev pub share : ℕ → ℕ
share d = one_if (nat_beq d 0)

degree-update :
    (t x : String) (degrees : Table String ℕ)
    → find t degrees ≢ none
    → degree x (update t (λ d. d - 1) degrees)
      ≡ (if t == x then degree x degrees - 1 else degree x degrees)
degree-update t x degrees there = ground (arith, find-update t x (λ d. d - 1) degrees)

listed-update :
    (t x : String) (degrees : Table String ℕ)
    → find x degrees ≢ none
    → find x (update t (λ d. d - 1) degrees) ≢ none
listed-update t x degrees there = ground (arith, find-update t x (λ d. d - 1) degrees)

count-released :
    (t x : String) (q : Queue)
    → count x (release t q).ready
      ≡ count x q.ready + one_if (nat_beq (degree t q.degrees) 1 && t == x)
count-released t x q = ground (arith, count-append x q.ready (t ∷ []))

-- Each visited step stands before the sources of the edges into it; the last visited one is the
-- first of the list.
abbrev pub SourcesFirst : {V : Type 0} → List (Edge V) → List String → Type 0
SourcesFirst edges [] = Unit {0}
SourcesFirst edges (x ∷ xs) =
    ((e : Edge _) → Memᴰ e edges → e.target ≡ x → 1 ≤ count e.source xs) × SourcesFirst edges xs

module _ {V : Type 0} (edges : List (Edge V)) (ids : List String) where
  -- In the midst of a visit_ready: `left` are the targets that the visited step still has to release.
  pub record Holds (left visited : List String) (q : Queue) : Type 0 where
    pub counted :
        (x : String) → 1 ≤ count x ids → degree x q.degrees ≡ pending edges visited x + count x left
    pub listed : (x : String) → 1 ≤ count x ids → find x q.degrees ≢ none
    pub once :
        (x : String)
        → 1 ≤ count x ids
        → count x q.ready + count x visited ≡ share (degree x q.degrees)
    pub declared : (x : String) → count x ids ≡ 0 → count x q.ready + count x visited ≡ 0

  release-Holds :
      (t : String) (left visited : List String) (q : Queue)
      → 1 ≤ count t ids
      → Holds (t ∷ left) visited q
      → Holds left visited (release t q)
  release-Holds t left visited q inside h = record {
    counted = λ x i. ground (arith, h.counted x i, degree-update t x q.degrees (h.listed t inside));
    listed = λ x i. listed-update t x q.degrees (h.listed x i);
    once = λ x i. ground (
      arith,
      h.once x i,
      h.counted t inside,
      h.counted x i,
      string_eq.beq_iff t x,
      string_eq.beq_iff t t,
      string_eq.beq_iff x t,
      count-released t x q,
      degree-update t x q.degrees (h.listed t inside),
    );
    declared =
        λ x n. ground (arith, h.declared x n, string_eq.beq_iff t x, count-released t x q, inside);
  }

  release_all-Holds :
      (left visited : List String) (q : Queue)
      → ((x : String) → 1 ≤ count x left → 1 ≤ count x ids)
      → Holds left visited q
      → Holds [] visited (release_all left q)
  unfolding release_all
  release_all-Holds [] visited q inside h = h
  release_all-Holds (t ∷ ts) visited q inside h =
      release_all-Holds ts visited (release t q) (λ x i. inside x (omega (arith, i)))
        (release-Holds t ts visited q (inside t (omega (arith, count_self t ts))) h)

  -- The next step leaves the queue and is visited.
  take-Holds :
      (c : String) (rest visited : List String) (degrees : Table String ℕ)
      → count c visited ≡ 0
      → Holds [] visited (record { degrees = degrees; ready = c ∷ rest })
      → Holds (successors edges c) (c ∷ visited) (record { degrees = degrees; ready = rest })
  take-Holds c rest visited degrees fresh h = record {
    counted = λ x i. omega (arith, h.counted x i, pending-visit_ready edges visited c x fresh);
    listed = h.listed;
    once = λ x i. omega (arith, h.once x i);
    declared = λ x n. omega (arith, h.declared x n);
  }

  share-le : (d : ℕ) → share d ≤ 1
  share-le d = ground arith

  ready-fresh :
      (c : String) (rest visited : List String) (degrees : Table String ℕ)
      → Holds [] visited (record { degrees = degrees; ready = c ∷ rest })
      → (1 ≤ count c ids) × (degree c degrees ≡ 0) × (count c visited ≡ 0)
  ready-fresh c rest visited degrees h =
      let inside : 1 ≤ count c ids = grind (arith, h.declared c, count_self c rest) in
      (
        inside,
        ground (arith, h.once c inside, count_self c rest),
        omega (arith, h.once c inside, share-le (degree c degrees), count_self c rest),
      )

  Holds-IsWithin : (visited : List String) (q : Queue) → Holds [] visited q → IsWithin visited ids
  Holds-IsWithin visited q h x =
      grind (arith, h.declared x, h.once x, share-le (degree x q.degrees))

  -- What the loop leaves behind
  pub record Visited (visited : List String) : Type 0 where
    pub ordered : SourcesFirst edges visited
    pub within : IsWithin visited ids
    pub stuck : (x : String) → 1 ≤ count x ids → count x visited ≡ 0 → 1 ≤ pending edges visited x

  module _ (joined : (c x : String) → 1 ≤ count x (successors edges c) → 1 ≤ count x ids) where
    pub visit_ready-Visited :
        (fuel : ℕ) (degrees : Table String ℕ) (ready visited : List String)
        → Holds [] visited (record { degrees = degrees; ready = ready })
        → SourcesFirst edges visited
        → length ids + 1 ≤ length visited + fuel
        → (all : List String) × (visit_ready fuel edges degrees ready (length visited)
            ≡ some (length all))
          × Visited all
    unfolding visit_ready
    visit_ready-Visited zero degrees ready visited h sorted enough =
        absurd (omega (arith, IsWithin-length visited ids (Holds-IsWithin visited _ h), enough))
    visit_ready-Visited (suc fuel) degrees [] visited h sorted enough = (
      visited,
      refl,
      record {
        ordered = sorted;
        within = Holds-IsWithin visited _ h;
        stuck = λ x i n. ground (arith, h.once x i, h.counted x i, n);
      },
    )
    visit_ready-Visited (suc fuel) degrees (c ∷ rest) visited h sorted enough =
        let (inside, none_left, fresh) = ready-fresh c rest visited degrees h in
        let q = release_all (successors edges c) (record { degrees = degrees; ready = rest }) in
        visit_ready-Visited fuel q.degrees q.ready (c ∷ visited)
          (release_all-Holds (successors edges c) (c ∷ visited) _ (joined c)
            (take-Holds c rest visited degrees fresh h))
          (
            (λ e m into.
                pending-none edges visited c e (omega (arith, h.counted c inside, none_left)) m
                  into),
            sorted,
          )
          (omega (arith, enough))
