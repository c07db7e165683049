-- ===== src/Durable/Store/Oldest.antt =====
-- The row that `ORDER BY submitted_at LIMIT 1` of src/xyberos/durable/store.py picks.
use xyberos.Prelude.{
  ◌≤◌, String, ◌≡◌, inl, inr, refl, Bool, true, false, Option, none, some, [], ◌∷◌, arith,
  string_eq, ltb, subst, Bool-cases,
}
use xyberos.Table.{Table}
use xyberos.Durable.Rows.{ExecutionRow}
use xyberos.Durable.Store.Claims.{oldest, earlier}

-- The rows of a table that pass a test, of which `oldest` picks one.
abbrev pub Every : (String → ExecutionRow → Type 0) → Table String ExecutionRow → Type 0
Every P [] = Unit {0}
Every P ((k, e) ∷ t) = P k e × Every P t

pub oldest-none :
    (test : String → ExecutionRow → Bool) (t : Table String ExecutionRow)
    → oldest test t ≡ none
    → Every (λ k e. test k e ≡ false) t
unfolding oldest
oldest-none test [] h = tt
oldest-none test ((k, e) ∷ t) h = ground (arith, oldest-none test t)

Every-map :
    {P Q : String → ExecutionRow → Type 0} (t : Table String ExecutionRow)
    → ((k : String) (e : ExecutionRow) → P k e → Q k e)
    → Every P t
    → Every Q t
Every-map [] f h = tt
Every-map ((k, e) ∷ t) f (p, rest) = (f k e p, Every-map t f rest)

-- `e` passes the test, and none that passes it is older.
abbrev pub IsOldest :
    (String → ExecutionRow → Bool) → Table String ExecutionRow → String → ExecutionRow → Type 0
IsOldest test t k e =
    (test k e ≡ true) × Every (λ i r. test i r ≡ true → e.submitted_at ≤ r.submitted_at) t

picked :
    (P : String → ExecutionRow → Type 0) {x : String × ExecutionRow} {k : String} {e : ExecutionRow}
    → ◌≡◌ {A = Option (String × ExecutionRow)} (some x) (some (k, e))
    → P x.0 x.1
    → P k e
picked P {x} {k} {e} h best =
    let same : ◌≡◌ {A = String × ExecutionRow} x (k, e) = cc in
    subst (λ (y : String × ExecutionRow). P y.0 y.1) same best

-- The row that is picked from a list whose first row passes.
earlier-IsOldest :
    (test : String → ExecutionRow → Bool) (t : Table String ExecutionRow) (i : String)
    (r : ExecutionRow) (rest : Option (String × ExecutionRow)) (k : String) (e : ExecutionRow)
    → test i r ≡ true
    → oldest test t ≡ rest
    → ((k : String) (e : ExecutionRow) → rest ≡ some (k, e) → IsOldest test t k e)
    → earlier (i, r) rest ≡ some (k, e)
    → IsOldest test ((i, r) ∷ t) k e
earlier-IsOldest test t i r none k e passes q ih h =
    picked (IsOldest test ((i, r) ∷ t)) h
      (passes, ((λ p. omega arith), Every-map t (λ a b fails p. cc) (oldest-none test t q)))
earlier-IsOldest test t i r (some (i', e')) k e passes q ih h =
    let (best, others) = ih i' e' refl in
    elim (Bool-cases (ltb e'.submitted_at r.submitted_at)) [
      | inl older ↦
          picked (IsOldest test ((i, r) ∷ t)) {x = (i', e')} (rw older at h)
            (best, ((λ p. ground (arith, older)), others))
      | inr younger ↦ picked (IsOldest test ((i, r) ∷ t)) {x = (i, r)} (rw younger at h) (
        passes,
        ((λ p. omega arith), Every-map t (λ a b f p. ground (arith, f p, younger)) others),
      )
    ]

pub oldest-IsOldest :
    (test : String → ExecutionRow → Bool) (t : Table String ExecutionRow) (k : String)
    (e : ExecutionRow)
    → oldest test t ≡ some (k, e)
    → IsOldest test t k e
unfolding oldest
oldest-IsOldest test [] k e h = cc
oldest-IsOldest test ((i, r) ∷ t) k e h = elim (Bool-cases (test i r)) [
  | inl passes ↦
      earlier-IsOldest test t i r (oldest test t) k e passes refl (oldest-IsOldest test t)
        (rw passes at h)
  | inr fails ↦
      let (best, others) = oldest-IsOldest test t k e (rw fails at h) in (best, (λ p. cc, others))
]

earlier-Every :
    (P : String → ExecutionRow → Type 0) (i : String) (r : ExecutionRow)
    (rest : Option (String × ExecutionRow)) (k : String) (e : ExecutionRow)
    → P i r
    → ((k : String) (e : ExecutionRow) → rest ≡ some (k, e) → P k e)
    → earlier (i, r) rest ≡ some (k, e)
    → P k e
earlier-Every P i r none k e p ih h = picked P h p
earlier-Every P i r (some (i', e')) k e p ih h =
    elim (Bool-cases (ltb e'.submitted_at r.submitted_at)) [
      | inl older ↦ picked P {x = (i', e')} (rw older at h) (ih i' e' refl)
      | inr younger ↦ picked P {x = (i, r)} (rw younger at h) p
    ]

pub oldest-Every :
    (P : String → ExecutionRow → Type 0) (test : String → ExecutionRow → Bool)
    (t : Table String ExecutionRow) (k : String) (e : ExecutionRow)
    → Every P t
    → oldest test t ≡ some (k, e)
    → P k e
unfolding oldest
oldest-Every P test [] k e h q = cc
oldest-Every P test ((i, r) ∷ t) k e (h, hs) q = elim (Bool-cases (test i r)) [
  | inl passes ↦
      earlier-Every P i r (oldest test t) k e h (λ k e. oldest-Every P test t k e hs)
        (rw passes at q)
  | inr fails ↦ oldest-Every P test t k e hs (rw fails at q)
]
