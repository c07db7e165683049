-- ===== src/Durable/Store/Evolution/Cancellation.antt =====
-- `request_cancellation` and `acknowledge_cancellation` of src/xyberos/durable/store.py respect
-- `Evolves`.
use xyberos.Prelude.{
  ℕ, String, ◌≡◌, refl, Bool, true, false, Option, none, some, arith, is_none, string_eq,
  if◌then◌else◌, Bool-cases, inl, inr, subst, sym,
}
use xyberos.Errors.{ok}
use xyberos.Table.{find}
use xyberos.Durable.Models.{
  ExecutionStatus, FailureKind, EventKind, same_status, same_status_iff, execution_is_terminal,
  require_execution_transition,
}
use xyberos.Durable.Rows.{ExecutionRow, Claim, Journal}
use xyberos.Durable.Txn.{Txn, pure, execution_row, update_execution, append_event, ◌>>=◌, ◌>>◌}
use xyberos.Durable.Txn.Ensures.{Ensures, Ensures-bind, Ensures-bind-lift, >>=-eq-ok, ok-journal}
use xyberos.Durable.Store.Writes.{set_execution_status}
use xyberos.Durable.Store.Endings.{
  requested_by, cancel_row, finish_cancelled, note_cancellation, cancel_unowned, request_open,
  request_cancellation, request_by_owner, acknowledge, acknowledge_cancellation,
}
use xyberos.Durable.Store.Steps.{failed_as}
use xyberos.Durable.Store.Evolution.{
  Evolves, Evolves-preorder, Evolves-refl, Evolves-trans, ExecutionEvolves, ExecutionEvolves-refl,
}
use xyberos.Durable.Store.Evolution.Primitives.{
  Ensures-update_execution, Ensures-append_event, Ensures-delete_retry, update_execution-Evolves,
  evolution_rules,
}
use xyberos.Durable.Store.Evolution.Guarded.{
  Ensures-set_execution_status, require_execution_transition-ok,
}
use xyberos.Durable.Store.Evolution.Steps.{Sets-failed_as}

Ensures-set_acknowledged :
    (claim : Claim) (now : ℕ)
    → Ensures Evolves (
        set_execution_status claim ExecutionStatus.cancelled now
          (failed_as FailureKind.cancelled)
          true)
Ensures-set_acknowledged claim now =
    Ensures-set_execution_status claim ExecutionStatus.cancelled now _
      (Sets-failed_as FailureKind.cancelled) true (λ e. cc)

-- An open row may be cancelled, keeping the time of an earlier request.
cancelled-Evolves :
    (e : ExecutionRow) (now : ℕ)
    → execution_is_terminal e.status ≡ false
    → ExecutionEvolves e (record e {
      status = ExecutionStatus.cancelled;
      failure_kind = some FailureKind.cancelled;
      current_step = none;
      updated_at = now;
      cancellation_requested_at = requested_by e.cancellation_requested_at now;
    })
cancelled-Evolves e now h = record {
  workflow = refl;
  version = refl;
  fingerprint = refl;
  input = refl;
  submitted_at = refl;
  deadline_at = refl;
  final = λ t. cc;
  requested = λ t. ground arith;
  not_completed = λ t c. cc;
}

Ensures-cancel_row :
    (i : String) (row : ExecutionRow) (now : ℕ) → Ensures Evolves (cancel_row i row now)
unfolding cancel_row
Ensures-cancel_row i row now =
    let p = Evolves-preorder in
    Ensures-bind-lift p (require_execution_transition row.status ExecutionStatus.cancelled) _
      λ u legal.
        Ensures-bind p _ _
          (Ensures-update_execution i (λ e. same_status e.status row.status) _
            λ e passed. cancelled-Evolves e now (
              ground (
                arith,
                same_status_iff e.status row.status,
                require_execution_transition-ok row.status ExecutionStatus.cancelled legal,
              )))
          λ written.
            Ensures-bind p _ _ (Ensures-delete_retry i)
              λ u. Ensures-append_event i EventKind.cancelled now none none

Ensures-cancel_unowned : (i : String) (now : ℕ) → Ensures Evolves (cancel_unowned i now)
unfolding cancel_unowned finish_cancelled
Ensures-cancel_unowned i now = search (evolution_rules, Ensures-cancel_row) depth 9

-- A request is written into a row that has none.
requested-Evolves :
    (e : ExecutionRow) (at updated : ℕ) (reason : Option String)
    → is_none e.cancellation_requested_at ≡ true
    → ExecutionEvolves e (record e {
      updated_at = updated;
      cancellation_requested_at = some at;
      cancellation_reason = reason;
    })
requested-Evolves e at updated reason h =
    let same = ExecutionEvolves-refl e in
    record {
      workflow = refl;
      version = refl;
      fingerprint = refl;
      input = refl;
      submitted_at = refl;
      deadline_at = refl;
      final = same.final;
      requested = λ t. ground arith;
      not_completed = λ t c. c;
    }

-- The two statements that write a request, where the row that was read has none.
module _ (i : String) (row : ExecutionRow) (reason : Option String) (now : ℕ) (j : Journal)
    (found : find i j.executions ≡ some row)
    (bare : is_none row.cancellation_requested_at ≡ true) where
  note_cancellation-Evolves :
      {u : Unit {0}} {k : Journal} → note_cancellation i row reason now j ≡ ok (u, k) → Evolves j k
  unfolding note_cancellation
  note_cancellation-Evolves {u} {k} h =
      let (b, l, wrote, rest) =
        >>=-eq-ok
          (update_execution i (λ e. same_status e.status row.status)
            (λ e. record e {
              updated_at = now;
              cancellation_requested_at = some now;
              cancellation_reason = reason;
            }))
          (λ b. append_event i EventKind.cancellation_requested now none none) j h in
      Evolves-trans j l k
        (update_execution-Evolves i _ _ j
          (λ r f t. requested-Evolves r now now reason (ground (arith, f, found, bare))) wrote)
        ((Ensures-append_event i EventKind.cancellation_requested now none none).at l rest)

  request_by_owner-Evolves :
      {u : Unit {0}} {k : Journal} → request_by_owner i reason now j ≡ ok (u, k) → Evolves j k
  unfolding request_by_owner
  request_by_owner-Evolves {u} {k} h =
      let (b, l, wrote, rest) =
        >>=-eq-ok
          (update_execution i (λ e. true)
            (λ e. record e { cancellation_requested_at = some now; cancellation_reason = reason }))
          (λ b. append_event i EventKind.cancellation_requested now none none) j h in
      Evolves-trans j l k
        (update_execution-Evolves i _ _ j
          (λ r f t. requested-Evolves r now r.updated_at reason (ground (arith, f, found, bare)))
          wrote)
        ((Ensures-append_event i EventKind.cancellation_requested now none none).at l rest)

-- A transaction that is run only under a test, and does nothing otherwise.
if_only-Evolves :
    (test : Bool) (m : Txn (Unit {0})) (j : Journal) {u : Unit {0}} {k : Journal}
    → (test ≡ true → m j ≡ ok (u, k) → Evolves j k)
    → (if test then m else pure tt) j ≡ ok (u, k)
    → Evolves j k
if_only-Evolves true m j h e = h refl e
if_only-Evolves false m j h e = subst (Evolves j) (ok-journal e) (Evolves-refl j)

execution_row-eq-ok :
    (i : String) (j : Journal) {row : ExecutionRow} {k : Journal}
    → execution_row i j ≡ ok (row, k)
    → (find i j.executions ≡ some row) × (j ≡ k)
unfolding execution_row
execution_row-eq-ok i j h = ground arith

request_open-Evolves :
    (i : String) (row : ExecutionRow) (reason : Option String) (now : ℕ) (j : Journal)
    {u : Unit {0}} {k : Journal}
    → find i j.executions ≡ some row
    → request_open i row reason now j ≡ ok (u, k)
    → Evolves j k
unfolding request_open
request_open-Evolves i row reason now j {u} {k} found h =
    let note = note_cancellation i row reason now in
    let (v, l, first, rest) =
      >>=-eq-ok (if is_none row.cancellation_requested_at then note else pure tt)
        (λ v. cancel_unowned i now) j h in
    Evolves-trans j l k
      (if_only-Evolves (is_none row.cancellation_requested_at) note j
        (λ bare e. note_cancellation-Evolves i row reason now j found bare e) first)
      ((Ensures-cancel_unowned i now).at l rest)

request_known-Evolves :
    (i : String) (row : ExecutionRow) (reason : Option String) (now : ℕ) (j : Journal)
    {u : Unit {0}} {k : Journal}
    → find i j.executions ≡ some row
    → (if execution_is_terminal row.status then pure tt else request_open i row reason now) j
      ≡ ok (u, k)
    → Evolves j k
request_known-Evolves i row reason now j found h =
    elim (Bool-cases (execution_is_terminal row.status)) [
      | inl t ↦ subst (Evolves j) (ok-journal (rw t at h)) (Evolves-refl j)
      | inr t ↦ request_open-Evolves i row reason now j found (rw t at h)
    ]

-- After `_execution_row` the rest may use that the row stands in the journal.
Ensures-select :
    {A : Type 0} (i : String) (f : ExecutionRow → Txn A)
    → ((row : ExecutionRow) (j : Journal) (a : A) (k : Journal)
        → find i j.executions ≡ some row
        → f row j ≡ ok (a, k)
        → Evolves j k)
    → Ensures Evolves (execution_row i >>= f)
Ensures-select i f h = record {
  at = λ j {a = a} {j' = l} e.
      let (row, k, selected, rest) = >>=-eq-ok (execution_row i) f j e in
      let (found, unchanged) = execution_row-eq-ok i j selected in
      h row j a l found (subst (λ k. f row k ≡ ok (a, l)) (sym unchanged) rest);
}

pub Ensures-request_cancellation :
    (i : String) (reason : Option String) (now : ℕ)
    → Ensures Evolves (request_cancellation i reason now)
unfolding request_cancellation
Ensures-request_cancellation i reason now =
    Ensures-select i _ (λ row j u k found h. request_known-Evolves i row reason now j found h)

Ensures-acknowledge : (claim : Claim) (now : ℕ) → Ensures Evolves (acknowledge claim now)
unfolding acknowledge
Ensures-acknowledge claim now = search (evolution_rules, Ensures-set_acknowledged)

acknowledge_known-Evolves :
    (claim : Claim) (row : ExecutionRow) (reason : Option String) (now : ℕ) (j : Journal)
    {u : Unit {0}} {k : Journal}
    → find claim.execution_id j.executions ≡ some row
    → ((if is_none row.cancellation_requested_at
            then request_by_owner claim.execution_id reason now
            else pure tt)
          >> acknowledge claim now)
        j
      ≡ ok (u, k)
    → Evolves j k
acknowledge_known-Evolves claim row reason now j {u} {k} found h =
    let note = request_by_owner claim.execution_id reason now in
    let (v, l, first, rest) =
      >>=-eq-ok (if is_none row.cancellation_requested_at then note else pure tt)
        (λ v. acknowledge claim now) j h in
    Evolves-trans j l k
      (if_only-Evolves (is_none row.cancellation_requested_at) note j
        (λ bare e. request_by_owner-Evolves claim.execution_id row reason now j found bare e) first)
      ((Ensures-acknowledge claim now).at l rest)

pub Ensures-acknowledge_cancellation :
    (claim : Claim) (reason : Option String) (now : ℕ)
    → Ensures Evolves (acknowledge_cancellation claim reason now)
unfolding acknowledge_cancellation
Ensures-acknowledge_cancellation claim reason now =
    Ensures-select claim.execution_id _
      (λ row j u k found h. acknowledge_known-Evolves claim row reason now j found h)
