-- ===== src/Durable/Store/Attempts.antt =====
-- The attempt numbers that `start_step` and `complete_step` of src/xyberos/durable/store.py journal.
use xyberos.Prelude.{
  ℕ, ◌+◌, String, ◌≡◌, Option, none, some, List, [], ◌∷◌, ◌++◌, arith, string_eq, pair_eq, ap, sym,
  subst, ◌∙◌,
}
use mathlib.Core.List.{append_assoc}
use xyberos.Errors.{Result, ok}
use xyberos.Table.{find, update, find-update}
use xyberos.Durable.Models.{StepState, EventKind}
use xyberos.Durable.Rows.{Claim, Journal, StepRow, EventRow, lease_guard}
use xyberos.Durable.Txn.{Txn, lift, read, ◌>>=◌, ◌>>◌, step_row, append_event, update_execution}
use xyberos.Durable.Txn.Ensures.{>>=-eq-ok}
use xyberos.Durable.Store.Writes.{Payloads, dump, set_step_state, explain_refused_write}
use xyberos.Durable.Store.Success.{set_step_state-eq-ok}
use xyberos.Durable.Store.Steps.{
  start_step, start_attempt, announce_start, started, startable, record_output, complete_step,
}

abbrev event : Claim → String → EventKind → ℕ → ℕ → EventRow
event claim step_id kind attempt now = record {
  execution_id = claim.execution_id;
  kind = kind;
  step_id = some step_id;
  attempt = some attempt;
  at = now;
}

announce_start-eq-ok :
    (claim : Claim) (step_id : String) (attempt now : ℕ) (j : Journal) {n : ℕ} {k : Journal}
    → announce_start claim step_id attempt now j ≡ ok (n, k)
    → (n ≡ attempt)
      × (k.steps ≡ j.steps)
      × (k.events ≡ j.events ++ event claim step_id EventKind.step_started n now ∷ [])
unfolding announce_start update_execution explain_refused_write append_event
announce_start-eq-ok claim step_id attempt now j e = ground arith

pub step_row-eq-ok :
    (i step_id : String) (j : Journal) {row : StepRow} {k : Journal}
    → step_row i step_id j ≡ ok (row, k)
    → (find (i, step_id) j.steps ≡ some row) × (k ≡ j)
unfolding step_row
step_row-eq-ok i step_id j e = ground arith

pub set_step_state-found :
    (claim : Claim) (step_id : String) (target : StepState) (now : ℕ) (extra : StepRow → StepRow)
    (sources : List StepState) (j : Journal) (row : StepRow) {u : Unit {0}} {k : Journal}
    → find (claim.execution_id, step_id) j.steps ≡ some row
    → set_step_state claim step_id target now extra sources j ≡ ok (u, k)
    → (find (claim.execution_id, step_id) k.steps ≡ some (extra (record row { state = target })))
      × (k.events ≡ j.events)
set_step_state-found claim step_id target now extra sources j row {k = k} found e =
    let set = set_step_state-eq-ok claim step_id target now extra sources j e in
    let key : String × String = (claim.execution_id, step_id) in
    let same : k.steps ≡ update key (λ r. extra (record r { state = target })) j.steps =
      ap (λ (x : Journal). x.steps) set.written in
    (
      ground (
        arith,
        found,
        same,
        pair_eq.beq_iff key key,
        find-update key key (λ r. extra (record r { state = target })) j.steps,
      ),
      ap (λ (x : Journal). x.events) set.written,
    )

start_step-eq-ok :
    (claim : Claim) (step_id : String) (key : Option String) (now : ℕ) (j : Journal) {n : ℕ}
    {k : Journal}
    → start_step claim step_id key now j ≡ ok (n, k)
    → (row : StepRow) × (find (claim.execution_id, step_id) k.steps ≡ some row)
      × (row.attempts ≡ n)
      × (k.events ≡ j.events ++ event claim step_id EventKind.step_started n now ∷ [])
unfolding start_step start_attempt
start_step-eq-ok claim step_id key now j {n} {k} e =
    let (row, m, first, second) =
      >>=-eq-ok (step_row claim.execution_id step_id)
        (λ row. start_attempt claim step_id key (row.attempts + 1) now) j e in
    let n' = row.attempts + 1 in
    let (u, l, third, last) =
      >>=-eq-ok (set_step_state claim step_id StepState.running now (started n' key now) startable)
        (λ u. announce_start claim step_id n' now) m second in
    let (found, same) = step_row-eq-ok claim.execution_id step_id j first in
    let (set, events) =
      set_step_state-found claim step_id StepState.running now (started n' key now) startable m row
        (subst (λ (x : Journal). find (claim.execution_id, step_id) x.steps ≡ some row) (sym same)
          found)
        third in
    let (a, b, c) = announce_start-eq-ok claim step_id n' now l last in
    (
      started n' key now (record row { state = StepState.running }),
      rw b set,
      sym a,
      c
          ∙ ap (λ es. es ++ event claim step_id EventKind.step_started n now ∷ [])
              (events ∙ ap (λ (x : Journal). x.events) same),
    )

-- `record_output` after it set the step's state
abbrev pub finish : Claim → String → ℕ → ℕ → Txn (Unit {0})
finish claim step_id attempt now = do
  guarded ← read (lease_guard claim now)
  updated ←
      update_execution claim.execution_id (λ e. guarded)
        (λ e. record e { current_step = none; updated_at = now })
  append_event claim.execution_id EventKind.step_succeeded now (some step_id) (some attempt)

pub finish-eq-ok :
    (claim : Claim) (step_id : String) (attempt now : ℕ) (j : Journal) {u : Unit {0}} {k : Journal}
    → finish claim step_id attempt now j ≡ ok (u, k)
    → (k.events ≡ j.events ++ event claim step_id EventKind.step_succeeded attempt now ∷ [])
      × (k.steps ≡ j.steps)
unfolding update_execution append_event
finish-eq-ok claim step_id attempt now j e = ground arith

abbrev pub succeeded : String → ℕ → StepRow → StepRow
succeeded payload now s = record s {
  output = some payload;
  finished_at = some now;
  error_type = none;
  error_message = none;
  state_detail = none;
}

record_output-eq-ok :
    (claim : Claim) (step_id payload : String) (now : ℕ) (j : Journal) (row : StepRow)
    {u : Unit {0}} {k : Journal}
    → find (claim.execution_id, step_id) j.steps ≡ some row
    → record_output claim step_id payload now j ≡ ok (u, k)
    → k.events
      ≡ j.events ++ event claim step_id EventKind.step_succeeded (row.attempts + 1) now ∷ []
unfolding record_output
record_output-eq-ok claim step_id payload now j row found e =
    let (row', m, first, second) =
      >>=-eq-ok (step_row claim.execution_id step_id)
        (λ (r : StepRow).
          set_step_state claim step_id StepState.succeeded now (succeeded payload now) []
          >> finish claim step_id (r.attempts + 1) now)
        j e in
    let (found', same) = step_row-eq-ok claim.execution_id step_id j first in
    let (u, l, third, last) =
      >>=-eq-ok (set_step_state claim step_id StepState.succeeded now (succeeded payload now) [])
        (λ u. finish claim step_id (row'.attempts + 1) now) m second in
    let (set, events) =
      set_step_state-found claim step_id StepState.succeeded now (succeeded payload now) [] m row'
        (subst (λ (x : Journal). find (claim.execution_id, step_id) x.steps ≡ some row') (sym same)
          found')
        third in
    let one : row' ≡ row = cc in
    let written = (finish-eq-ok claim step_id (row'.attempts + 1) now l last).0 in
    written
    ∙ ap (λ es. es ++ event claim step_id EventKind.step_succeeded (row'.attempts + 1) now ∷ [])
        (events ∙ ap (λ (x : Journal). x.events) same)
    ∙ ap
        (λ (r : StepRow).
          j.events ++ event claim step_id EventKind.step_succeeded (r.attempts + 1) now ∷ [])
        one

pub lift-eq-ok :
    {A : Type 0} (r : Result A) (j : Journal) {a : A} {k : Journal}
    → lift r j ≡ ok (a, k)
    → (k ≡ j) × (r ≡ ok a)
lift-eq-ok r j e = ground arith

module _ {V : Type 0} (payloads : Payloads V) (claim : Claim) (step_id : String)
    (key : Option String) (now later : ℕ) (output : V) (j k l : Journal) (n : ℕ) where
  -- If an attempt of a step starts as number `n` and then succeeds, the journal gets two events for
  -- it: the start with the number `n`, and the success with the number `n + 1`.
  pub complete_step-start_step :
      start_step claim step_id key now j ≡ ok (n, k)
      → complete_step payloads claim step_id output later k ≡ ok (tt, l)
      → l.events
        ≡ j.events
          ++ event claim step_id EventKind.step_started n now
            ∷ event claim step_id EventKind.step_succeeded (n + 1) later
            ∷ []
  unfolding complete_step
  complete_step-start_step first second =
      let (payload, m, dumped, recorded) =
        >>=-eq-ok (lift (dump payloads output))
          (λ payload. record_output claim step_id payload later) k second in
      let (row, found, number, begun) = start_step-eq-ok claim step_id key now j first in
      let same = (lift-eq-ok (dump payloads output) k dumped).0 in
      let written =
        record_output-eq-ok claim step_id payload later m row
          (subst (λ (x : Journal). find (claim.execution_id, step_id) x.steps ≡ some row) (sym same)
            found)
          recorded in
      let before : m.events ≡ j.events ++ event claim step_id EventKind.step_started n now ∷ [] =
        ap (λ (x : Journal). x.events) same ∙ begun in
      simp (written, before, number, append_assoc)
