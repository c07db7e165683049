-- ===== src/Durable/Examples/Submitting.antt =====
-- Submissions of src/xyberos/durable/store.py under one execution id.
use xyberos.Prelude.{
  ℕ, String, ◌≡◌, not, some, none, List, [], ◌∷◌, refl, string_eq, pair_eq, ◌==◌, if◌then◌else◌,
}
use xyberos.Errors.{ok, err, durable_conflict, durable_version}
use xyberos.Table.{find, upsert}
use xyberos.Durable.Models.{ExecutionStatus}
use xyberos.Durable.Rows.{ExecutionRow, Journal, empty}
use xyberos.Durable.Txn.{commit, append_event, insert_definition, insert_execution, insert_step}
use xyberos.Durable.Store.Submission.{
  Submission, ExecutionHandle, handle_of, register_row, submit_row, submit, insert_submission,
  insert_steps,
}
use xyberos.Durable.Store.History
use xyberos.Durable.Store.History.{Call, replay}
use xyberos.Durable.Store.Resubmission.{IsRefused}
use xyberos.Durable.Store.Resubmission.Histories.{submit-twice, submit_other-IsRefused}
use xyberos.Durable.Examples.{payloads, blank, submission}

abbrev other_input : Submission
other_input = record submission { payload = "[]" }

abbrev handle : ExecutionHandle
handle = record {
  execution_id = "run";
  workflow = "flow";
  version = "1";
  status = ExecutionStatus.pending;
}

abbrev other_version : Submission
other_version = record submission { version = "2" }

abbrev after_submit : Journal
after_submit = (submit (replay payloads blank 10 []) submission "{}" 1 1 empty).1

abbrev between : List (Call String × ℕ)
between = (History.cancels "run" none, 3) ∷ []

abbrev in_between : Journal
in_between = replay payloads blank 10 between after_submit

-- The execution is cancelled after the first submission, and a worker asks for work during the
-- second.
abbrev during : List (Call String × ℕ)
during = (History.claims "w" none, 5) ∷ []

submit-twice_example :
    (row : ExecutionRow) × (find "run" (replay payloads blank 10 during in_between).executions
      ≡ some row)
    × (submit (replay payloads blank 10 during) other_input "{}" 5 6 in_between ≡ (
        if not (submission.fingerprint == other_input.fingerprint)
        then (err durable_version, in_between)
        else (
          if submission.payload == other_input.payload
              then ok (handle_of submission row)
              else err durable_conflict,
          replay payloads blank 10 during in_between,
        )))
unfolding commit submit register_row insert_definition submit_row insert_submission insert_steps
    insert_execution insert_step append_event find upsert replay
submit-twice_example =
    submit-twice payloads blank 10 submission other_input "{}" "{}" 1 1 5 6 [] between during empty
      after_submit handle refl refl refl refl

submit_other-IsRefused_example :
    IsRefused
      (replay payloads blank 10 during)
      other_version
      in_between
      (commit (register_row "flow" "2" "f" "{}" 5) in_between).1
      (submit (replay payloads blank 10 during) other_version "{}" 5 6 in_between)
unfolding commit submit register_row insert_definition submit_row insert_submission insert_steps
    insert_execution insert_step append_event find upsert replay
submit_other-IsRefused_example =
    submit_other-IsRefused payloads blank 10 submission other_version "{}" "{}" 1 1 5 6 [] between
      during empty after_submit handle refl refl refl
