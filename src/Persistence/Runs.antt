-- ===== src/Persistence/Runs.antt =====
-- persistence/remote.py: runs, requests and checkpoints. Each write is a step on the tables that may
-- raise; the caller's transaction undoes what a raising write has done.
use data_processing.Prelude.{
  ℕ, suc, String, Option, none, some, List, [], ◌∷◌, ◌++◌, Bool, true, false, not, ◌&&◌, ◌||◌,
  length, str_eq, ◌==◌, leb, if◌then◌else◌, first_chars,
}
use data_processing.Effect.{Outcome, returned, raised, unfinished, Step}
use data_processing.RemoteSync.Types.{AdapterOutcome, response_too_large, Exception, value_error}
use data_processing.Persistence.Tables.{
  Db, RunRow, RemoteRunRecord, Finish, RequestRow, RemoteRequestRecord, CheckpointRow,
  RemoteCheckpointRecord, find, update, row_count, same_transport, same_operation,
}

abbrev pub Write : Type 0 → Type 0 → Type 0
Write C A = Step Exception (Db C) A

-- `validate_remote_outcome`: of the outcomes of an adapter, one is not in `REMOTE_OUTCOMES`.
unfoldable pub validate_remote_outcome : AdapterOutcome → Outcome Exception AdapterOutcome
validate_remote_outcome response_too_large =
    raised (value_error "unsupported remote outcome: response_too_large")
validate_remote_outcome o = returned o

-- `platform_id` of persistence/support.py
unfoldable pub platform_id : String → List (String × ℕ) → Option ℕ
platform_id platform [] = none
platform_id platform ((key, id) ∷ rest) =
    if str_eq key platform then some id else platform_id platform rest

unfoldable pub is_run : ℕ → RunRow → Bool
is_run run_id row = row.run_id == run_id

unfoldable pub is_running : Option Finish → Bool
is_running none = true
is_running (some f) = false

-- `WHERE remote_run_id = ? AND status = 'running'`
unfoldable pub is_running_run : ℕ → RunRow → Bool
unfolding is_run is_running
is_running_run run_id row = is_run run_id row && is_running row.finish

unfoldable pub is_attempt : ℕ → ℕ → RequestRow → Bool
is_attempt run_id attempt row =
    row.recorded.remote_run_id == run_id && row.recorded.attempt_number == attempt

unfoldable pub is_checkpoint_of : RemoteCheckpointRecord → CheckpointRow → Bool
unfolding same_operation
is_checkpoint_of c row =
    row.saved.remote_run_id == c.remote_run_id
    && same_operation row.saved.operation c.operation
    && str_eq row.saved.target c.target

-- `RemoteRequestRecord.__post_init__`, less its tests of texts: the ids are positive, the outcome is
-- one of `REMOTE_OUTCOMES`, and a status code is between 100 and 599.
unfoldable pub validate_request : RemoteRequestRecord → Outcome Exception RemoteRequestRecord
unfolding validate_remote_outcome
validate_request record_ =
    if record_.remote_run_id == 0 || record_.attempt_number == 0
    then raised (value_error "remote request ids must be positive")
    else elim (validate_remote_outcome record_.outcome) [
      | raised e ↦ raised e
      | unfinished ↦ unfinished
      | returned _ ↦ elim record_.status_code [
        | none ↦ returned record_
        | some status ↦
            if leb 100 status && leb status 599
            then returned record_
            else raised (value_error "remote response status must be a valid HTTP status")
      ]
    ]

-- `RemoteRunRecord.__post_init__`, less its tests of texts.
unfoldable pub validate_run : RemoteRunRecord → Outcome Exception RemoteRunRecord
validate_run record_ =
    if record_.request_budget == 0
      || record_.page_budget == 0
      || record_.record_budget == 0
      || record_.time_budget_seconds == 0
    then raised (value_error "remote run budgets must be positive")
    else returned record_

-- The diagnostic is cut to 1000 characters.
unfoldable pub cut_finish : Finish → Finish
cut_finish f = record f {
  diagnostic_summary = elim f.diagnostic_summary [
    | none ↦ none
    | some d ↦ some (first_chars 1000 d)
  ];
}

module _ {C : Type 0} where
  -- The row that `begin_remote_run` adds.
  unfoldable pub new_run : RemoteRunRecord → ℕ → Db C → RunRow
  new_run record_ platform db = record {
    run_id = suc (length db.runs);
    platform_id = platform;
    declared = record_;
    finish = none;
  }

  -- With the id of the platform, once it is looked up.
  unfoldable pub begin_on : RemoteRunRecord → Option ℕ → Write C ℕ
  unfolding new_run
  begin_on record_ none db = (raised (value_error "unknown catalog platform"), db)
  begin_on record_ (some platform) db = (
    returned (suc (length db.runs)),
    record db { runs = db.runs ++ new_run record_ platform db ∷ [] },
  )

  unfoldable pub begin_remote_run : RemoteRunRecord → Write C ℕ
  unfolding platform_id begin_on
  begin_remote_run record_ db = begin_on record_ (platform_id record_.platform db.platforms) db

  unfoldable pub write_finish : ℕ → Finish → Write C (Unit {0})
  unfolding cut_finish
  write_finish run_id finish db =
      if row_count (is_running_run run_id) db.runs == 1
      then (
        returned tt,
        record db {
          runs =
              update (is_running_run run_id)
                (λ row. record row { finish = some (cut_finish finish) }) db.runs;
        },
      )
      else (raised (value_error "remote run is missing or already finished"), db)

  -- The status is never `running`: that is not the status of a `Finish`.
  unfoldable pub finish_remote_run : ℕ → Finish → Write C (Unit {0})
  unfolding validate_remote_outcome write_finish
  finish_remote_run run_id finish db = elim (validate_remote_outcome finish.termination_outcome) [
    | returned _ ↦ write_finish run_id finish db
    | raised e ↦ (raised e, db)
    | unfinished ↦ (unfinished, db)
  ]

  insert_request : RemoteRequestRecord → Write C ℕ
  insert_request record_ db = (
    returned (suc (length db.requests)),
    record db {
      requests =
          db.requests
          ++ record {
            request_id = suc (length db.requests);
            recorded = record_;
            raw_observation_id = none;
          }
            ∷ [];
    },
  )

  existing_request : RemoteRequestRecord → RequestRow → Write C ℕ
  existing_request record_ row db =
      if not (str_eq row.recorded.request_identity record_.request_identity)
      then (raised (value_error "remote attempt number belongs to another request identity"), db)
      else if not (same_transport row.recorded.transport record_.transport)
      then (raised (value_error "remote attempt transport identity does not match"), db)
      else (returned row.request_id, db)

  unfoldable pub record_remote_request : RemoteRequestRecord → Write C ℕ
  unfolding existing_request insert_request same_transport is_run is_attempt find
  record_remote_request record_ db = elim (find (is_run record_.remote_run_id) db.runs) [
    | none ↦ (raised (value_error "remote run is missing"), db)
    | some run ↦
        if not (same_transport run.declared.transport record_.transport)
        then (raised (value_error "remote request transport identity does not match its run"), db)
        else elim (find (is_attempt record_.remote_run_id record_.attempt_number) db.requests) [
          | some row ↦ existing_request record_ row db
          | none ↦ insert_request record_ db
        ]
  ]

  -- The insertion, or the update of the row in conflict.
  upsert_checkpoint : RemoteCheckpointRecord → Write C ℕ
  upsert_checkpoint c db = elim (find (is_checkpoint_of c) db.checkpoints) [
    | some row ↦ (
      returned row.checkpoint_id,
      record db {
        checkpoints = update (is_checkpoint_of c) (λ r. record r { saved = c }) db.checkpoints;
      },
    )
    | none ↦ (
      returned (suc (length db.checkpoints)),
      record db {
        checkpoints =
            db.checkpoints
            ++ record { checkpoint_id = suc (length db.checkpoints); saved = c } ∷ [];
      },
    )
  ]

  unfoldable pub save_remote_checkpoint : RemoteCheckpointRecord → Write C ℕ
  unfolding upsert_checkpoint same_transport is_run is_checkpoint_of find update
  save_remote_checkpoint c db = elim (find (is_run c.remote_run_id) db.runs) [
    | none ↦ (raised (value_error "remote run is missing"), db)
    | some run ↦
        if not (same_transport run.declared.transport c.transport)
        then (raised (value_error "checkpoint transport identity does not match its run"), db)
        else upsert_checkpoint c db
  ]
