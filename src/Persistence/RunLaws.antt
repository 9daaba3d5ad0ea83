-- ===== src/Persistence/RunLaws.antt =====
-- What the writes of runs, requests and checkpoints promise to a caller who writes again.
use data_processing.Prelude.{
  ℕ, suc, none, some, List, [], ◌∷◌, ◌++◌, true, ◌≡◌, refl, ◌≤◌, eq_iff, arith, length,
  Option-cases, inl, inr,
}
use data_processing.Effect.{returned}
use data_processing.Persistence.Tables.{
  Db, RemoteRequestRecord, RemoteCheckpointRecord, RequestRow, CheckpointRow, find, update,
  row_count,
}
use data_processing.Persistence.Rows.{
  find-append, find-update, row_count-update, row_count-append, str_eq_refl, same_transport_refl,
  same_operation_refl,
}
use data_processing.Persistence.Runs.{
  is_attempt, is_checkpoint_of, record_remote_request, save_remote_checkpoint,
}

is_attempt_self :
    (r : RemoteRequestRecord) (row : RequestRow)
    → row.recorded ≡ r
    → is_attempt r.remote_run_id r.attempt_number row ≡ true
unfolding is_attempt
is_attempt_self r row h = ground (arith, h)

is_checkpoint_of_self :
    (c : RemoteCheckpointRecord) (row : CheckpointRow)
    → row.saved ≡ c
    → is_checkpoint_of c row ≡ true
unfolding is_checkpoint_of
is_checkpoint_of_self c row h =
    ground (arith, h, same_operation_refl c.operation, str_eq_refl c.target)

-- The update of a checkpoint that is in conflict.
abbrev overwrite : RemoteCheckpointRecord → CheckpointRow → CheckpointRow
overwrite c row = record row { saved = c }

updated-finds :
    (c : RemoteCheckpointRecord) (rows : List CheckpointRow) (row : CheckpointRow)
    → find (is_checkpoint_of c) rows ≡ some row
    → find (is_checkpoint_of c) (update (is_checkpoint_of c) (overwrite c) rows)
      ≡ some (overwrite c row)
updated-finds c rows row h =
    find-update (is_checkpoint_of c) (overwrite c) rows row
      (λ r k. is_checkpoint_of_self c (overwrite c r) refl) h

-- A row in conflict keeps its key.
same_key :
    (c k : RemoteCheckpointRecord) (row : CheckpointRow)
    → is_checkpoint_of c row ≡ true
    → is_checkpoint_of k (overwrite c row) ≡ is_checkpoint_of k row
unfolding is_checkpoint_of
same_key c k row h = ground (arith, (eq_iff row.saved.target c.target).0)

-- Rows that pass the test of one key pass that of the same key.
other_key :
    (c k : RemoteCheckpointRecord) (row new : CheckpointRow)
    → new.saved ≡ c
    → is_checkpoint_of k new ≡ true
    → is_checkpoint_of k row ≡ is_checkpoint_of c row
unfolding is_checkpoint_of
other_key c k row new e h = ground (arith, e, (eq_iff new.saved.target k.target).0)

new_key-count :
    (c k : RemoteCheckpointRecord) (rows : List CheckpointRow) (new : CheckpointRow)
    → new.saved ≡ c
    → find (is_checkpoint_of c) rows ≡ none
    → is_checkpoint_of k new ≡ true
    → row_count (is_checkpoint_of k) rows ≡ 0
unfolding row_count find
new_key-count c k [] new e h t = refl
new_key-count c k (row ∷ rows) new e h t =
    ground (arith, other_key c k row new e t, new_key-count c k rows new e)

appended_unique :
    (c k : RemoteCheckpointRecord) (rows : List CheckpointRow) (new : CheckpointRow)
    → new.saved ≡ c
    → find (is_checkpoint_of c) rows ≡ none
    → row_count (is_checkpoint_of k) rows ≤ 1
    → row_count (is_checkpoint_of k) (rows ++ new ∷ []) ≤ 1
unfolding row_count
appended_unique c k rows new e h u =
    ground (arith, row_count-append (is_checkpoint_of k) rows new, new_key-count c k rows new e h)

module _ {C : Type 0} where
  abbrev added : RemoteRequestRecord → Db C → RequestRow
  added r db = record {
    request_id = suc (length db.requests);
    recorded = r;
    raw_observation_id = none;
  }

  -- Recording a request a second time returns the same id and changes nothing.
  pub record_again :
      (r : RemoteRequestRecord) (id : ℕ) (db db' : Db C)
      → record_remote_request r db ≡ (returned id, db')
      → record_remote_request r db' ≡ (returned id, db')
  unfolding record_remote_request
  record_again r id db db' h = ground (
    arith,
    find-append (is_attempt r.remote_run_id r.attempt_number) db.requests (added r db),
    is_attempt_self r (added r db) refl,
    str_eq_refl r.request_identity,
    same_transport_refl r.transport,
  )

  abbrev saved_first : RemoteCheckpointRecord → Db C → CheckpointRow
  saved_first c db = record { checkpoint_id = suc (length db.checkpoints); saved = c }

  -- A checkpoint that is saved is the one that is found for its run, operation and target.
  pub save-finds :
      (c : RemoteCheckpointRecord) (id : ℕ) (db db' : Db C)
      → save_remote_checkpoint c db ≡ (returned id, db')
      → find (is_checkpoint_of c) db'.checkpoints ≡ some (record { checkpoint_id = id; saved = c })
  unfolding save_remote_checkpoint
  save-finds c id db db' h = elim (Option-cases (find (is_checkpoint_of c) db.checkpoints)) [
    | inl e ↦ ground (
      arith,
      h,
      e,
      find-append (is_checkpoint_of c) db.checkpoints (saved_first c db) e
          (is_checkpoint_of_self c (saved_first c db) refl),
    )
    | inr (row, e) ↦ ground (arith, h, e, updated-finds c db.checkpoints row e)
  ]

  -- A run, operation and target that have at most one checkpoint have at most one after a save,
  -- whichever checkpoint is saved and whether the save raises.
  pub save_unique :
      (c k : RemoteCheckpointRecord) (db : Db C)
      → row_count (is_checkpoint_of k) db.checkpoints ≤ 1
      → row_count (is_checkpoint_of k) (save_remote_checkpoint c db).1.checkpoints ≤ 1
  unfolding save_remote_checkpoint
  save_unique c k db u = ground (
    arith,
    appended_unique c k db.checkpoints (saved_first c db) refl,
    row_count-update (is_checkpoint_of k) (is_checkpoint_of c) (overwrite c) db.checkpoints
        (same_key c k),
  )
