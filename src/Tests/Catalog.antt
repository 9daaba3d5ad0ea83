-- ===== src/Tests/Catalog.antt =====
-- The tables at concrete inputs.
use data_processing.Prelude.{none, some, [], ◌∷◌, ◌≡◌, ◌≤◌, refl, arith}
use data_processing.Effect.{returned}
use data_processing.Persistence.Tables.{Db, find, row_count}
use data_processing.Persistence.Runs.{
  is_checkpoint_of, record_remote_request, save_remote_checkpoint,
}
use data_processing.Persistence.RunLaws.{record_again, save-finds, save_unique}
use data_processing.Tests.Data.{paused_db, one_run_db, example_checkpoint, example_request_record}

abbrev recorded_db : Db (Unit {0})
recorded_db = record one_run_db {
  requests =
      record { request_id = 1; recorded = example_request_record; raw_observation_id = none } ∷ [];
}

recorded_test : record_remote_request example_request_record one_run_db ≡ (returned 1, recorded_db)
unfolding record_remote_request
recorded_test = refl

record_again_example :
    record_remote_request example_request_record recorded_db ≡ (returned 1, recorded_db)
record_again_example = record_again example_request_record 1 one_run_db recorded_db recorded_test

saved_test : save_remote_checkpoint example_checkpoint paused_db ≡ (returned 1, paused_db)
unfolding save_remote_checkpoint
saved_test = refl

save-finds_example :
    find (is_checkpoint_of example_checkpoint) paused_db.checkpoints
    ≡ some (record { checkpoint_id = 1; saved = example_checkpoint })
save-finds_example = save-finds example_checkpoint 1 paused_db paused_db saved_test

one_checkpoint : row_count (is_checkpoint_of example_checkpoint) paused_db.checkpoints ≤ 1
unfolding row_count is_checkpoint_of
one_checkpoint = ground arith

save_unique_example :
    row_count
      (is_checkpoint_of example_checkpoint)
      (save_remote_checkpoint example_checkpoint paused_db).1.checkpoints
    ≤ 1
save_unique_example = save_unique example_checkpoint example_checkpoint paused_db one_checkpoint
