-- ===== src/RemoteSync/Service.antt =====
-- remote_sync/service.py: `MetadataSyncService`, which runs the executor for one operation and target,
-- and writes the run, its requests with their raw responses, its checkpoints and its end into the
-- catalog.
pub mod Sync
pub mod Keeps
pub mod Ends
pub mod Opening
pub mod Resume
pub mod Conclusion
pub mod Closing
use data_processing.Prelude.{
  ℕ, ◌+◌, ◌≤◌, String, Option, none, some, List, [], ◌∷◌, Bool, true, false, not, ◌&&◌, length,
  str_eq, ◌==◌, ltb, leb, if◌then◌else◌, first_chars, ◌<>◌,
}
use data_processing.Effect.{
  Outcome, returned, raised, unfinished, Answer, answered, failed, Step, pure, raise, of_outcome,
  from_answer, ◌>>=◌, ◌>>◌,
}
use data_processing.RemoteSync.Types.{
  Exception, exhausted, adapter_failure, value_error, other, AdapterOperation, fetch_account,
  fetch_post, list_account_posts, fetch_attribution, fetch_tag, fetch_tag_alias, fetch_pool,
  AdapterOutcome, success, unavailable, deleted, authentication_required, authorization_denied,
  rate_limited, transient_provider, malformed_response, budget_exhausted, local_persistence,
  Boundary, time_boundary, request_boundary, page_boundary, record_boundary, AdapterRequest,
  Continuation, ResponseEnvelope, NormalizedPage, record_count,
}
use data_processing.RemoteSync.Session.{SyncLimits, BudgetTracker, Session, Run, monotonic}
use data_processing.RemoteSync.Budget
use data_processing.RemoteSync.Budget.{new_tracker}
use data_processing.RemoteSync.Gate.{Signed}
use data_processing.RemoteSync.Executor
use data_processing.RemoteSync.Executor.{
  RetainedPage, Calls, default_request, continue_metadata_pages,
}
use data_processing.Persistence.Tables.{
  Db, RunRow, RemoteRunRecord, FinishStatus, complete, paused, failed_run, Finish,
  RemoteRequestRecord, RemoteCheckpointRecord, CheckpointRow, find, same_transport, same_operation,
}
use data_processing.Persistence.Runs.{
  Write, is_run, platform_id, validate_run, validate_request, begin_remote_run, finish_remote_run,
  record_remote_request, save_remote_checkpoint,
}
use data_processing.Persistence.Raw.{store_raw}

-- `_response_outcome`
unfoldable pub response_outcome : ℕ → AdapterOutcome
response_outcome status =
    if leb 200 status && ltb status 300
    then success
    else if status == 401
    then authentication_required
    else if status == 403
    then authorization_denied
    else if status == 404
    then unavailable
    else if status == 410
    then deleted
    else if status == 429
    then rate_limited
    else if leb 500 status
    then transient_provider
    else malformed_response

-- `_operation_object_kind`: a dictionary that has no entry for the operations on commentary and notes.
unfoldable pub operation_object_kind : AdapterOperation → Outcome Exception String
operation_object_kind fetch_account = returned "account"
operation_object_kind fetch_post = returned "post"
operation_object_kind list_account_posts = returned "post"
operation_object_kind fetch_attribution = returned "attribution"
operation_object_kind fetch_tag = returned "tag"
operation_object_kind fetch_tag_alias = returned "tag_alias"
operation_object_kind fetch_pool = returned "pool"
operation_object_kind _ = raised (other "KeyError")

-- `Adapter`: what it declares, and what it answers.
pub record Adapter : Type 0 where
  pub instance_key : String
  pub adapter_version : String
  pub schema_version : String
  pub transport_identity : Option (String × String)
  pub minimum_interval_seconds : Signed
  pub fetch : ℕ → AdapterRequest → Answer Exception ResponseEnvelope
  pub normalize : ResponseEnvelope → Answer Exception NormalizedPage

-- `RemoteSyncOrigin`: hooks that write the rest of the catalog in the transactions of a run.
pub record Origin (C : Type 0) : Type 0 where
  pub reference : String
  pub bind_run : ℕ → C → Answer Exception (Unit {0}) × C
  pub record_page : RetainedPage → C → Answer Exception (Unit {0}) × C

-- The parts of the service that are not of this module: `NormalizedPageWriter`, the digest of `hashlib`,
-- and the text of the header Content-Type that is the media type of a response.
pub record Writers (C : Type 0) : Type 0 where
  pub write_page : RetainedPage → C → Answer Exception (Unit {0}) × C
  pub sha256 : List ℕ → String
  pub media_type : ResponseEnvelope → String

-- `SyncResult`
pub record SyncResult : Type 0 where
  pub remote_run_id : ℕ
  pub resumed_from_run_id : Option ℕ
  pub end : Finish

module _ {C : Type 0} where
  -- A hook or writer that works on the rest of the catalog.
  unfoldable pub on_catalog : (C → Answer Exception (Unit {0}) × C) → Write C (Unit {0})
  on_catalog f db = let r = f db.catalog in (from_answer r.0, record db { catalog = r.1 })

  -- A hook of the origin, if there is one.
  unfoldable pub on_origin :
      Option (Origin C) → (Origin C → C → Answer Exception (Unit {0}) × C) → Write C (Unit {0})
  unfolding on_catalog
  on_origin none hook db = (returned tt, db)
  on_origin (some o) hook db = on_catalog (hook o) db

  undo : {A : Type 0} → Db C → Outcome Exception A × Db C → Outcome Exception A × Db C
  undo db (raised e, db') = (raised e, db)
  undo db r = r

  -- A transaction of writes alone.
  unfoldable pub write_transaction : {A : Type 0} → Write C A → Write C A
  unfolding undo
  write_transaction m db = undo db (m db)

  -- A step on the tables, as a step of the session.
  unfoldable pub on_store : {A : Type 0} → Write C A → Run (Db C) A
  on_store m s = let r = m s.store in (r.0, record s { store = r.1 })

  roll_back :
      {A : Type 0}
      → Db C
      → Outcome Exception A × Session (Db C)
      → Outcome Exception A × Session (Db C)
  roll_back db (returned a, s) = (returned a, s)
  roll_back db (raised e, s) = (raised e, record s { store = db })
  roll_back db (unfinished, s) = (unfinished, s)

  -- `CatalogDatabase.transaction`: a raise rolls the tables back, and nothing else of the session. No
  -- transaction of this module runs inside another.
  unfoldable pub transaction : {A : Type 0} → Run (Db C) A → Run (Db C) A
  unfolding roll_back
  transaction m s = roll_back s.store (m s)

-- The keyword arguments of `_finish`, in the order of its calls.
unfoldable pub finish_of : FinishStatus → AdapterOutcome → BudgetTracker → Finish
finish_of status outcome budget = record {
  status = status;
  termination_outcome = outcome;
  request_count = budget.requests;
  page_count = budget.pages;
  record_count = budget.records;
  budget_boundary = none;
  retry_after = none;
  diagnostic_summary = none;
}

unfoldable pub boundary_name : Boundary → String
boundary_name time_boundary = "time"
boundary_name request_boundary = "request"
boundary_name page_boundary = "page"
boundary_name record_boundary = "record"

-- How the end of `executor.execute` ends the run: the four `except` clauses, and the return.
unfoldable pub end_of : {A : Type 0} → Outcome Exception A → BudgetTracker → Finish
unfolding finish_of boundary_name
end_of (returned _) budget = finish_of complete success budget
end_of (raised (exhausted boundary)) budget = record (finish_of paused budget_exhausted budget) {
  budget_boundary = some boundary;
  diagnostic_summary =
      some ("remote synchronization " <> boundary_name boundary <> " budget exhausted");
}
end_of (raised (adapter_failure f)) budget = record (finish_of failed_run f.outcome budget) {
  retry_after = f.retry_at;
  diagnostic_summary = some f.public_message;
}
end_of (raised (value_error error)) budget =
    record (finish_of failed_run local_persistence budget) {
      diagnostic_summary = some (first_chars 200 ("metadata request validation failed: " <> error));
    }
end_of (raised (other kind)) budget = record (finish_of failed_run local_persistence budget) {
  diagnostic_summary = some ("local metadata persistence failed (" <> kind <> ")");
}
end_of unfinished budget = finish_of failed_run local_persistence budget

-- Whether the `except` clause goes on to raise `RuntimeError`.
unfoldable pub reraises : {A : Type 0} → Outcome Exception A → Bool
reraises (raised (value_error _)) = true
reraises (raised (other _)) = true
reraises _ = false
