-- ===== src/RemoteSync/Service/Sync.antt =====
-- remote_sync/service.py: the callbacks of the service and `synchronize`.
use data_processing.Prelude.{
  ℕ, String, Option, none, some, List, [], Bool, true, false, ◌&&◌, length, str_eq, ◌==◌,
  if◌then◌else◌,
}
use mathlib.Core.List.{reverse}
use data_processing.Effect.{
  Outcome, returned, raised, unfinished, pure, raise, of_outcome, ◌>>=◌, ◌>>◌,
}
use data_processing.RemoteSync.Types.{
  Exception, value_error, other, AdapterOperation, Continuation, ResponseEnvelope, record_count,
}
use data_processing.RemoteSync.Stored.{Json, to_json, from_json}
use data_processing.RemoteSync.Session.{SyncLimits, Run, monotonic}
use data_processing.RemoteSync.Budget
use data_processing.RemoteSync.Budget.{new_tracker}
use data_processing.RemoteSync.Gate.{GateArguments, GateSettings}
use data_processing.RemoteSync.Executor
use data_processing.RemoteSync.Executor.{
  RetainedPage, Calls, default_request, continue_metadata_pages, executor_gate,
}
use data_processing.RemoteSync.Service.{
  Adapter, Origin, Writers, SyncResult, on_catalog, on_origin, on_store, transaction,
  write_transaction, end_of, reraises, response_outcome, operation_object_kind,
}
use data_processing.Persistence.Tables.{
  Db, RunRow, RemoteRunRecord, complete, paused, Finish, RemoteRequestRecord,
  RemoteCheckpointRecord, CheckpointRow, find, same_transport, same_operation,
}
use data_processing.Persistence.Runs.{
  Write, is_run, platform_id, validate_run, validate_request, begin_remote_run, finish_remote_run,
  record_remote_request, save_remote_checkpoint,
}
use data_processing.Persistence.Raw.{store_raw}

-- What a call of `synchronize` is made with, in a service over `adapter`.
pub record Service (C : Type 0) : Type 0 where
  pub adapter : Adapter
  pub writers : Writers C
  pub json : Json
  pub gate : GateArguments
  pub operation : AdapterOperation
  pub target : String
  pub limits : SyncLimits
  -- `max(1, int(limits.elapsed_seconds))`
  pub time_budget_seconds : ℕ
  pub origin : Option (Origin C)

module _ {C : Type 0} (service : Service C) where
  open service use {adapter, writers, operation, target, limits, origin}

  -- The record of the attempt, and the raw observation of its response.
  unfoldable pub request_record : ℕ → ℕ → ResponseEnvelope → RemoteRequestRecord
  request_record run_id attempt response = record {
    remote_run_id = run_id;
    attempt_number = attempt;
    request_identity = response.request_identity;
    operation = response.operation;
    target = target;
    outcome = response_outcome response.status_code;
    status_code = some response.status_code;
    response_size = some (length response.payload);
    transport = response.transport;
  }

  unfoldable pub write_response : ℕ → ℕ → ResponseEnvelope → Write C ℕ
  unfolding request_record
  write_response run_id attempt response = do
    checked ← of_outcome (validate_request (request_record run_id attempt response))
    request_id ← record_remote_request checked
    kind ← of_outcome (operation_object_kind response.operation)
    store_raw writers.sha256
        (record {
          payload = response.payload;
          media_type = writers.media_type response;
          object_kind = kind;
          native_id = some target;
          platform = some adapter.instance_key;
          status = none;
          transport = response.transport;
        })
        (record {
          import_run_id = none;
          remote_run_id = some run_id;
          remote_request_id = some request_id;
        })

  -- `_retain_response`
  unfoldable pub retain_response : ℕ → ResponseEnvelope → ℕ → Write C ℕ
  unfolding write_response write_transaction
  retain_response run_id response attempt db =
      if same_transport response.transport adapter.transport_identity
      then write_transaction (write_response run_id attempt response) db
      else (
        raised (value_error "response transport identity is incompatible with this adapter"),
        db,
      )

  unfoldable pub record_origin : RetainedPage → Write C (Unit {0})
  record_origin page = on_origin origin (λ o. o.record_page page)

  checkpoint_record : ℕ → RetainedPage → Continuation → ℕ → RemoteCheckpointRecord
  unfolding to_json
  checkpoint_record run_id page c page_count = record {
    remote_run_id = run_id;
    operation = operation;
    target = target;
    continuation_adapter = c.adapter;
    continuation_version = c.version;
    continuation_json = to_json service.json c;
    last_page_identity = some page.response.request_identity;
    page_count = page_count;
    transport = adapter.transport_identity;
  }

  unfoldable pub save_position : ℕ → RetainedPage → Option Continuation → Run (Db C) (Unit {0})
  unfolding checkpoint_record
  save_position run_id page none s = (returned tt, s)
  save_position run_id page (some c) s =
      (do on_store (save_remote_checkpoint (checkpoint_record run_id page c s.pages)); pure tt) s

  -- A page with a continuation leaves a checkpoint, which counts the page.
  unfoldable pub save_checkpoint : ℕ → RetainedPage → Run (Db C) (Unit {0})
  save_checkpoint run_id page = save_position run_id page page.page.continuation

  -- The body of the transaction of `_commit_page`.
  unfoldable pub commit_body : ℕ → RetainedPage → Run (Db C) (Unit {0})
  commit_body run_id page = do
    on_store (on_catalog (writers.write_page page))
    on_store (record_origin page)
    Budget.commit_page (record_count page.page)
    save_checkpoint run_id page

  -- `_commit_page`
  unfoldable pub commit_page : ℕ → RetainedPage → Run (Db C) (Unit {0})
  unfolding record_origin save_checkpoint save_position on_catalog on_origin on_store
  commit_page run_id page = transaction (commit_body run_id page)

  -- `_resume_continuation`: the run's last checkpoint, if the run may be resumed by this request.
  unfoldable pub is_of_run : ℕ → CheckpointRow → Bool
  is_of_run run_id row = row.saved.remote_run_id == run_id

  -- The status is `paused` or `complete`.
  unfoldable pub may_resume : Option Finish → Bool
  may_resume none = false
  may_resume (some f) = elim f.status [ complete ↦ true | paused ↦ true | _ ↦ false ]

  unfoldable pub is_compatible : RunRow → CheckpointRow → Option ℕ → Bool
  unfolding same_operation same_transport
  is_compatible run checkpoint platform = elim platform [
    | none ↦ false
    | some id ↦
        run.platform_id == id
        && same_operation run.declared.operation operation
        && str_eq run.declared.target target
        && str_eq run.declared.adapter_version adapter.adapter_version
        && str_eq run.declared.schema_version adapter.schema_version
        && same_transport run.declared.transport adapter.transport_identity
        && same_transport checkpoint.saved.transport adapter.transport_identity
  ]

  unfoldable pub last_of_run : ℕ → List CheckpointRow → Option CheckpointRow
  unfolding is_of_run
  last_of_run run_id rows = find (is_of_run run_id) (reverse rows)

  unfoldable pub some_continuation :
      Outcome Exception Continuation → Outcome Exception (Option Continuation)
  some_continuation (returned c) = returned (some c)
  some_continuation (raised e) = raised e
  some_continuation unfinished = unfinished

  unfoldable pub resume_from :
      Option RunRow → Option CheckpointRow → Option ℕ → Outcome Exception (Option Continuation)
  unfolding may_resume is_compatible from_json some_continuation
  resume_from (some run) (some checkpoint) platform =
      if may_resume run.finish
      then elim platform [
        | none ↦ raised (value_error "unknown catalog platform")
        | some id ↦
            if is_compatible run checkpoint (some id)
            then some_continuation (from_json service.json checkpoint.saved.continuation_json)
            else raised (value_error "resume checkpoint is incompatible with this adapter request")
      ]
      else raised (value_error "resume run has no committed checkpoint")
  resume_from _ _ platform = raised (value_error "resume run has no committed checkpoint")

  unfoldable pub resume_continuation : Option ℕ → Write C (Option Continuation)
  unfolding is_of_run last_of_run resume_from platform_id is_run find
  resume_continuation none db = (returned none, db)
  resume_continuation (some parent) db = (
    resume_from (find (is_run parent) db.runs) (last_of_run parent db.checkpoints)
        (platform_id adapter.instance_key db.platforms),
    db,
  )

  unfoldable pub bind_origin : ℕ → Write C (Unit {0})
  bind_origin run_id = on_origin origin (λ o. o.bind_run run_id)

  unfoldable pub run_record : Option ℕ → RemoteRunRecord
  run_record resumed_from_run_id = record {
    platform = adapter.instance_key;
    operation = operation;
    target = target;
    adapter_version = adapter.adapter_version;
    schema_version = adapter.schema_version;
    request_budget = limits.requests;
    page_budget = limits.pages;
    record_budget = limits.records;
    time_budget_seconds = service.time_budget_seconds;
    resumed_from_run_id = resumed_from_run_id;
    origin_reference = elim origin [ none ↦ none | some o ↦ some o.reference ];
    transport = adapter.transport_identity;
  }

  unfoldable pub open_body : Option ℕ → Write C ℕ
  open_body resumed_from_run_id = do
    checked ← of_outcome (validate_run (run_record resumed_from_run_id))
    run_id ← begin_remote_run checked
    bind_origin run_id
    pure run_id

  -- The transaction that opens the run.
  unfoldable pub open_run : Option ℕ → Write C ℕ
  unfolding bind_origin run_record on_catalog on_origin write_transaction
  open_run resumed_from_run_id = write_transaction (open_body resumed_from_run_id)

  -- A new executor: a new tracker and gate, and nothing asked of the provider yet. The constructors of
  -- the executor and of its gate may refuse.
  unfoldable pub new_executor : Run (Db C) GateSettings
  unfolding monotonic ◌>>=◌ executor_gate
  new_executor = do
    t ← monotonic
    gate ← of_outcome (executor_gate service.gate adapter.minimum_interval_seconds)
    (λ s. (
      returned gate,
      record s {
        budget = new_tracker limits t;
        last_request_at = none;
        served = 0;
        issued = [];
        captured = [];
      },
    ))

  unfoldable pub calls_of : ℕ → Calls (Db C)
  unfolding default_request continue_metadata_pages
  calls_of run_id = record {
    transport = adapter.fetch;
    normalize_page = λ response _. adapter.normalize response;
    retain_response = retain_response run_id;
    commit_page = commit_page run_id;
    continue_pages = continue_metadata_pages;
    request_factory = default_request operation target adapter.transport_identity;
  }

  -- `_finish`
  unfoldable pub finish : ℕ → Option ℕ → Finish → Run (Db C) SyncResult
  unfolding on_store write_transaction ◌>>=◌
  finish run_id resumed_from_run_id how = do
    on_store (write_transaction (finish_remote_run run_id how))
    pure (record { remote_run_id = run_id; resumed_from_run_id = resumed_from_run_id; end = how })

  unfoldable pub conclude :
      ℕ → Option ℕ → Outcome Exception (Option Continuation) → Run (Db C) SyncResult
  conclude run_id resumed_from_run_id unfinished s = (unfinished, s)
  conclude run_id resumed_from_run_id o s =
      (do
        result ← finish run_id resumed_from_run_id (end_of o s.budget)
        if reraises o then raise (other "RuntimeError") else pure result)
        s

  -- The `try` statement of `synchronize`.
  unfoldable pub run_to_end :
      GateSettings → ℕ → Option ℕ → Option Continuation → Run (Db C) SyncResult
  unfolding conclude
  run_to_end gate run_id resumed_from_run_id continuation s =
      let r = Executor.execute (calls_of run_id) gate continuation s in
      conclude run_id resumed_from_run_id r.0 r.1

  unfoldable pub synchronize : Option ℕ → Run (Db C) SyncResult
  unfolding on_store ◌>>=◌
  synchronize resume_from_run_id = do
    continuation ← on_store (resume_continuation resume_from_run_id)
    run_id ← on_store (open_run resume_from_run_id)
    gate ← new_executor
    run_to_end gate run_id resume_from_run_id continuation
