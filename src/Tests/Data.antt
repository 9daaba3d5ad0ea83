-- ===== src/Tests/Data.antt =====
-- A service over a small provider, and the sessions that the tests start from.
use data_processing.Prelude.{ℕ, String, none, some, [], ◌∷◌, if◌then◌else◌, ◌==◌, str_eq}
use data_processing.Effect.{answered}
use data_processing.RemoteSync.Types.{
  Continuation, fetch_post, success, AdapterRequest, ResponseEnvelope, NormalizedPage, post,
}
use data_processing.RemoteSync.Stored.{Json}
use data_processing.RemoteSync.Session.{SyncLimits, BudgetTracker, Session}
use data_processing.RemoteSync.Gate.{GateSettings, natural}
use data_processing.RemoteSync.Service.{Adapter}
use data_processing.RemoteSync.Service.Sync.{Service}
use data_processing.Persistence.Tables.{
  Db, Finish, complete, paused, RemoteRunRecord, RemoteRequestRecord, RemoteCheckpointRecord,
}

-- The provider asks for a pause first, and then answers.
abbrev pub example_response : ℕ → AdapterRequest → ResponseEnvelope
example_response k request = record {
  object = k;
  operation = request.operation;
  request_identity = "post:42";
  status_code = if k == 0 then 429 else 200;
  retry_after = if k == 0 then some "2" else none;
  payload = 123 ∷ 125 ∷ [];
  observed_at = "2026-01-01T00:00:00Z";
  adapter_version = "1";
  schema_version = "1";
  transport = none;
}

abbrev pub example_page : NormalizedPage
example_page = record {
  items = record { object_kind = post; native_id = some "42" } ∷ [];
  continuation = none;
}

abbrev pub example_adapter : Adapter
example_adapter = record {
  instance_key = "danbooru";
  adapter_version = "1";
  schema_version = "1";
  transport_identity = none;
  minimum_interval_seconds = natural 1;
  fetch = λ k request. answered (example_response k request);
  normalize = λ response. answered example_page;
}

abbrev pub example_gate : GateSettings
example_gate = record {
  minimum_interval_seconds = 1;
  maximum_retries = 2;
  second = 1;
  seconds = λ text. if str_eq text "2" then some 2 else none;
}

abbrev pub example_limits : SyncLimits
example_limits = record { requests = 5; pages = 2; records = 10; elapsed_seconds = 60 }

abbrev pub example_text : String
example_text = "{\"adapter\":\"danbooru\",\"value\":{\"page\":2},\"version\":\"1\"}"

-- It reads one text, and writes every continuation as this text.
abbrev pub example_json : Json
example_json = record {
  dumps = λ continuation. example_text;
  loads = λ text.
      if str_eq text example_text
      then some (some (record { adapter = "danbooru"; version = "1"; value = some "page-2" }))
      else none;
  strip = λ text. text;
}

abbrev pub example_service : Service (Unit {0})
example_service = record {
  adapter = example_adapter;
  writers = record {
    write_page = λ page c. (answered tt, c);
    sha256 = λ payload. "digest";
    media_type = λ response. "application/json";
  };
  json = example_json;
  gate = record {
    minimum_interval_seconds = natural 0;
    maximum_retries = natural 2;
    second = 1;
    seconds = example_gate.seconds;
  };
  operation = fetch_post;
  target = "42";
  limits = example_limits;
  time_budget_seconds = 60;
  origin = none;
}

abbrev pub empty_db : Db (Unit {0})
empty_db = record {
  platforms = ("danbooru", 1) ∷ [];
  runs = [];
  requests = [];
  checkpoints = [];
  payloads = [];
  raws = [];
  catalog = tt;
}

abbrev pub example_run : RemoteRunRecord
example_run = record {
  platform = "danbooru";
  operation = fetch_post;
  target = "42";
  adapter_version = "1";
  schema_version = "1";
  request_budget = 5;
  page_budget = 2;
  record_budget = 10;
  time_budget_seconds = 60;
  resumed_from_run_id = none;
  origin_reference = none;
  transport = none;
}

-- The catalog with one open run.
abbrev pub one_run_db : Db (Unit {0})
one_run_db = record empty_db {
  runs = record { run_id = 1; platform_id = 1; declared = example_run; finish = none } ∷ [];
}

abbrev pub example_budget : BudgetTracker
example_budget = record {
  limits = example_limits;
  started_at = 100;
  requests = 0;
  pages = 0;
  records = 0;
}

abbrev pub session_over : Db (Unit {0}) → Session (Db (Unit {0}))
session_over db = record {
  budget = example_budget;
  clock = record { now = 100; ahead = λ k. 1 };
  last_request_at = none;
  served = 0;
  issued = [];
  captured = [];
  store = db;
}

abbrev pub example_finish : Finish
example_finish = record {
  status = complete;
  termination_outcome = success;
  request_count = 2;
  page_count = 1;
  record_count = 1;
  budget_boundary = none;
  retry_after = none;
  diagnostic_summary = none;
}

abbrev pub example_request_record : RemoteRequestRecord
example_request_record = record {
  remote_run_id = 1;
  attempt_number = 1;
  request_identity = "post:42";
  operation = fetch_post;
  target = "42";
  outcome = success;
  status_code = some 200;
  response_size = some 2;
  transport = none;
}

abbrev pub example_continuation : Continuation
example_continuation = record { adapter = "danbooru"; version = "1"; value = "page-2" }

abbrev pub example_checkpoint : RemoteCheckpointRecord
example_checkpoint = record {
  remote_run_id = 1;
  operation = fetch_post;
  target = "42";
  continuation_adapter = "danbooru";
  continuation_version = "1";
  continuation_json = example_text;
  last_page_identity = some "post:42";
  page_count = 1;
  transport = none;
}

-- A paused run with a checkpoint.
abbrev pub paused_db : Db (Unit {0})
paused_db = record empty_db {
  runs =
      record {
        run_id = 1;
        platform_id = 1;
        declared = example_run;
        finish = some (record example_finish { status = paused });
      }
      ∷ [];
  checkpoints = record { checkpoint_id = 1; saved = example_checkpoint } ∷ [];
}
