-- ===== src/Tests/Sync.antt =====
-- The synchronization at concrete inputs.
use data_processing.Prelude.{ℕ, none, some, List, ◌≡◌, refl, arith}
use data_processing.Effect.{returned}
use data_processing.Effect.Triple.{Post}
use data_processing.RemoteSync.Types.{fetch_post, AdapterRequest, ResponseEnvelope, record_count}
use data_processing.RemoteSync.Session.{Session, call_transport}
use data_processing.RemoteSync.Budget
use data_processing.RemoteSync.Budget.Admission.{
  IsWithin, IsExhausted, commit-IsWithin, commit_all_or_nothing,
}
use data_processing.RemoteSync.Gate
use data_processing.RemoteSync.Gate.Sound.{Sound}
use data_processing.RemoteSync.Gate.Attempts.{Got, Spent, execute-bounded}
use data_processing.RemoteSync.Executor
use data_processing.RemoteSync.Executor.{RetainedPage}
use data_processing.RemoteSync.Executor.Contract.{CallsKeep, count_page}
use data_processing.RemoteSync.Executor.Pages.{Done, execute-ends}
use data_processing.RemoteSync.Executor.Turn.{Found, Within, capture-Retains}
use data_processing.RemoteSync.Service.Resume.{Taken, resume-Taken}
use data_processing.RemoteSync.Service.Sync
use data_processing.RemoteSync.Service.Sync.{
  last_of_run, resume_continuation, calls_of, synchronize,
}
use data_processing.RemoteSync.Service.Ends.{open_runs}
use data_processing.RemoteSync.Service.Keeps.{
  Committing, Refused, calls-CallsKeep, commit_page-counts,
}
use data_processing.RemoteSync.Service.Conclusion.{Ended}
use data_processing.RemoteSync.Service.Closing.{synchronize-Ended}
use data_processing.Persistence.Tables.{Db}
use data_processing.Tests.Data.{
  example_adapter, example_service, example_gate, example_budget, empty_db, one_run_db,
  session_over, paused_db, example_continuation, example_response, example_page,
}

synchronize-Ended_example :
    Ended example_service
      (open_runs one_run_db)
      (synchronize example_service none (session_over one_run_db))
synchronize-Ended_example =
    synchronize-Ended example_service none (session_over one_run_db) (omega arith, tt)

abbrev RunsKept : ℕ → Db (Unit {0}) → Type 0
RunsKept _ db = db.runs ≡ one_run_db.runs

abbrev AnyId : ResponseEnvelope → ℕ → Db (Unit {0}) → Type 0
AnyId _ _ _ = Unit

abbrev keeps_runs : CallsKeep RunsKept AnyId example_gate (calls_of example_service 1)
keeps_runs = calls-CallsKeep one_run_db.runs example_service example_gate 1

abbrev start : Session (Db (Unit {0}))
start = session_over one_run_db

start-Sound : Sound 1 RunsKept start
start-Sound = record {
  within = omega arith;
  counted = refl;
  served_counted = refl;
  paced = tt;
  stamped = tt;
  started = omega arith;
  stored = refl;
}

start-IsWithin : IsWithin start.budget
start-IsWithin = record {
  requests_within = omega arith;
  pages_within = omega arith;
  records_within = omega arith;
}

start_budget : start.budget ≡ example_budget
start_budget = refl

execute-ends_example :
    Post
      (λ _. Done RunsKept AnyId example_gate (calls_of example_service 1) keeps_runs example_budget)
      (λ _. Within RunsKept example_gate example_budget)
      (Executor.execute (calls_of example_service 1) example_gate none start)
execute-ends_example =
    execute-ends RunsKept AnyId example_gate (calls_of example_service 1) keeps_runs example_budget
      none start (start-Sound, start-IsWithin, start_budget)

abbrev example_request : AdapterRequest
example_request = record {
  operation = fetch_post;
  target = "42";
  continuation = none;
  transport = none;
}

abbrev Retaining : ResponseEnvelope → List (ResponseEnvelope × ℕ) → Db (Unit {0}) → Type 0
Retaining = Found RunsKept AnyId example_gate (calls_of example_service 1) keeps_runs

execute-bounded_example :
    Post
      (Got example_gate RunsKept Retaining 1 3 example_budget)
      (λ _. Spent example_gate RunsKept 0 3 example_budget)
      (Gate.execute example_gate
        (call_transport example_adapter.fetch example_request)
        (Executor.capture (calls_of example_service 1))
        start)
execute-bounded_example =
    execute-bounded example_gate RunsKept Retaining example_adapter.fetch
      (Executor.capture (calls_of example_service 1)) example_request (λ n db h. h)
      (capture-Retains RunsKept AnyId example_gate (calls_of example_service 1) keeps_runs)
      example_budget start (start-Sound, start_budget)

abbrev example_retained : RetainedPage
example_retained = record {
  request = example_request;
  response = example_response 0 example_request;
  page = example_page;
  raw_observation_id = 1;
}

commit_page-counts_example :
    Post
      (λ _. Committing one_run_db.runs example_service 1 (count_page example_budget 1))
      (λ _. Refused one_run_db.runs example_service 1 example_budget)
      (Sync.commit_page example_service 1 example_retained start)
unfolding record_count
commit_page-counts_example =
    commit_page-counts one_run_db.runs example_service 1 example_budget 1 example_retained start
      (start-Sound, start-IsWithin, start_budget)

commit-IsWithin_example : IsWithin (Budget.commit_page 3 (session_over empty_db)).1.budget
commit-IsWithin_example = commit-IsWithin (session_over empty_db) 3 (record {
  requests_within = omega arith;
  pages_within = omega arith;
  records_within = omega arith;
})

commit_all_or_nothing_example :
    Post
      (λ _ s. s.budget ≡ record example_budget { pages = 1; records = 3 })
      (λ e s. IsExhausted e × (s.budget ≡ example_budget))
      (Budget.commit_page 3 (session_over empty_db))
commit_all_or_nothing_example = commit_all_or_nothing (session_over empty_db) 3

resumed_test :
    resume_continuation example_service (some 1) paused_db
    ≡ (returned (some example_continuation), paused_db)
unfolding resume_continuation
resumed_test = refl

resume-Taken_example : Taken example_service 1 example_continuation paused_db
resume-Taken_example = resume-Taken example_service 1 example_continuation paused_db resumed_test
