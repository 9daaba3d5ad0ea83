-- ===== src/Tests/Transfers.antt =====
-- A transfer with a small client and a small storage. The world counts the requests.
use data_processing.Prelude.{
  ◌&&◌, ℕ, none, some, [], ◌∷◌, Bool, true, false, ◌≡◌, ◌⊎◌, ◌↔◌, ◌≤◌, ◌+◌, refl, arith, str_eq,
  ◌==◌, length, if◌then◌else◌,
}
use data_processing.Effect.{Outcome, returned, raised, answered}
use data_processing.Effect.Triple.{Post}
use data_processing.Acquisition.{Problem, uncaught}
use data_processing.Acquisition.Policies.{
  SplitResult, RequestLibrary, validate_destination, classify_status,
}
use data_processing.Acquisition.Policies.Destination.{Safe, validate_destination-Safe}
use data_processing.Acquisition.Policies.Statuses.{classify_status-success}
use data_processing.Acquisition.Transfer.{
  new_limits, new_budget, Numbers, natural, TransferBudget, Response, resume_response_size,
}
use data_processing.Acquisition.Engine.{Storage, Host, Engine, Progress, request}
use data_processing.Acquisition.Engine.Attempts.{start, transfer}
use data_processing.Acquisition.Engine.Attempt.{TransferResult}
use data_processing.Acquisition.Engine.Keeps.Whole.{IsBounded, transfer-IsBounded}
use data_processing.Acquisition.Engine.Requests.{Answered, Stopped, request-Answered}

abbrev pub example_split : SplitResult
example_split = record {
  scheme = "https";
  username = none;
  password = none;
  hostname = some "cdn.example";
  port = none;
  fragment = "";
}

abbrev pub example_library : RequestLibrary
example_library = record {
  urlsplit = λ url. if str_eq url "https://cdn.example/b" then some example_split else none;
  is_ip_address = λ s. false;
  urljoin = λ base location. some location;
  lower = λ s. s;
  strip = λ s. s;
}

-- It reads `3` alone.
abbrev example_numbers : Numbers
example_numbers = record {
  int_of = λ s. if str_eq s "3" then some (natural 3) else none;
  decimal = λ n. "2";
  seconds_until = λ s. none;
}

abbrev example_answer : Response
example_answer = record {
  status_code = 200;
  location = none;
  etag = none;
  retry_after = none;
  content_type = some "image/png";
  content_length = some "3";
  content_range = none;
  chunks = (1 ∷ 2 ∷ []) ∷ (3 ∷ []) ∷ [];
  fault = none;
}

-- The first request is redirected, and the second one is asked to wait.
abbrev example_host : Host ℕ
example_host = record {
  clock = λ w. (0, w);
  cancelled = λ w. (false, w);
  sleeper = λ seconds w. w;
  send = λ url headers w. (
    answered (
        if w == 0
        then record example_answer { status_code = 302; location = some "https://cdn.example/b" }
        else if w == 1
        then record example_answer { status_code = 503 }
        else example_answer),
    w + 1,
  );
  rendered = λ url. url;
  observer = λ t w. (answered tt, w);
  partial_observer = λ n r w. (answered tt, w);
}

abbrev example_storage : Storage ℕ
example_storage = record {
  begin_remote_staging =
      λ identity limit w. (answered (record { staging_name = "a"; size = 0 }), w);
  reopen_remote_staging = λ partial identity limit w.
      (answered (record { staging_name = partial.staging_name; size = partial.byte_count }), w);
  write = λ session chunk w. (answered (record session { size = session.size + length chunk }), w);
  detach = λ session w. (
    answered (record {
      staging_name = session.staging_name;
      request_identity = "r";
      byte_count = session.size;
    }),
    w,
  );
  finalize = λ session label w. (
    answered
        (record { staging_name = session.staging_name; source_path = label; size = session.size }),
    w,
  );
  cleanup_staging = λ staged w. (answered tt, w);
}

abbrev pub example_engine : Engine ℕ
example_engine = record {
  urls = example_library;
  numbers = example_numbers;
  host = example_host;
  storage = example_storage;
  recipe = record {
    provider = "example";
    request_identity = "r";
    url = "https://example/a";
    headers = [];
    credential_reference = none;
    response = record { content_type_prefixes = "image/" ∷ []; allow_missing_content_type = true };
    redirect_hosts = "cdn.example" ∷ [];
    status_classifier = classify_status;
  };
  limits = record {
    max_item_bytes = 10;
    max_attempts = 2;
    max_seconds = 60;
    max_redirects = 1;
    initial_backoff_seconds = 1;
    max_backoff_seconds = 5;
  };
  credential_resolver = none;
}

abbrev pub example_budget : TransferBudget
example_budget = record { max_bytes = 8; used_bytes = 4 }

limits_test : new_limits example_engine.limits ≡ returned example_engine.limits
unfolding new_limits
limits_test = refl

budget_test : new_budget 8 4 ≡ returned example_budget
unfolding new_budget
budget_test = refl

-- The second attempt is complete.
abbrev is_complete : {W : Type 0} → Outcome Problem TransferResult × Progress W → Bool
is_complete (returned result, s) = str_eq result.state "complete" && (s.budget.used_bytes == 7)
is_complete r = false

transfer_test : is_complete (transfer example_engine none example_budget 0) ≡ true
unfolding transfer classify_status
transfer_test = refl

transfer-IsBounded_example :
    Post
      (λ _. IsBounded example_engine example_budget)
      (λ _. IsBounded example_engine example_budget)
      (transfer example_engine none example_budget 0)
transfer-IsBounded_example = transfer-IsBounded example_engine none example_budget 0 (omega arith)

request-Answered_example :
    Post
      (Answered example_engine 60 0)
      (λ _. Stopped example_engine 60 0)
      (request example_engine 60 [] (start example_engine 0 example_budget))
unfolding start
request-Answered_example =
    request-Answered example_engine 60 [] (start example_engine 0 example_budget)

validate_destination-Safe_example :
    (validate_destination example_library "https://cdn.example/b" ("cdn.example" ∷ [])
      ≡ returned example_split)
    ↔ ((some example_split ≡ some example_split)
        × Safe example_library ("cdn.example" ∷ []) example_split)
validate_destination-Safe_example =
    validate_destination-Safe example_library ("cdn.example" ∷ []) "https://cdn.example/b"
      example_split

abbrev busy : ℕ
busy = 503

classify_status-success_example :
    ((str_eq (classify_status busy).category "success" ≡ true) ↔ ((200 ≤ busy) × (busy ≤ 299)))
    × (((classify_status busy).retryable ≡ true)
        ↔ ((busy ≡ 408) ⊎ ((busy ≡ 425) ⊎ ((busy ≡ 429) ⊎ ((500 ≤ busy) × (busy ≤ 599))))))
classify_status-success_example = classify_status-success busy

abbrev rest_answer : Response
rest_answer = record example_answer { status_code = 206; content_range = some "bytes 2-4/5" }

rest_test : resume_response_size example_numbers rest_answer 2 ≡ returned 5
unfolding resume_response_size
rest_test = refl

abbrev leaves_error : {W : Type 0} → Outcome Problem TransferResult × Progress W → Bool
leaves_error (raised (uncaught name), s) = str_eq name "ValueError"
leaves_error r = false

-- An answer with a strong ETag that is longer than its length makes `transfer` raise.
overlong_test :
    leaves_error (
      transfer
        (record example_engine {
          host = record example_host {
            send = λ url headers w. (
              answered (record example_answer { etag = some "\"e\""; content_length = some "2" }),
              w + 1,
            );
          };
          numbers = record example_numbers { int_of = λ s. some (natural 2) };
        })
        none
        example_budget
        0)
    ≡ true
unfolding transfer classify_status
overlong_test = refl

-- So does a redirect to a text that `urljoin` refuses.
unjoinable_test :
    leaves_error (
      transfer
        (record example_engine {
          urls = record example_library { urljoin = λ base location. none };
        })
        none
        example_budget
        0)
    ≡ true
unfolding transfer classify_status
unjoinable_test = refl
