-- ===== src/Acquisition/Engine/Attempts.antt =====
-- `transfer` of acquisition/transfer.py: an attempt, with what follows it, and the loop over the attempts.
use data_processing.Prelude.{ℕ, zero, suc, Option, none, some, [], true, false, str_eq, ◌<>◌, ◌+◌}
use data_processing.Effect.{
  Outcome, returned, raised, unfinished, pure, raise, of_outcome, ◌>>=◌, ◌>>◌,
}
use data_processing.Acquisition.{Problem, transfer_failure, uncaught}
use data_processing.Acquisition.Policies.{accepts}
use data_processing.Acquisition.Transfer.{
  TransferBudget, ResumeState, Response, content_length, retry_after_seconds, credential_headers,
}
use data_processing.Acquisition.Engine.{
  modify, get, get_session, StagedAsset, Engine, Progress, Transferring, call, guard, check_control,
  request,
}
use data_processing.Acquisition.Engine.Transition.{running, transition, conclude_attempt}
use data_processing.Acquisition.Engine.Settle.{settle}
use data_processing.Acquisition.Engine.Attempt.{
  TransferResult, caught, same_size, open_session, request_headers, accept_answer, check_known_size,
  receive,
}

module _ {W : Type 0} (e : Engine W) (deadline : ℕ) where
  -- The answer, and what it says of itself.
  unfoldable pub fetch : Transferring W Response
  unfolding get request request_headers credential_headers modify retry_after_seconds ◌>>=◌
  fetch = do
    active ← get (λ s. s.active_resume)
    headers ← of_outcome (credential_headers e.recipe e.credential_resolver)
    (response, redirects) ← request e deadline (request_headers e deadline active headers)
    modify (λ s. record s {
      redirects = redirects;
      last_status = some response.status_code;
      response_etag = response.etag;
      retry_after = retry_after_seconds e.numbers response.retry_after;
    })
    pure response

  -- The body of the answer, after which the sizes must agree.
  unfoldable pub stage : Response → Transferring W StagedAsset
  unfolding get get_session guard same_size content_length check_known_size receive modify call
      ◌>>=◌
  stage response = do
    check_known_size e deadline response
    declared_length ← of_outcome (content_length e.numbers response)
    receive e deadline response.chunks response.fault
    received ← get (λ s. s.attempt_bytes)
    guard (same_size declared_length received) (transfer_failure "source_changed" true)
    session ← get_session
    size ← get (λ s. s.response_size)
    guard (same_size size session.size) (transfer_failure "source_changed" true)
    staged ← call (e.storage.finalize session ("remote:" <> e.recipe.provider))
    modify (λ s. record s { session = none })
    pure staged

  unfoldable pub completed : Response → StagedAsset → Progress W → TransferResult
  completed response staged s = record {
    state = "complete";
    outcome = "downloaded";
    retryable = false;
    attempts = s.transitions;
    received_bytes = s.received_total;
    staged = some staged;
    resume = none;
    status_code = some response.status_code;
    diagnostic = none;
  }

  -- The last transition, and the result.
  unfoldable pub complete : ℕ → Response → StagedAsset → Transferring W TransferResult
  unfolding transition get conclude_attempt completed ◌>>=◌
  complete attempt_number response staged = do
    terminal ← get (
        transition e deadline attempt_number "complete" "downloaded" false
          (some response.status_code))
    conclude_attempt e deadline terminal
    get (completed response staged)

  -- The body of the `try` statement.
  unfoldable pub attempt : ℕ → Option ResumeState → Transferring W TransferResult
  unfolding check_control open_session fetch accept_answer accepts stage complete guard modify ◌>>=◌
  attempt attempt_number resume = do
    check_control e deadline
    (session, active) ← open_session e deadline resume
    modify (λ s. record s { session = some session; active_resume = active })
    response ← fetch
    let classification = e.recipe.status_classifier response.status_code in
        guard (str_eq classification.category "success")
          (transfer_failure classification.category classification.retryable)
    accept_answer e deadline response
    guard (accepts e.urls e.recipe.response response.content_type)
        (transfer_failure "invalid_content" false)
    staged ← stage response
    complete attempt_number response staged

  -- The variables as an attempt starts.
  unfoldable pub fresh : Progress W → Progress W
  fresh s = record s {
    session = none;
    active_resume = none;
    redirects = 0;
    attempt_bytes = 0;
    response_size = none;
    response_etag = none;
    retry_after = none;
  }

  -- The `except` clauses.
  unfoldable pub handle :
      ℕ
      → Outcome Problem TransferResult × Progress W
      → Outcome Problem (Option TransferResult × Option ResumeState) × Progress W
  unfolding caught settle
  handle attempt_number (returned result, s) = (returned (some result, none), s)
  handle attempt_number (raised x, s) = elim (caught x) [
    | none ↦ (raised x, s)
    | some (outcome, retryable) ↦ settle e deadline attempt_number outcome retryable s
  ]
  handle attempt_number (unfinished, s) = (unfinished, s)

  unfoldable pub try_once :
      ℕ → Option ResumeState → Transferring W (Option TransferResult × Option ResumeState)
  unfolding running call handle attempt fresh ◌>>=◌
  try_once attempt_number resume = do
    call (e.host.observer (running e deadline attempt_number resume))
    (λ s. handle attempt_number (attempt attempt_number resume (fresh s)))

  -- The loop, with so many attempts left.
  unfoldable pub attempts : ℕ → ℕ → Option ResumeState → Transferring W TransferResult
  unfolding try_once ◌>>=◌
  attempts zero attempt_number resume = raise (uncaught "AssertionError")
  attempts (suc left) attempt_number resume = do
    (result, resumable) ← try_once attempt_number resume
    elim result [ some r ↦ pure r | none ↦ attempts left (attempt_number + 1) resumable ]

module _ {W : Type 0} (e : Engine W) where
  unfoldable pub start : W → TransferBudget → Progress W
  start world budget = record {
    world = world;
    budget = budget;
    requested = [];
    transitions = [];
    received_total = 0;
    last_status = none;
    session = none;
    active_resume = none;
    redirects = 0;
    attempt_bytes = 0;
    response_size = none;
    response_etag = none;
    retry_after = none;
  }

  -- `transfer`
  unfoldable pub transfer :
      Option ResumeState → TransferBudget → W → Outcome Problem TransferResult × Progress W
  unfolding attempts start
  transfer resume budget world =
      let (started, w) = e.host.clock world in
      attempts e (started + e.limits.max_seconds) e.limits.max_attempts 1 resume (start w budget)
