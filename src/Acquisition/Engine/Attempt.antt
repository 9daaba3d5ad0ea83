-- ===== src/Acquisition/Engine/Attempt.antt =====
-- `transfer` of acquisition/transfer.py: the parts of the body of its `try` statement.
use data_processing.Prelude.{
  ℕ, String, Option, none, some, List, [], ◌∷◌, Bool, true, false, not, ◌&&◌, ◌||◌, str_eq, ◌<>◌,
  ltb, ◌==◌, ◌+◌, ◌-◌, length, if◌then◌else◌,
}
use data_processing.Effect.{returned, raised, unfinished, pure, raise, of_outcome, ◌>>=◌, ◌>>◌}
use data_processing.Acquisition.{
  Problem, transfer_failure, timeout_exception, transport_error, request_policy_error,
  asset_storage_error, os_error, uncaught,
}
use data_processing.Acquisition.Transfer.{
  remaining_bytes, charge, ResumeState, AttemptTransition, Response, content_length,
  resume_response_size, set_header,
}
use data_processing.Acquisition.Engine.{
  modify, get, get_session, Staging, StagedAsset, Engine, Transferring, call, guard, check_control,
}

pub record TransferResult : Type 0 where
  pub state : String
  pub outcome : String
  pub retryable : Bool
  pub attempts : List AttemptTransition
  pub received_bytes : ℕ
  pub staged : Option StagedAsset
  pub resume : Option ResumeState
  pub status_code : Option ℕ
  pub diagnostic : Option String

-- The exceptions that the clauses of `transfer` catch, with the outcome and whether to try again.
unfoldable pub caught : Problem → Option (String × Bool)
caught (transfer_failure outcome retryable) = some (outcome, retryable)
caught timeout_exception = some ("timeout", true)
caught transport_error = some ("transient_provider", true)
caught (request_policy_error category) = some ("policy_failure", false)
caught (asset_storage_error category) = some (category, false)
caught os_error = some ("storage_failure", false)
caught (uncaught name) = none

-- `outcome in {...}` of the outcomes that leave an interrupted attempt.
unfoldable pub is_interruption : String → Bool
is_interruption outcome =
    str_eq outcome "transient_provider"
    || str_eq outcome "timeout"
    || str_eq outcome "rate_limited"
    || str_eq outcome "source_changed"
    || str_eq outcome "budget_exhausted"

-- The size of a whole answer where it is known, and what is still to come.
unfoldable pub expected_bytes : ℕ → ℕ → ℕ → ℕ
expected_bytes status response_size size =
    if status == 200 then response_size else response_size - size

unfoldable pub same_size : Option ℕ → ℕ → Bool
same_size none n = true
same_size (some size) n = size == n

unfoldable pub same_etag : Option String → String → Bool
same_etag none t = false
same_etag (some s) t = str_eq s t

module _ {W : Type 0} (e : Engine W) (deadline : ℕ) where
  unfoldable pub begin : Transferring W Staging
  unfolding call
  begin = call (e.storage.begin_remote_staging e.recipe.request_identity e.limits.max_item_bytes)

  -- `_discard_session`
  unfoldable pub discard : Staging → Transferring W (Unit {0})
  unfolding call ◌>>=◌
  discard session = do
    staged ← call (e.storage.finalize session "remote:discarded")
    call (e.storage.cleanup_staging staged)

  -- `_open_session`
  unfoldable pub open_session : Option ResumeState → Transferring W (Staging × Option ResumeState)
  unfolding begin discard call ◌>>=◌
  open_session none = do session ← begin; pure (session, none)
  open_session (some resume) =
      elim (str_eq resume.partial.request_identity e.recipe.request_identity) [
        | false ↦ do
          old ← call (
              e.storage.reopen_remote_staging resume.partial resume.partial.request_identity
                e.limits.max_item_bytes)
          discard old
          session ← begin
          pure (session, none)
        | true ↦ do
          session ← call (
              e.storage.reopen_remote_staging resume.partial e.recipe.request_identity
                e.limits.max_item_bytes)
          pure (session, some resume)
      ]

  -- The headers of the request, with those that ask for the rest of the answer.
  unfoldable pub request_headers :
      Option ResumeState → List (String × String) → List (String × String)
  unfolding set_header
  request_headers none headers = headers
  request_headers (some resume) headers =
      set_header "If-Range" resume.strong_etag (
        set_header "Range" ("bytes=" <> e.numbers.decimal resume.partial.byte_count <> "-") headers)

  -- An answer to a request for the rest: the rest, or a whole new answer.
  unfoldable pub accept_rest : ResumeState → Response → Transferring W (Unit {0})
  unfolding guard same_etag same_size resume_response_size modify discard begin content_length
      get_session ◌>>=◌
  accept_rest resume response = elim (response.status_code == 206) [
    | true ↦ do
      guard (same_etag response.etag resume.strong_etag) (transfer_failure "source_changed" false)
      size ← of_outcome (resume_response_size e.numbers response resume.partial.byte_count)
      modify (λ s. record s { response_size = some size })
      guard (same_size resume.response_size size) (transfer_failure "source_changed" false)
    | false ↦ elim (response.status_code == 200) [
      | false ↦ raise (transfer_failure "source_changed" false)
      | true ↦ do
        old ← get_session
        discard old
        session ← begin
        modify (λ s. record s { session = some session; active_resume = none })
        size ← of_outcome (content_length e.numbers response)
        modify (λ s. record s { response_size = size })
    ]
  ]

  unfoldable pub accept_answer : Response → Transferring W (Unit {0})
  unfolding get accept_rest guard modify content_length ◌>>=◌
  accept_answer response = do
    active ← get (λ s. s.active_resume)
    elim active [
      | some resume ↦ accept_rest resume response
      | none ↦ do
        guard (response.status_code == 200) (transfer_failure "invalid_content" false)
        size ← of_outcome (content_length e.numbers response)
        modify (λ s. record s { response_size = size })
    ]

  -- The tests on the size of the answer. In the code's integers the rest is negative where the answer is
  -- smaller than what is staged.
  unfoldable pub check_size : ℕ → ℕ → Staging → Transferring W (Unit {0})
  unfolding guard expected_bytes get remaining_bytes ◌>>=◌
  check_size status response_size session = do
    guard
        (not (
          (not (status == 200) && ltb response_size session.size)
          || ltb e.limits.max_item_bytes
              (session.size + expected_bytes status response_size session.size)))
        (transfer_failure "response_too_large" false)
    remaining ← get (λ s. remaining_bytes s.budget)
    guard (not (ltb remaining (expected_bytes status response_size session.size)))
        (transfer_failure "budget_exhausted" true)

  unfoldable pub check_known_size : Response → Transferring W (Unit {0})
  unfolding get get_session check_size ◌>>=◌
  check_known_size response = do
    session ← get_session
    size ← get (λ s. s.response_size)
    elim size [ none ↦ pure tt | some n ↦ check_size response.status_code n session ]

  -- `budget.charge(len(chunk))`
  unfoldable pub charge_chunk : List ℕ → Transferring W (Unit {0})
  unfolding charge
  charge_chunk chunk s = elim (charge (length chunk) s.budget) [
    | returned budget ↦ (returned tt, record s { budget = budget })
    | raised x ↦ (raised x, s)
    | unfinished ↦ (unfinished, s)
  ]

  -- The loop over the chunks of the body.
  unfoldable pub receive : List (List ℕ) → Option Problem → Transferring W (Unit {0})
  unfolding check_control charge_chunk get_session call modify ◌>>=◌
  receive [] none = pure tt
  receive [] (some fault) = raise fault
  receive (chunk ∷ rest) fault = do
    check_control e deadline
    charge_chunk chunk
    session ← get_session
    written ← call (e.storage.write session chunk)
    modify (λ s. record s {
      session = some written;
      attempt_bytes = s.attempt_bytes + length chunk;
      received_total = s.received_total + length chunk;
    })
    receive rest fault
