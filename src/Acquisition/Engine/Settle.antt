-- ===== src/Acquisition/Engine/Settle.antt =====
-- `transfer` of acquisition/transfer.py: what follows an attempt that failed.
use data_processing.Prelude.{
  ℕ, String, Option, none, some, Bool, true, false, not, ◌&&◌, str_eq, leb, ltb, ◌+◌, ◌-◌, ◌*◌, ◌^◌,
  min, if◌then◌else◌,
}
use data_processing.Effect.{Outcome, returned, raised, pure, of_outcome, ◌>>=◌, ◌>>◌}
use data_processing.Acquisition.{Problem, uncaught}
use data_processing.Acquisition.Policies.{safe_failure_diagnostic}
use data_processing.Acquisition.Transfer.{ResumeState, RemotePartialState, is_strong_etag}
use data_processing.Acquisition.Engine.{
  modify, get, Staging, Engine, Progress, Transferring, call, ask,
}
use data_processing.Acquisition.Engine.Transition.{transition, conclude_attempt}
use data_processing.Acquisition.Engine.Attempt.{TransferResult, is_interruption, discard}

module _ {W : Type 0} (e : Engine W) (deadline : ℕ) where
  -- `ResumeState(...)`, which raises where the answer is smaller than the partial.
  unfoldable pub new_resume : RemotePartialState → String → Option ℕ → Outcome Problem ResumeState
  unfolding is_strong_etag
  new_resume partial etag size =
      if not (is_strong_etag (some etag))
      then raised (uncaught "ValueError")
      else if elim size [ none ↦ false | some n ↦ ltb n partial.byte_count ]
      then raised (uncaught "ValueError")
      else returned (record { partial = partial; strong_etag = etag; response_size = size })

  -- The ETag and the size of a partial that is kept.
  unfoldable pub partial_etag : Progress W → Option String × Option ℕ
  unfolding is_strong_etag
  partial_etag s = elim s.active_resume [
    | none ↦ (s.response_etag, s.response_size)
    | some active ↦
        if is_strong_etag s.response_etag
        then (s.response_etag, s.response_size)
        else (some active.strong_etag, active.response_size)
  ]

  -- What is staged is discarded.
  unfoldable pub drop_partial : Staging → Transferring W (Option ResumeState)
  unfolding modify discard ◌>>=◌
  drop_partial session = do
    discard e deadline session
    modify (λ s. record s { session = none })
    pure none

  -- It is kept for the next attempt.
  unfoldable pub detach_partial :
      ℕ → Staging → String → Option ℕ → Transferring W (Option ResumeState)
  unfolding call modify new_resume ◌>>=◌
  detach_partial attempt_number session etag size = do
    partial ← call (e.storage.detach session)
    modify (λ s. record s { session = none })
    resumable ← of_outcome (new_resume partial etag size)
    call (e.host.partial_observer attempt_number resumable)
    pure (some resumable)

  unfoldable pub keep_partial : ℕ → Bool → Staging → Transferring W (Option ResumeState)
  unfolding partial_etag is_strong_etag get drop_partial detach_partial ◌>>=◌
  keep_partial attempt_number retryable session = do
    kept ← get partial_etag
    elim kept.0 [
      | none ↦ drop_partial session
      | some etag ↦ elim (retryable && (ltb 0 session.size && is_strong_etag (some etag))) [
        | false ↦ drop_partial session
        | true ↦ detach_partial attempt_number session etag kept.1
      ]
    ]

  unfoldable pub keep_session : ℕ → Bool → Transferring W (Option ResumeState)
  unfolding get keep_partial ◌>>=◌
  keep_session attempt_number retryable = do
    session ← get (λ s. s.session)
    elim session [ none ↦ pure none | some staging ↦ keep_partial attempt_number retryable staging ]

  -- The outcome, whether to try again, and the state of an attempt that failed and was not cancelled.
  unfoldable pub judged : ℕ → String → Bool → Option ResumeState → String × Bool × String
  unfolding is_interruption
  judged now outcome retryable resumable =
      if leb deadline now then ("timeout", true, "interrupted") else (
        outcome,
        retryable,
        elim resumable [
          | none ↦ "failed"
          | some r ↦ if is_interruption outcome then "interrupted" else "failed"
        ],
      )

  unfoldable pub judge :
      String → Bool → Option ResumeState → Transferring W (String × Bool × String)
  unfolding ask judged ◌>>=◌
  judge outcome retryable resumable = do
    stop ← ask e.host.cancelled
    elim stop [
      | true ↦ pure ("cancelled", true, "interrupted")
      | false ↦ do now ← ask e.host.clock; pure (judged now outcome retryable resumable)
    ]

  -- `can_retry`
  unfoldable pub can_retry : ℕ → String → Bool → Transferring W Bool
  unfolding ask ◌>>=◌
  can_retry attempt_number outcome retryable =
      elim (retryable
        && (not (str_eq outcome "budget_exhausted") && ltb attempt_number e.limits.max_attempts)) [
          | false ↦ pure false
          | true ↦ do
            stop ← ask e.host.cancelled
            elim stop [
              | true ↦ pure false
              | false ↦ do now ← ask e.host.clock; pure (ltb now deadline)
            ]
        ]

  -- The seconds to wait before the next attempt.
  unfoldable pub delay : ℕ → Option ℕ → ℕ
  delay attempt_number (some seconds) = seconds
  delay attempt_number none =
      min (e.limits.initial_backoff_seconds * 2 ^ (attempt_number - 1)) e.limits.max_backoff_seconds

  unfoldable pub failure :
      String → String → Bool → Option ResumeState → Option String → Progress W → TransferResult
  failure state outcome retryable resumable diagnostic s = record {
    state = state;
    outcome = outcome;
    retryable = retryable;
    attempts = s.transitions;
    received_bytes = s.received_total;
    staged = none;
    resume = resumable;
    status_code = s.last_status;
    diagnostic = diagnostic;
  }

  -- What follows an attempt that failed: the result, or what the next attempt resumes.
  unfoldable pub settle :
      ℕ → String → Bool → Transferring W (Option TransferResult × Option ResumeState)
  unfolding keep_session judge conclude_attempt transition get can_retry ask delay failure
      safe_failure_diagnostic ◌>>=◌
  settle attempt_number outcome retryable = do
    resumable ← keep_session attempt_number retryable
    (outcome', retryable', state) ← judge outcome retryable resumable
    terminal ←
        get (λ s. transition e deadline attempt_number state outcome' retryable' s.last_status s)
    conclude_attempt e deadline terminal
    again ← can_retry attempt_number outcome' retryable'
    elim again [
      | false ↦ do
        result ← get (failure state outcome' retryable' resumable terminal.diagnostic)
        pure (some result, none)
      | true ↦ do
        seconds ← get (λ s. delay attempt_number s.retry_after)
        now ← ask e.host.clock
        elim (leb deadline (now + seconds)) [
          | true ↦ do
            result ← get (
                failure state "timeout" true resumable
                  (some (safe_failure_diagnostic e.recipe.provider "timeout")))
            pure (some result, none)
          | false ↦ do ask (λ w. (tt, e.host.sleeper seconds w)); pure (none, resumable)
        ]
    ]
