-- ===== src/Acquisition/Engine/Transition.antt =====
-- `_transition` of acquisition/transfer.py, and the transition with which an attempt starts.
use data_processing.Prelude.{
  ℕ, String, Option, none, some, [], ◌∷◌, ◌++◌, Bool, false, str_eq, if◌then◌else◌,
}
use data_processing.Effect.{◌>>=◌, ◌>>◌}
use data_processing.Acquisition.Policies.{safe_failure_diagnostic}
use data_processing.Acquisition.Transfer.{ResumeState, AttemptTransition}
use data_processing.Acquisition.Engine.{modify, Engine, Progress, Transferring, call}

module _ {W : Type 0} (e : Engine W) (deadline : ℕ) where
  -- The transition with which an attempt starts.
  unfoldable pub running : ℕ → Option ResumeState → AttemptTransition
  running attempt_number resume = record {
    attempt_number = attempt_number;
    state = "running";
    outcome = none;
    retryable = false;
    request_identity = e.recipe.request_identity;
    status_code = none;
    redirect_count = 0;
    received_bytes = 0;
    response_size = elim resume [ none ↦ none | some r ↦ r.response_size ];
    response_etag = elim resume [ none ↦ none | some r ↦ some r.strong_etag ];
    retry_after_seconds = none;
    diagnostic = none;
  }

  -- `_transition`
  unfoldable pub transition : ℕ → String → String → Bool → Option ℕ → Progress W → AttemptTransition
  unfolding safe_failure_diagnostic
  transition attempt_number state outcome retryable status_code s = record {
    attempt_number = attempt_number;
    state = state;
    outcome = some outcome;
    retryable = retryable;
    request_identity = e.recipe.request_identity;
    status_code = status_code;
    redirect_count = s.redirects;
    received_bytes = s.attempt_bytes;
    response_size = s.response_size;
    response_etag = s.response_etag;
    retry_after_seconds = s.retry_after;
    diagnostic =
        if str_eq state "complete"
        then none
        else some (safe_failure_diagnostic e.recipe.provider outcome);
  }

  -- `transitions.append(terminal)`, and the observer.
  unfoldable pub conclude_attempt : AttemptTransition → Transferring W (Unit {0})
  unfolding modify call ◌>>=◌
  conclude_attempt terminal = do
    modify (λ s. record s { transitions = s.transitions ++ (terminal ∷ []) })
    call (e.host.observer terminal)
