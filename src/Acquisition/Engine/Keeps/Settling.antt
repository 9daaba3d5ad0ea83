-- ===== src/Acquisition/Engine/Keeps/Settling.antt =====
-- What follows a failed attempt keeps the invariant of a transfer.
use data_processing.Prelude.{
  ℕ, String, Option, none, some, [], ◌∷◌, ◌++◌, Bool, true, false, not, ◌&&◌, arith, ◌≤◌, ◌+◌,
  All-append, leb, ltb, str_eq,
}
use data_processing.Effect.{pure, ◌>>=◌}
use data_processing.Effect.Triple.{Triple, Triple-bind, Triple-assume}
use data_processing.Acquisition.Transfer.{
  AttemptTransition, RemotePartialState, ResumeState, is_strong_etag,
}
use data_processing.Acquisition.Policies.{safe_failure_diagnostic}
use data_processing.Acquisition.Engine.{Staging, Progress, get}
use data_processing.Acquisition.Engine.Attempt.{TransferResult}
use data_processing.Acquisition.Engine.Transition.{transition, conclude_attempt}
use data_processing.Acquisition.Engine.Settle.{
  new_resume, partial_etag, drop_partial, detach_partial, keep_partial, keep_session, judged, judge,
  can_retry, delay, failure, settle,
}
use data_processing.Acquisition.Engine.Keeps.{
  InRange, Finished, Account, IsWithin, Keeps, Keeps-pure, Keeps-of_outcome, Keeps-call, Keeps-ask,
  Keeps-get, Keeps-modify, Keeps-either, Keeps-option,
}
use data_processing.Acquisition.Engine.Keeps.Body.{discard-Keeps}

module _ {W : Type 0} (k : Account W) where
  open k use {engine, deadline}

  -- A reading of which something holds.
  pub get-Keeps :
      {A : Type 0} (P : A → Type 0) (f : Progress W → A)
      → ((s : Progress W) → P (f s))
      → Triple (IsWithin k) (get f) (λ a s. IsWithin k s × P a) (λ _. IsWithin k)
  unfolding get
  get-Keeps P f p = record { at = λ s h. (h, p s) }

  pub conclude_attempt-Keeps :
      (terminal : AttemptTransition)
      → InRange engine.limits.max_attempts terminal
      → Keeps k (conclude_attempt engine deadline terminal)
  unfolding conclude_attempt
  conclude_attempt-Keeps terminal r =
      Triple-bind _ _
        (Keeps-modify k (λ s. record s { transitions = s.transitions ++ (terminal ∷ []) })
          (λ s (a, b, c, d, f). (
            a,
            b,
            c,
            d,
            All-append (InRange engine.limits.max_attempts) s.transitions (terminal ∷ []) f (r, tt),
          )))
        λ _. Keeps-call k (engine.host.observer terminal)

  new_resume-Finished :
      (partial : RemotePartialState) (etag : String) (size : Option ℕ)
      → Finished (new_resume engine deadline partial etag size)
  unfolding new_resume
  new_resume-Finished partial etag size = ground arith

  drop_partial-Keeps : (session : Staging) → Keeps k (drop_partial engine deadline session)
  unfolding drop_partial
  drop_partial-Keeps session = Triple-bind _ _ (discard-Keeps k session) λ _.
      Triple-bind _ _ (Keeps-modify k (λ s. record s { session = none }) (λ s h. h))
        λ _. Keeps-pure k none

  detach_partial-Keeps :
      (attempt_number : ℕ) (session : Staging) (etag : String) (size : Option ℕ)
      → Keeps k (detach_partial engine deadline attempt_number session etag size)
  unfolding detach_partial
  detach_partial-Keeps attempt_number session etag size =
      Triple-bind _ _ (Keeps-call k (engine.storage.detach session)) λ partial.
        Triple-bind _ _ (Keeps-modify k (λ s. record s { session = none }) (λ s h. h)) λ _.
          Triple-bind _ _ (Keeps-of_outcome k _ (new_resume-Finished partial etag size))
            λ resumable.
              Triple-bind _ _ (Keeps-call k (engine.host.partial_observer attempt_number resumable))
                λ _. Keeps-pure k (some resumable)

  keep_partial-Keeps :
      (attempt_number : ℕ) (retryable : Bool) (session : Staging)
      → Keeps k (keep_partial engine deadline attempt_number retryable session)
  unfolding keep_partial
  keep_partial-Keeps attempt_number retryable session =
      Triple-bind _ _ (Keeps-get k (partial_etag engine deadline)) λ kept.
        Keeps-option k kept.0 (drop_partial engine deadline session) _ (drop_partial-Keeps session)
          λ etag.
            Keeps-either k (retryable && (ltb 0 session.size && is_strong_etag (some etag))) _ _
              (detach_partial-Keeps attempt_number session etag kept.1) (drop_partial-Keeps session)

  keep_session-Keeps :
      (attempt_number : ℕ) (retryable : Bool)
      → Keeps k (keep_session engine deadline attempt_number retryable)
  unfolding keep_session
  keep_session-Keeps attempt_number retryable =
      Triple-bind _ _ (Keeps-get k (λ s. s.session)) λ session.
        Keeps-option k session (pure none) (keep_partial engine deadline attempt_number retryable)
          (Keeps-pure k none) (keep_partial-Keeps attempt_number retryable)

  judge-Keeps :
      (outcome : String) (retryable : Bool) (resumable : Option ResumeState)
      → Keeps k (judge engine deadline outcome retryable resumable)
  unfolding judge
  judge-Keeps outcome retryable resumable =
      Triple-bind _ _ (Keeps-ask k engine.host.cancelled) λ stop.
        Keeps-either k stop _ _ (Keeps-pure k ("cancelled", true, "interrupted")) (
          Triple-bind _ _ (Keeps-ask k engine.host.clock)
            λ now. Keeps-pure k (judged engine deadline now outcome retryable resumable))

  can_retry-Keeps :
      (attempt_number : ℕ) (outcome : String) (retryable : Bool)
      → Keeps k (can_retry engine deadline attempt_number outcome retryable)
  unfolding can_retry
  can_retry-Keeps attempt_number outcome retryable =
      Keeps-either k
        (retryable
          && (not (str_eq outcome "budget_exhausted")
              && ltb attempt_number engine.limits.max_attempts))
        _ _
        (Triple-bind _ _ (Keeps-ask k engine.host.cancelled) λ stop.
          Keeps-either k stop _ _ (Keeps-pure k false) (
            Triple-bind _ _ (Keeps-ask k engine.host.clock) λ now. Keeps-pure k (ltb now deadline)))
        (Keeps-pure k false)

  -- The result of the transfer, and nothing to resume.
  result-Keeps :
      (f : Progress W → TransferResult)
      → Keeps k {A = Option TransferResult × Option ResumeState}
          (get f >>= λ result. pure (some result, none))
  result-Keeps f = Triple-bind _ _ (Keeps-get k f) λ result. Keeps-pure k (some result, none)

  pub settle-Keeps :
      (attempt_number : ℕ) (outcome : String) (retryable : Bool)
      → 1 ≤ attempt_number
      → attempt_number ≤ engine.limits.max_attempts
      → Keeps k (settle engine deadline attempt_number outcome retryable)
  unfolding settle transition
  settle-Keeps attempt_number outcome retryable low high =
      Triple-bind _ _ (keep_session-Keeps attempt_number retryable) λ resumable.
        Triple-bind _ _ (judge-Keeps outcome retryable resumable) λ (outcome', retryable', state).
          Triple-bind _ _
            (get-Keeps (InRange engine.limits.max_attempts)
              (λ s.
                transition engine deadline attempt_number state outcome' retryable' s.last_status s)
              (λ s. (low, high)))
            λ terminal. Triple-assume (InRange engine.limits.max_attempts terminal) λ r.
              Triple-bind _ _ (conclude_attempt-Keeps terminal r) λ _.
                Triple-bind _ _ (can_retry-Keeps attempt_number outcome' retryable') λ again.
                  Keeps-either k again _ _
                    (Triple-bind _ _
                      (Keeps-get k (λ s. delay engine deadline attempt_number s.retry_after))
                      λ seconds. Triple-bind _ _ (Keeps-ask k engine.host.clock) λ now.
                        Keeps-either k (leb deadline (now + seconds)) _ _
                          (result-Keeps (
                            failure engine deadline state "timeout" true resumable
                              (some (safe_failure_diagnostic engine.recipe.provider "timeout"))))
                          (Triple-bind _ _ (Keeps-ask k (λ w. (tt, engine.host.sleeper seconds w)))
                            λ _. Keeps-pure k (none, resumable)))
                    (result-Keeps (
                      failure engine deadline state outcome' retryable' resumable
                        terminal.diagnostic))
