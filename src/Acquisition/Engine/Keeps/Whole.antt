-- ===== src/Acquisition/Engine/Keeps/Whole.antt =====
-- A whole transfer keeps its invariant, and ends.
use data_processing.Prelude.{
  ℕ, zero, suc, Option, none, some, true, false, refl, arith, ◌≤◌, ◌+◌, ◌<>◌, All, str_eq,
}
use data_processing.Effect.{Outcome, returned, raised, unfinished, pure}
use data_processing.Effect.Triple.{Post, Post-weaken, Triple-bind, Triple-assume}
use data_processing.Acquisition.{
  Problem, transfer_failure, timeout_exception, transport_error, request_policy_error,
  asset_storage_error, os_error, uncaught,
}
use data_processing.Acquisition.Policies.{accepts}
use data_processing.Acquisition.Transfer.{
  Response, ResumeState, TransferBudget, credential_headers, retry_after_seconds,
}
use data_processing.Acquisition.Engine.{StagedAsset, Engine, Progress}
use data_processing.Acquisition.Engine.Attempt.{TransferResult, caught, same_size, request_headers}
use data_processing.Acquisition.Engine.Transition.{transition, running}
use data_processing.Acquisition.Engine.Attempts.{
  fetch, stage, completed, complete, attempt, fresh, handle, try_once, attempts, start, transfer,
}
use data_processing.Acquisition.Engine.Keeps.{
  IsTrusted, InRange, Finished, Account, IsWithin, Keeps, Keeps-pure, Keeps-raise, Keeps-of_outcome,
  Keeps-call, Keeps-get, Keeps-guard, Keeps-modify, Keeps-get_session, Keeps-option,
  content_length-Finished,
}
use data_processing.Acquisition.Engine.Keeps.Body.{
  check_control-Keeps, open_session-Keeps, accept_answer-Keeps, check_known_size-Keeps,
  receive-Keeps,
}
use data_processing.Acquisition.Engine.Keeps.Redirects.{request-Keeps}
use data_processing.Acquisition.Engine.Keeps.Settling.{
  get-Keeps, conclude_attempt-Keeps, settle-Keeps,
}

module _ {W : Type 0} (k : Account W) where
  open k use {engine, deadline, max_bytes, used}

  credential_headers-Finished :
      Finished (credential_headers engine.recipe engine.credential_resolver)
  unfolding credential_headers
  credential_headers-Finished = ground arith

  fetch-Keeps : Keeps k (fetch engine deadline)
  unfolding fetch
  fetch-Keeps = Triple-bind _ _ (Keeps-get k (λ s. s.active_resume)) λ active.
      Triple-bind _ _ (Keeps-of_outcome k _ credential_headers-Finished) λ headers.
        Triple-bind _ _ (request-Keeps k (request_headers engine deadline active headers))
          λ (response, redirects).
            Triple-bind _ _
              (Keeps-modify k
                (λ s. record s {
                  redirects = redirects;
                  last_status = some response.status_code;
                  response_etag = response.etag;
                  retry_after = retry_after_seconds engine.numbers response.retry_after;
                })
                (λ s h. h))
              λ _. Keeps-pure k response

  stage-Keeps : (response : Response) → Keeps k (stage engine deadline response)
  unfolding stage
  stage-Keeps response = Triple-bind _ _ (check_known_size-Keeps k response) λ _.
      Triple-bind _ _ (Keeps-of_outcome k _ (content_length-Finished k response)) λ declared.
        Triple-bind _ _ (receive-Keeps k response.chunks response.fault) λ _.
          Triple-bind _ _ (Keeps-get k (λ s. s.attempt_bytes)) λ received.
            Triple-bind _ _
              (Keeps-guard k (same_size declared received) (transfer_failure "source_changed" true))
              λ _. Triple-bind _ _ (Keeps-get_session k) λ session.
                Triple-bind _ _ (Keeps-get k (λ s. s.response_size)) λ size.
                  Triple-bind _ _
                    (Keeps-guard k (same_size size session.size)
                      (transfer_failure "source_changed" true))
                    λ _.
                      Triple-bind _ _
                        (Keeps-call k
                          (engine.storage.finalize session ("remote:" <> engine.recipe.provider)))
                        λ staged.
                          Triple-bind _ _
                            (Keeps-modify k (λ s. record s { session = none }) (λ s h. h))
                            λ _. Keeps-pure k staged

  module _ (attempt_number : ℕ) (low : 1 ≤ attempt_number)
      (high : attempt_number ≤ engine.limits.max_attempts) where
    complete-Keeps :
        (response : Response) (staged : StagedAsset)
        → Keeps k (complete engine deadline attempt_number response staged)
    unfolding complete transition
    complete-Keeps response staged =
        Triple-bind _ _
          (get-Keeps k (InRange engine.limits.max_attempts)
            (transition engine deadline attempt_number "complete" "downloaded" false
              (some response.status_code))
            (λ s. (low, high)))
          λ terminal. Triple-assume (InRange engine.limits.max_attempts terminal) λ r.
            Triple-bind _ _ (conclude_attempt-Keeps k terminal r)
              λ _. Keeps-get k (completed engine deadline response staged)

    attempt-Keeps :
        (resume : Option ResumeState) → Keeps k (attempt engine deadline attempt_number resume)
    unfolding attempt
    attempt-Keeps resume = Triple-bind _ _ (check_control-Keeps k) λ _.
        Triple-bind _ _ (open_session-Keeps k resume) λ (session, active).
          Triple-bind _ _
            (Keeps-modify k (λ s. record s { session = some session; active_resume = active })
              (λ s h. h))
            λ _. Triple-bind _ _ fetch-Keeps λ response.
              let classification = engine.recipe.status_classifier response.status_code in
              Triple-bind _ _
                (Keeps-guard k (str_eq classification.category "success")
                  (transfer_failure classification.category classification.retryable))
                λ _. Triple-bind _ _ (accept_answer-Keeps k response) λ _.
                  Triple-bind _ _
                    (Keeps-guard k
                      (accepts engine.urls engine.recipe.response response.content_type)
                      (transfer_failure "invalid_content" false))
                    λ _.
                      Triple-bind _ _ (stage-Keeps response)
                        λ staged. complete-Keeps response staged

    handle-Keeps :
        (r : Outcome Problem TransferResult × Progress W)
        → Post (λ _. IsWithin k) (λ _. IsWithin k) r
        → Post (λ _. IsWithin k) (λ _. IsWithin k) (handle engine deadline attempt_number r)
    unfolding handle caught
    handle-Keeps (returned result, s) h = h
    handle-Keeps (raised (transfer_failure o r), s) h =
        (settle-Keeps k attempt_number o r low high).at s h
    handle-Keeps (raised timeout_exception, s) h =
        (settle-Keeps k attempt_number "timeout" true low high).at s h
    handle-Keeps (raised transport_error, s) h =
        (settle-Keeps k attempt_number "transient_provider" true low high).at s h
    handle-Keeps (raised (request_policy_error c), s) h =
        (settle-Keeps k attempt_number "policy_failure" false low high).at s h
    handle-Keeps (raised (asset_storage_error c), s) h =
        (settle-Keeps k attempt_number c false low high).at s h
    handle-Keeps (raised os_error, s) h =
        (settle-Keeps k attempt_number "storage_failure" false low high).at s h
    handle-Keeps (raised (uncaught n), s) h = h
    handle-Keeps (unfinished, s) h = h

    try_once-Keeps :
        (resume : Option ResumeState) → Keeps k (try_once engine deadline attempt_number resume)
    unfolding try_once fresh
    try_once-Keeps resume =
        Triple-bind _ _
          (Keeps-call k (engine.host.observer (running engine deadline attempt_number resume)))
          λ _. record {
            at = λ s (a, b, c, d, f).
                handle-Keeps
                  (attempt engine deadline attempt_number resume (fresh engine deadline s))
                  ((attempt-Keeps resume).at (fresh engine deadline s) (a, b, c, d, f));
          }

  attempts-Keeps :
      (left attempt_number : ℕ) (resume : Option ResumeState)
      → 1 ≤ attempt_number
      → left + attempt_number ≤ engine.limits.max_attempts + 1
      → Keeps k (attempts engine deadline left attempt_number resume)
  unfolding attempts
  attempts-Keeps zero attempt_number resume low high = Keeps-raise k (uncaught "AssertionError")
  attempts-Keeps (suc left) attempt_number resume low high =
      Triple-bind _ _ (try_once-Keeps attempt_number low (omega (arith, high)) resume)
        λ (result, resumable).
          Keeps-option k result (attempts engine deadline left (attempt_number + 1) resumable)
            (λ r. pure r)
            (attempts-Keeps left (attempt_number + 1) resumable (omega arith) (omega (arith, high)))
            (λ r. Keeps-pure k r)

-- What is true of the variables of a transfer with this budget, whenever it is left.
abbrev pub IsBounded : {W : Type 0} → Engine W → TransferBudget → Progress W → Type 0
IsBounded e budget s =
    (s.budget.used_bytes ≤ budget.max_bytes)
    × (budget.used_bytes + s.received_total ≤ s.budget.used_bytes)
    × All (IsTrusted e) s.requested
    × All (InRange e.limits.max_attempts) s.transitions

-- `transfer` ends for every client, clock and storage. Whether it returns or raises, the budget has been
-- charged with every byte that it received and is not exceeded, the client was asked only for the URL of
-- the recipe and for destinations that `validate_destination` accepts for the recipe's hosts, and every
-- transition is of an attempt from 1 to `max_attempts`, where the budget is not exceeded at the start.
pub transfer-IsBounded :
    {W : Type 0} (e : Engine W) (resume : Option ResumeState) (budget : TransferBudget) (world : W)
    → budget.used_bytes ≤ budget.max_bytes
    → Post (λ _. IsBounded e budget) (λ _. IsBounded e budget) (transfer e resume budget world)
unfolding transfer start
transfer-IsBounded {W} e resume budget world h =
    Post-weaken _ (λ _. bounded) (λ _. bounded)
      ((attempts-Keeps account e.limits.max_attempts 1 resume (omega arith) (omega arith)).at
        (start e (e.host.clock world).1 budget) (h, refl, omega arith, tt, tt))
  where
    account : Account W
    account = record {
      engine = e;
      deadline = (e.host.clock world).0 + e.limits.max_seconds;
      max_bytes = budget.max_bytes;
      used = budget.used_bytes;
    }

    bounded : (s : Progress W) → IsWithin account s → IsBounded e budget s
    bounded s (a, b, c, d, f) = (omega (arith, a, b), c, d, f)
