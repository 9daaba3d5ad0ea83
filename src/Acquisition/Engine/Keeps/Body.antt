-- ===== src/Acquisition/Engine/Keeps/Body.antt =====
-- The parts of the `try` statement's body keep the invariant of a transfer.
use data_processing.Prelude.{
  str_eq, leb, ℕ, Option, none, some, List, [], ◌∷◌, true, false, not, ◌&&◌, ◌||◌, ◌≡◌, arith, ◌≤◌,
  ◌+◌, All, length, ltb, ◌==◌,
}
use data_processing.Effect.{Answer, answered, failed, from_answer, Outcome, returned, raised}
use data_processing.Effect.Triple.{Post, Triple, Triple-bind}
use data_processing.Acquisition.{Problem, transfer_failure, uncaught}
use data_processing.Acquisition.Transfer.{Response, ResumeState, charge, remaining_bytes}
use data_processing.Acquisition.Engine.{
  Staging, Progress, Transferring, call, check_control, modify, get_session,
}
use data_processing.Acquisition.Engine.Attempt.{
  same_etag, same_size, expected_bytes, begin, discard, open_session, accept_rest, accept_answer,
  check_size, check_known_size, charge_chunk, receive,
}
use data_processing.Acquisition.Engine.Keeps.{
  IsTrusted, InRange, Account, IsWithin, Keeps, Keeps-pure, Keeps-raise, Keeps-of_outcome,
  Keeps-call, Keeps-ask, Keeps-guard, Keeps-get, Keeps-modify, Keeps-get_session, Keeps-either,
  Keeps-option, content_length-Finished, resume_response_size-Finished,
}

module _ {W : Type 0} (k : Account W) where
  open k use {engine, deadline, max_bytes, used}

  pub check_control-Keeps : Keeps k (check_control engine deadline)
  unfolding check_control
  check_control-Keeps = Triple-bind _ _ (Keeps-ask k engine.host.cancelled) λ stop.
      Triple-bind _ _ (Keeps-guard k (not stop) (transfer_failure "cancelled" true)) λ _.
        Triple-bind _ _ (Keeps-ask k engine.host.clock)
          λ now. Keeps-guard k (not (leb deadline now)) (transfer_failure "timeout" true)

  begin-Keeps : Keeps k (begin engine deadline)
  unfolding begin
  begin-Keeps = Keeps-call k _

  pub discard-Keeps : (session : Staging) → Keeps k (discard engine deadline session)
  unfolding discard
  discard-Keeps session =
      Triple-bind _ _ (Keeps-call k (engine.storage.finalize session "remote:discarded"))
        λ staged. Keeps-call k (engine.storage.cleanup_staging staged)

  pub open_session-Keeps :
      (resume : Option ResumeState) → Keeps k (open_session engine deadline resume)
  unfolding open_session
  open_session-Keeps none = Triple-bind _ _ begin-Keeps λ session. Keeps-pure k (session, none)
  open_session-Keeps (some resume) =
      Keeps-either k (str_eq resume.partial.request_identity engine.recipe.request_identity) _ _
        (Triple-bind _ _
          (Keeps-call k (
            engine.storage.reopen_remote_staging resume.partial engine.recipe.request_identity
              engine.limits.max_item_bytes))
          λ session. Keeps-pure k (session, some resume))
        (Triple-bind _ _
          (Keeps-call k (
            engine.storage.reopen_remote_staging resume.partial resume.partial.request_identity
              engine.limits.max_item_bytes))
          λ old.
            Triple-bind _ _ (discard-Keeps old)
              λ _. Triple-bind _ _ begin-Keeps λ session. Keeps-pure k (session, none))

  accept_rest-Keeps :
      (resume : ResumeState) (response : Response)
      → Keeps k (accept_rest engine deadline resume response)
  unfolding accept_rest
  accept_rest-Keeps resume response =
      Keeps-either k (response.status_code == 206) _ _
        (Triple-bind _ _
          (Keeps-guard k (same_etag response.etag resume.strong_etag)
            (transfer_failure "source_changed" false))
          λ _.
            Triple-bind _ _
              (Keeps-of_outcome k _
                (resume_response_size-Finished k response resume.partial.byte_count))
              λ size.
                Triple-bind _ _
                  (Keeps-modify k (λ s. record s { response_size = some size }) (λ s h. h))
                  λ _.
                    Keeps-guard k (same_size resume.response_size size)
                      (transfer_failure "source_changed" false))
        (Keeps-either k (response.status_code == 200) _ _
          (Triple-bind _ _ (Keeps-get_session k) λ old. Triple-bind _ _ (discard-Keeps old) λ _.
            Triple-bind _ _ begin-Keeps λ session.
              Triple-bind _ _
                (Keeps-modify k (λ s. record s { session = some session; active_resume = none })
                  (λ s h. h))
                λ _.
                  Triple-bind _ _ (Keeps-of_outcome k _ (content_length-Finished k response))
                    λ size. Keeps-modify k (λ s. record s { response_size = size }) (λ s h. h))
          (Keeps-raise k (transfer_failure "source_changed" false)))

  pub accept_answer-Keeps : (response : Response) → Keeps k (accept_answer engine deadline response)
  unfolding accept_answer
  accept_answer-Keeps response = Triple-bind _ _ (Keeps-get k (λ s. s.active_resume)) λ active.
      Keeps-option k active _ (λ resume. accept_rest engine deadline resume response)
        (Triple-bind _ _
          (Keeps-guard k (response.status_code == 200) (transfer_failure "invalid_content" false))
          λ _.
            Triple-bind _ _ (Keeps-of_outcome k _ (content_length-Finished k response))
              λ size. Keeps-modify k (λ s. record s { response_size = size }) (λ s h. h))
        (λ resume. accept_rest-Keeps resume response)

  check_size-Keeps :
      (status size : ℕ) (session : Staging)
      → Keeps k (check_size engine deadline status size session)
  unfolding check_size
  check_size-Keeps status size session =
      Triple-bind _ _
        (Keeps-guard k
          (not (
            (not (status == 200) && ltb size session.size)
            || ltb engine.limits.max_item_bytes
                (session.size + expected_bytes status size session.size)))
          (transfer_failure "response_too_large" false))
        λ _. Triple-bind _ _ (Keeps-get k (λ s. remaining_bytes s.budget)) λ remaining.
          Keeps-guard k (not (ltb remaining (expected_bytes status size session.size)))
            (transfer_failure "budget_exhausted" true)

  pub check_known_size-Keeps :
      (response : Response) → Keeps k (check_known_size engine deadline response)
  unfolding check_known_size
  check_known_size-Keeps response = Triple-bind _ _ (Keeps-get_session k) λ session.
      Triple-bind _ _ (Keeps-get k (λ s. s.response_size)) λ size.
        Keeps-option k size _ (λ n. check_size engine deadline response.status_code n session)
          (Keeps-pure k tt) (λ n. check_size-Keeps response.status_code n session)

  -- The bytes of a chunk are charged, which what was received may take up.
  Charged : ℕ → Progress W → Type 0
  Charged n s =
      (s.budget.used_bytes ≤ s.budget.max_bytes)
      × (s.budget.max_bytes ≡ max_bytes)
      × (used + s.received_total + n ≤ s.budget.used_bytes)
      × All (IsTrusted engine) s.requested
      × All (InRange engine.limits.max_attempts) s.transitions

  abbrev KeepsCharged : {A : Type 0} → ℕ → Transferring W A → Type 0
  KeepsCharged n m = Triple (Charged n) m (λ _. Charged n) (λ _. IsWithin k)

  Charged-IsWithin : (n : ℕ) (s : Progress W) → Charged n s → IsWithin k s
  unfolding Charged
  Charged-IsWithin n s (a, b, c, d, f) = (a, b, omega (arith, c), d, f)

  charge_chunk-Charged :
      (chunk : List ℕ)
      → Triple
          (IsWithin k)
          (charge_chunk engine deadline chunk)
          (λ _. Charged (length chunk))
          (λ _. IsWithin k)
  unfolding charge_chunk charge remaining_bytes Charged
  charge_chunk-Charged chunk = record { at = λ s h. ground (arith, h) }

  call-Charged : {A : Type 0} (n : ℕ) (f : W → Answer Problem A × W) → KeepsCharged n (call f)
  unfolding call Charged
  call-Charged {A = A} n f = record { at = λ s h. answer (f s.world).0 (f s.world).1 s h }
    where
      answer :
          (a : Answer Problem A) (w : W) (s : Progress W)
          → Charged n s
          → Post (λ _. Charged n) (λ _. IsWithin k) (from_answer a, record s { world = w })
      answer (answered a) w s h = h
      answer (failed x) w s h = Charged-IsWithin n (record s { world = w }) h

  session-Charged : (n : ℕ) → KeepsCharged n get_session
  unfolding get_session
  session-Charged n = record {
    at = λ s h.
        elim s.session
          as (λ x.
            Post {A = Staging} (λ _. Charged n) (λ _. IsWithin k)
              (elim x as (λ _. Outcome Problem Staging × Progress W) [
                | none ↦ (raised (uncaught "AssertionError"), s)
                | some session ↦ (returned session, s)
              ])) [ none ↦ Charged-IsWithin n s h | some x ↦ h ];
  }

  received-Keeps :
      (n : ℕ) (written : Staging)
      → Triple
          (Charged n)
          (modify (λ s. record s {
            session = some written;
            attempt_bytes = s.attempt_bytes + n;
            received_total = s.received_total + n;
          }))
          (λ _. IsWithin k)
          (λ _. IsWithin k)
  unfolding modify Charged
  received-Keeps n written = record { at = λ s (a, b, c, d, f). (a, b, omega (arith, c), d, f) }

  pub receive-Keeps :
      (chunks : List (List ℕ)) (fault : Option Problem)
      → Keeps k (receive engine deadline chunks fault)
  unfolding receive
  receive-Keeps [] none = Keeps-pure k tt
  receive-Keeps [] (some x) = Keeps-raise k x
  receive-Keeps (chunk ∷ rest) fault = Triple-bind _ _ check_control-Keeps λ _.
      Triple-bind _ _ (charge_chunk-Charged chunk) λ _.
        Triple-bind _ _ (session-Charged (length chunk)) λ session.
          Triple-bind _ _ (call-Charged (length chunk) (engine.storage.write session chunk))
            λ written.
              Triple-bind _ _ (received-Keeps (length chunk) written) λ _. receive-Keeps rest fault
