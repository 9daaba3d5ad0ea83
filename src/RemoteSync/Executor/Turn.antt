-- ===== src/RemoteSync/Executor/Turn.antt =====
-- One turn of the loop over pages.
use data_processing.Prelude.{
  ℕ, ◌+◌, ◌≤◌, ◌≡◌, refl, ap, subst, ◌∙◌, Option, none, some, List, arith,
}
use data_processing.Effect.{
  Outcome, returned, raised, unfinished, Answer, answered, failed, from_answer, of_outcome,
}
use data_processing.Effect.Triple.{
  Post, Post-weaken, Triple, Triple-bind, Triple-bind_weak, Triple-weaken, Triple-keep,
}
use data_processing.RemoteSync.Types.{
  Exception, AdapterRequest, Continuation, ResponseEnvelope, NormalizedPage, record_count,
}
use data_processing.RemoteSync.Session.{BudgetTracker, Session, call_transport}
use data_processing.RemoteSync.Budget.{admit_page}
use data_processing.RemoteSync.Budget.Admission.{IsWithin}
use data_processing.RemoteSync.Gate
use data_processing.RemoteSync.Gate.{GateSettings}
use data_processing.RemoteSync.Gate.Sound.{Sound, Made, Answered}
use data_processing.RemoteSync.Gate.Attempts.{Retains, Spent, execute-Spent}
use data_processing.RemoteSync.Executor.{
  RetainedPage, Calls, find_captured, capture_answer, capture, raw_id_of, check_continuation,
  clear_captured, next_page,
}
use data_processing.RemoteSync.Executor.Captured.{find_captured-append_last}
use data_processing.RemoteSync.Executor.Contract.{RetainOk, CallsKeep}

module _ {S : Type 0} (J : ℕ → S → Type 0) (gate : GateSettings) where
  -- What the turns of the loop keep, from the budget `b` on: each page is paid for by a request of its own.
  pub record Within (b : BudgetTracker) (s : Session S) : Type 0 where
    pub sound : Sound gate.minimum_interval_seconds J s
    pub within : IsWithin s.budget
    pub same_limits : s.limits ≡ b.limits
    pub grown : b.requests ≤ s.requests
    pub paid : b.requests + s.pages ≤ s.requests + b.pages

  abbrev pub Ready : BudgetTracker → Session S → Type 0
  Ready b s = Sound gate.minimum_interval_seconds J s × IsWithin s.budget × (s.budget ≡ b)

  -- After a turn: one page more, with its records.
  abbrev pub Turned : BudgetTracker → AdapterRequest × NormalizedPage → Session S → Type 0
  Turned b rp s =
      Within b s
      × (b.requests + 1 ≤ s.requests)
      × (s.pages ≡ b.pages + 1)
      × (s.records ≡ b.records + record_count rp.1)

module _ {S : Type 0} (J : ℕ → S → Type 0) (K : ResponseEnvelope → ℕ → S → Type 0)
    (gate : GateSettings) (calls : Calls S) (keep : CallsKeep J K gate calls) where
  -- The response is found among the captured ones, under an id by which it is retained.
  abbrev pub Found : ResponseEnvelope → List (ResponseEnvelope × ℕ) → S → Type 0
  Found response captured store =
      (raw_id : ℕ) × (find_captured response.object captured ≡ some raw_id)
      × K response raw_id store

  module _ (b : BudgetTracker) (response : ResponseEnvelope) (s : Session S)
      (h : Made gate J b s) where
    capture_answer-Answered :
        (r : Outcome Exception ℕ × S)
        → RetainOk J K response (b.requests + 1) r
        → Post
            (λ _ s'. Answered gate J b s' × Found response s'.captured s'.store)
            (λ _. Answered gate J b)
            (capture_answer calls response r s)
    unfolding capture_answer
    capture_answer-Answered (returned raw_id, store) ok =
        (ground arith, (raw_id, find_captured-append_last response raw_id s.captured, ok.1))
    capture_answer-Answered (raised e, store) ok = ground arith
    capture_answer-Answered (unfinished, store) ok = absurd ok

  pub capture-Retains : Retains gate J Found (capture calls)
  unfolding capture
  capture-Retains = record {
    at = λ b response. record {
      at = λ s h.
          let charged : s.requests ≡ b.requests + 1 =
            ap (λ (t : BudgetTracker). t.requests) h.charged in
          capture_answer-Answered b response s h _
            (rw charged (keep.retains response b.requests s.store h.stored));
    };
  }

  check-Ready :
      (b : BudgetTracker) (c : Option Continuation)
      → Triple
          (Ready J gate b)
          (check_continuation calls c)
          (λ _. Ready J gate b)
          (λ _. Within J gate b)
  unfolding check_continuation
  check-Ready b none = record { at = λ s h. h }
  check-Ready b (some c) = record { at = λ s h. ground arith }

  clear-Ready :
      (b : BudgetTracker) (E : Exception → Session S → Type 0)
      → Triple (Ready J gate b) (clear_captured calls) (λ _. Ready J gate b) E
  unfolding clear_captured
  clear-Ready b E = record { at = λ s h. ground arith }

  -- The response of this turn is there, and retained.
  abbrev Fetched : BudgetTracker → ResponseEnvelope → Session S → Type 0
  Fetched b response s =
      Within J gate b s
      × (b.requests + 1 ≤ s.requests)
      × (s.pages ≡ b.pages)
      × (s.records ≡ b.records)
      × Found response s.captured s.store

  Spent-Within :
      (low n : ℕ) (b : BudgetTracker) (s : Session S)
      → IsWithin b
      → Spent gate J low n b s
      → Within J gate b s
  Spent-Within low n b s w h = record {
    sound = h.sound;
    within = ground arith;
    same_limits = h.same_limits;
    grown = ground arith;
    paid = ground arith;
  }

  fetch-Fetched :
      (b : BudgetTracker) (request : AdapterRequest)
      → Triple
          (Ready J gate b)
          (Gate.execute gate (call_transport calls.transport request) (capture calls))
          (Fetched b)
          (λ _. Within J gate b)
  fetch-Fetched b request =
      Triple-weaken (λ s h. ((h.0, h.2), subst (λ t. IsWithin t) h.2 h.1))
        (λ r s h. (
          Spent-Within 1 _ b s h.1 h.0.0,
          h.0.0.at_least,
          h.0.0.same_pages,
          h.0.0.same_records,
          h.0.1,
        ))
        (λ e s h. Spent-Within 0 _ b s h.1 h.0)
        (Triple-keep (IsWithin b) (
          execute-Spent gate J Found calls.transport (capture calls) request keep.mono
            capture-Retains b))

  abbrev Retained : BudgetTracker → ResponseEnvelope → ℕ → Session S → Type 0
  Retained b response raw_id s =
      Within J gate b s
      × (b.requests + 1 ≤ s.requests)
      × (s.pages ≡ b.pages)
      × (s.records ≡ b.records)
      × K response raw_id s.store

  -- The search never fails.
  raw_id-Retained :
      (b : BudgetTracker) (response : ResponseEnvelope)
      → Triple (Fetched b response) (raw_id_of calls response) (Retained b response) (λ _ s. ⊥)
  unfolding raw_id_of
  raw_id-Retained b response = record {
    at = λ s h.
        let (raw_id, found, kept) = h.4 in rw (found, raw_id_of, Post) (h.0, h.1, h.2, h.3, kept);
  }

  normalize-Retained :
      (b : BudgetTracker) (response : ResponseEnvelope) (raw_id : ℕ)
      (answer : Answer Exception NormalizedPage)
      → Triple
          (Retained b response raw_id)
          (of_outcome (from_answer answer))
          (λ _. Retained b response raw_id)
          (λ _. Within J gate b)
  normalize-Retained b response raw_id (answered page) = record { at = λ s h. h }
  normalize-Retained b response raw_id (failed e) = record { at = λ s h. h.0 }

  admit-Retained :
      (b : BudgetTracker) (response : ResponseEnvelope) (raw_id n : ℕ)
      → Triple
          (Retained b response raw_id)
          (admit_page n)
          (λ _. Retained b response raw_id)
          (λ _. Within J gate b)
  unfolding admit_page
  admit-Retained b response raw_id n = record { at = λ s h. ground arith }

  commit-Turned :
      (b : BudgetTracker) (page : RetainedPage)
      → Triple
          (Retained b page.response page.raw_observation_id)
          (calls.commit_page page)
          (λ _. Turned J gate b (page.request, page.page))
          (λ _. Within J gate b)
  commit-Turned b page = record {
    at = λ s h.
        Post-weaken {Q' = λ _. Turned J gate b (page.request, page.page)}
          {E' = λ _. Within J gate b} (calls.commit_page page s)
          (λ _ s' q. (
            record {
              sound = q.0;
              within = q.2;
              same_limits = ground (arith, h.0.same_limits);
              grown = ground arith;
              paid = ground (arith, h.0.paid);
            },
            ground arith,
            ground arith,
            ground arith,
          ))
          (λ e s' q. record {
            sound = q.0;
            within = q.1;
            same_limits = q.3 ∙ h.0.same_limits;
            grown = ground arith;
            paid = ground (arith, h.0.paid);
          })
          ((keep.commits s.budget page).at s (h.0.sound, refl, h.0.within, h.4));
  }

  pub next_page-Turned :
      (b : BudgetTracker) (c : Option Continuation)
      → Triple (Ready J gate b) (next_page calls gate c) (Turned J gate b) (λ _. Within J gate b)
  unfolding next_page
  next_page-Turned b c = Triple-bind _ _ (check-Ready b c) λ _.
      Triple-bind _ _ (clear-Ready b _) λ _. Triple-bind _ _ (fetch-Fetched b _) λ response.
        Triple-bind_weak _ _ (raw_id-Retained b response) (λ e s q. absurd q)
          λ raw_id. Triple-bind _ _ (normalize-Retained b response raw_id _) λ page.
            Triple-bind _ _ (admit-Retained b response raw_id (record_count page))
              λ _. Triple-bind _ _ (commit-Turned b _) λ _. record { at = λ s h. h }
