-- ===== src/Acquisition/Engine/Keeps.antt =====
-- What every step of a transfer keeps: the budget covers what was received, the client is asked for trusted
-- URLs only, and the transitions are of attempts within the limit.
pub mod Body
pub mod Redirects
pub mod Settling
pub mod Whole
use data_processing.Prelude.{
  ℕ, zero, suc, String, Option, none, some, List, [], ◌∷◌, ◌++◌, Bool, true, false, not, ◌≡◌, ◌⊎◌,
  inl, inr, refl, sym, ap, subst, arith, ◌≤◌, ◌+◌, All, All-append, length, leb, ltb, ◌||◌, ◌==◌,
  str_eq, Bool-cases, if◌then◌else◌,
}
use data_processing.Effect.{
  Outcome, returned, raised, unfinished, Answer, answered, failed, from_answer, Step, pure, raise,
  of_outcome, ◌>>=◌,
}
use data_processing.Effect.Triple.{Post, Triple, Triple-bind}
use data_processing.Acquisition.{Problem, transfer_failure, uncaught}
use data_processing.Acquisition.Policies.{validate_destination}
use data_processing.Acquisition.Transfer.{
  TransferBudget, AttemptTransition, Response, ResumeState, charge, content_length,
  resume_response_size, credential_headers, remaining_bytes, check_length, content_range,
}
use data_processing.Acquisition.Engine.{
  Staging, Engine, Progress, Transferring, call, ask, guard, modify, get, get_session,
  check_control,
}
use data_processing.Acquisition.Engine.Attempt.{
  begin, discard, open_session, accept_rest, accept_answer, check_size, check_known_size,
  charge_chunk, receive,
}

-- The URL of the recipe, or one that its policy trusts for redirects.
abbrev pub IsTrusted : {W : Type 0} → Engine W → String → Type 0
IsTrusted e url =
    (url ≡ e.recipe.url)
    ⊎ ((parsed : _) × (validate_destination e.urls url e.recipe.redirect_hosts ≡ returned parsed))

abbrev pub InRange : ℕ → AttemptTransition → Type 0
InRange limit t = (1 ≤ t.attempt_number) × (t.attempt_number ≤ limit)

abbrev pub Finished : {A : Type 0} → Outcome Problem A → Type 0
Finished (returned a) = Unit
Finished (raised x) = Unit
Finished unfinished = ⊥

-- A transfer with its deadline, and the budget with which it starts.
pub record Account (W : Type 0) : Type 0 where
  pub engine : Engine W
  pub deadline : ℕ
  pub max_bytes : ℕ
  pub used : ℕ

module _ {W : Type 0} (k : Account W) where
  open k use {engine, max_bytes, used}

  abbrev pub IsWithin : Progress W → Type 0
  IsWithin s =
      (s.budget.used_bytes ≤ s.budget.max_bytes)
      × (s.budget.max_bytes ≡ max_bytes)
      × (used + s.received_total ≤ s.budget.used_bytes)
      × All (IsTrusted engine) s.requested
      × All (InRange engine.limits.max_attempts) s.transitions

  abbrev pub Keeps : {A : Type 0} → Transferring W A → Type 0
  Keeps m = Triple IsWithin m (λ _. IsWithin) (λ _. IsWithin)

  pub Keeps-pure : {A : Type 0} (a : A) → Keeps (pure a)
  Keeps-pure a = record { at = λ s h. h }

  pub Keeps-raise : {A : Type 0} (x : Problem) → Keeps {A = A} (raise x)
  Keeps-raise x = record { at = λ s h. h }

  pub Keeps-of_outcome : {A : Type 0} (o : Outcome Problem A) → Finished o → Keeps (of_outcome o)
  Keeps-of_outcome (returned a) f = record { at = λ s h. h }
  Keeps-of_outcome (raised x) f = record { at = λ s h. h }
  Keeps-of_outcome unfinished f = absurd f

  pub Keeps-call : {A : Type 0} (f : W → Answer Problem A × W) → Keeps (call f)
  unfolding call
  Keeps-call {A = A} f = record { at = λ s h. answer (f s.world).0 (f s.world).1 s h }
    where
      answer :
          (a : Answer Problem A) (w : W) (s : Progress W)
          → IsWithin s
          → Post (λ _. IsWithin) (λ _. IsWithin) (from_answer a, record s { world = w })
      answer (answered a) w s h = h
      answer (failed x) w s h = h

  pub Keeps-ask : {A : Type 0} (f : W → A × W) → Keeps (ask f)
  unfolding ask
  Keeps-ask f = record { at = λ s h. h }

  pub Keeps-guard : (b : Bool) (x : Problem) → Keeps (guard b x)
  unfolding guard
  Keeps-guard true x = record { at = λ s h. h }
  Keeps-guard false x = record { at = λ s h. h }

  pub Keeps-get : {A : Type 0} (f : Progress W → A) → Keeps (get f)
  unfolding get
  Keeps-get f = record { at = λ s h. h }

  pub Keeps-modify :
      (f : Progress W → Progress W)
      → ((s : Progress W) → IsWithin s → IsWithin (f s))
      → Keeps (modify f)
  unfolding modify
  Keeps-modify f j = record { at = j }

  pub Keeps-get_session : Keeps get_session
  unfolding get_session
  Keeps-get_session = record {
    at = λ s h.
        elim s.session
          as (λ x.
            Post {A = Staging} (λ _. IsWithin) (λ _. IsWithin)
              (elim x as (λ _. Outcome Problem Staging × Progress W) [
                | none ↦ (raised (uncaught "AssertionError"), s)
                | some session ↦ (returned session, s)
              ])) [ none ↦ h | some x ↦ h ];
  }

  pub Keeps-either :
      {A : Type 0} (b : Bool) (m n : Transferring W A)
      → Keeps m
      → Keeps n
      → Keeps (elim b [ true ↦ m | false ↦ n ])
  Keeps-either true m n h j = h
  Keeps-either false m n h j = j

  pub Keeps-option :
      {A B : Type 0} (o : Option B) (m : Transferring W A) (f : B → Transferring W A)
      → Keeps m
      → ((b : B) → Keeps (f b))
      → Keeps (elim o [ none ↦ m | some b ↦ f b ])
  Keeps-option none m f h j = h
  Keeps-option (some b) m f h j = j b

  pub content_length-Finished :
      (response : Response) → Finished (content_length engine.numbers response)
  unfolding content_length
  content_length-Finished response = ground arith

  check_length-Finished :
      (start end total : ℕ) (o : Outcome Problem (Option ℕ))
      → Finished o
      → Finished (check_length engine.numbers start end total o)
  unfolding check_length
  check_length-Finished start end total (returned none) h = tt
  check_length-Finished start end total (returned (some n)) h = ground arith
  check_length-Finished start end total (raised x) h = tt
  check_length-Finished start end total unfinished h = h

  pub resume_response_size-Finished :
      (response : Response) (offset : ℕ)
      → Finished (resume_response_size engine.numbers response offset)
  unfolding resume_response_size
  resume_response_size-Finished response offset =
      sized (content_range (elim response.content_range [ none ↦ "" | some s ↦ s ]))
    where
      sized :
          (r : Option (ℕ × ℕ × Option ℕ))
          → Finished (elim r as (λ _. Outcome Problem ℕ) [
            | none ↦ raised (transfer_failure "source_changed" false)
            | some (start, end, none) ↦ raised (transfer_failure "source_changed" false)
            | some (start, end, some total) ↦
                if not (start == offset) || ltb end start
                then raised (transfer_failure "source_changed" false)
                else if not (total == end + 1)
                then raised (transfer_failure "source_changed" false)
                else check_length engine.numbers start end total
                    (content_length engine.numbers response)
          ])
      sized none = tt
      sized (some (start, end, none)) = tt
      sized (some (start, end, some total)) = ground (
        arith,
        check_length-Finished start end total (content_length engine.numbers response)
            (content_length-Finished response),
      )
