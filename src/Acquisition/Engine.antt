-- ===== src/Acquisition/Engine.antt =====
-- `HTTPTransferEngine` of acquisition/transfer.py: what it is given, the state of a transfer, and the
-- loop over redirects.
pub mod Attempt
pub mod Transition
pub mod Settle
pub mod Attempts
pub mod Keeps
pub mod Requests
use data_processing.Prelude.{
  ℕ, zero, suc, String, Option, none, some, List, [], ◌∷◌, ◌++◌, Bool, true, false, not, ◌&&◌, ◌||◌,
  str_eq, leb, ◌==◌, ◌+◌, if◌then◌else◌,
}
use data_processing.Effect.{
  Outcome, returned, raised, unfinished, Answer, from_answer, Step, pure, raise, of_outcome, ◌>>=◌,
  ◌>>◌,
}
use data_processing.Acquisition.{Problem, transfer_failure, request_policy_error, uncaught}
use data_processing.Acquisition.Policies.{RequestLibrary, validate_redirect}
use data_processing.Acquisition.Transfer.{
  Numbers, TransferLimits, TransferBudget, RemotePartialState, ResumeState, AttemptTransition,
  RequestRecipe, ResolvedCredentials, Response,
}

-- `RemoteStagingSession`, as far as the engine reads it, with the name under which storage has it.
pub record Staging : Type 0 where
  pub staging_name : String
  pub size : ℕ

pub record StagedAsset : Type 0 where
  pub staging_name : String
  pub source_path : String
  pub size : ℕ

-- The operations of `AssetStorage` and of its sessions that the engine calls.
pub record Storage (W : Type 0) : Type 0 where
  pub begin_remote_staging : String → ℕ → W → Answer Problem Staging × W
  pub reopen_remote_staging : RemotePartialState → String → ℕ → W → Answer Problem Staging × W
  pub write : Staging → List ℕ → W → Answer Problem Staging × W
  pub detach : Staging → W → Answer Problem RemotePartialState × W
  pub finalize : Staging → String → W → Answer Problem StagedAsset × W
  pub cleanup_staging : StagedAsset → W → Answer Problem (Unit {0}) × W

-- The client, the clock, the sleeper, the cancellation and the two observers. `rendered` is the text of
-- the URL that the client builds from a text.
pub record Host (W : Type 0) : Type 0 where
  pub clock : W → ℕ × W
  pub cancelled : W → Bool × W
  pub sleeper : ℕ → W → W
  pub send : String → List (String × String) → W → Answer Problem Response × W
  pub rendered : String → String
  pub observer : AttemptTransition → W → Answer Problem (Unit {0}) × W
  pub partial_observer : ℕ → ResumeState → W → Answer Problem (Unit {0}) × W

-- The arguments of `transfer`, with what it calls.
pub record Engine (W : Type 0) : Type 0 where
  pub urls : RequestLibrary
  pub numbers : Numbers
  pub host : Host W
  pub storage : Storage W
  pub recipe : RequestRecipe
  pub limits : TransferLimits
  pub credential_resolver : Option (String → Option ResolvedCredentials)

-- The variables of `transfer` that an attempt changes, with the world and the budget. `requested` lists
-- the URLs that the client was asked for, the last first.
pub record Progress (W : Type 0) : Type 0 where
  pub world : W
  pub budget : TransferBudget
  pub requested : List String
  pub transitions : List AttemptTransition
  pub received_total : ℕ
  pub last_status : Option ℕ
  pub session : Option Staging
  pub active_resume : Option ResumeState
  pub redirects : ℕ
  pub attempt_bytes : ℕ
  pub response_size : Option ℕ
  pub response_etag : Option String
  pub retry_after : Option ℕ

abbrev pub Transferring : Type 0 → Type 0 → Type 0
Transferring W A = Step Problem (Progress W) A

module _ {W : Type 0} where
  -- A call that may raise, and one that may not.
  unfoldable pub call : {A : Type 0} → (W → Answer Problem A × W) → Transferring W A
  call f s = let (a, w) = f s.world in (from_answer a, record s { world = w })

  unfoldable pub ask : {A : Type 0} → (W → A × W) → Transferring W A
  ask f s = let (a, w) = f s.world in (returned a, record s { world = w })

  unfoldable pub guard : Bool → Problem → Transferring W (Unit {0})
  guard true e = pure tt
  guard false e = raise e

  -- A write to the variables.
  unfoldable pub modify : (Progress W → Progress W) → Transferring W (Unit {0})
  modify f s = (returned tt, f s)

  -- A reading of the variables.
  unfoldable pub get : {A : Type 0} → (Progress W → A) → Transferring W A
  get f s = (returned (f s), s)

  -- `assert session is not None`
  unfoldable pub get_session : Transferring W Staging
  get_session s = elim s.session [
    | none ↦ (raised (uncaught "AssertionError"), s)
    | some session ↦ (returned session, s)
  ]

-- `_REDIRECT_STATUSES`
unfoldable pub is_redirect : ℕ → Bool
is_redirect status =
    status == 301 || status == 302 || status == 303 || status == 307 || status == 308

unfoldable pub is_empty : List String → Bool
is_empty [] = true
is_empty (s ∷ rest) = false

-- The `except` clause around `validate_redirect`
unfoldable pub policy_failure : {A : Type 0} → Outcome Problem A → Outcome Problem A
policy_failure (returned a) = returned a
policy_failure (raised (request_policy_error category)) =
    raised (transfer_failure "policy_failure" false)
policy_failure (raised e) = raised e
policy_failure unfinished = unfinished

module _ {W : Type 0} (e : Engine W) (deadline : ℕ) where
  -- `_check_control`
  unfoldable pub check_control : Transferring W (Unit {0})
  unfolding ask guard ◌>>=◌
  check_control = do
    stop ← ask e.host.cancelled
    guard (not stop) (transfer_failure "cancelled" true)
    now ← ask e.host.clock
    guard (not (leb deadline now)) (transfer_failure "timeout" true)

  unfoldable pub send : String → List (String × String) → Transferring W Response
  unfolding call
  send url headers s = call (e.host.send url headers) (record s { requested = url ∷ s.requested })

  -- The destination of a redirect, or the error.
  unfoldable pub next_url : String → Response → Transferring W String
  unfolding policy_failure validate_redirect
  next_url url response = of_outcome (
      policy_failure (
        validate_redirect e.urls (e.host.rendered url)
          (elim response.location [ none ↦ "" | some location ↦ location ])
          e.recipe.redirect_hosts))

  -- `_request`, with the turns of its loop bounded by the fuel.
  unfoldable pub request_within :
      ℕ → String → List (String × String) → ℕ → Transferring W (Response × ℕ)
  unfolding check_control send guard next_url is_redirect is_empty ◌>>=◌
  request_within zero url headers redirects = of_outcome unfinished
  request_within (suc fuel) url headers redirects = do
    check_control
    response ← send url headers
    elim (is_redirect response.status_code) [
      | false ↦ pure (response, redirects)
      | true ↦ do
        guard (not (leb e.limits.max_redirects redirects)) (transfer_failure "policy_failure" false)
        guard (not (is_empty e.recipe.redirect_hosts)) (transfer_failure "policy_failure" false)
        next ← next_url url response
        request_within fuel next headers (redirects + 1)
    ]

  unfoldable pub request : List (String × String) → Transferring W (Response × ℕ)
  unfolding request_within
  request headers = request_within (suc e.limits.max_redirects) e.recipe.url headers 0
