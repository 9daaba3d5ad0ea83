-- ===== src/RemoteSync/Executor.antt =====
-- remote_sync/executor.py: the bounded loop over the pages of one remote operation. What the adapter
-- and the caller hand to the executor are the fields of `Calls`.
pub mod Captured
pub mod Contract
pub mod Turn
pub mod Pages
use data_processing.Prelude.{
  ℕ, zero, suc, Option, none, some, List, [], ◌∷◌, ◌++◌, Bool, true, false, String, leb, ◌==◌,
  if◌then◌else◌,
}
use data_processing.Effect.{
  Outcome, returned, raised, unfinished, Answer, from_answer, pure, of_outcome, ◌>>=◌, ◌>>◌,
}
use data_processing.RemoteSync.Types.{
  value_error, Exception, exhausted, other, page_boundary, record_boundary, AdapterOperation,
  list_account_posts, AdapterRequest, Continuation, ResponseEnvelope, NormalizedPage, record_count,
}
use data_processing.RemoteSync.Session.{Session, Run, call_transport}
use data_processing.RemoteSync.Budget.{admit_page}
use data_processing.RemoteSync.Gate
use data_processing.RemoteSync.Gate.{
  Signed, natural, negative, GateArguments, GateSettings, new_gate,
}

-- `RetainedPage`
pub record RetainedPage : Type 0 where
  pub request : AdapterRequest
  pub response : ResponseEnvelope
  pub page : NormalizedPage
  pub raw_observation_id : ℕ

-- The adapter's transport (its answer to the k-th call) and normalizer, and the callbacks.
pub record Calls (S : Type 0) : Type 0 where
  pub transport : ℕ → AdapterRequest → Answer Exception ResponseEnvelope
  pub normalize_page : ResponseEnvelope → AdapterRequest → Answer Exception NormalizedPage
  pub retain_response : ResponseEnvelope → ℕ → S → Outcome Exception ℕ × S
  pub commit_page : RetainedPage → Run S (Unit {0})
  pub continue_pages : AdapterRequest → NormalizedPage → Bool
  pub request_factory : Option Continuation → AdapterRequest

-- The default `request_factory`
unfoldable pub default_request :
    AdapterOperation → String → Option (String × String) → Option Continuation → AdapterRequest
default_request operation target transport current = record {
  operation = operation;
  target = target;
  continuation = current;
  transport = transport;
}

-- `_continue_metadata_pages`, the default `continue_pages`
unfoldable pub continue_metadata_pages : AdapterRequest → NormalizedPage → Bool
continue_metadata_pages request page = elim request.operation [
  | list_account_posts ↦ true
  | _ ↦ false
]

-- `max(minimum_interval_seconds, float(provider_interval))`
unfoldable pub longer_interval : Signed → ℕ → ℕ
longer_interval (negative _) provider_interval = provider_interval
longer_interval (natural n) provider_interval =
    if leb provider_interval n then n else provider_interval

abbrev pub interval_refused : Exception
interval_refused = value_error "adapter minimum interval must be a non-negative number"

-- The gate that the constructor of the executor makes: the adapter's interval is tested first.
unfoldable pub executor_gate : GateArguments → Signed → Outcome Exception GateSettings
unfolding longer_interval new_gate
executor_gate arguments (negative _) = raised interval_refused
executor_gate arguments (natural provider_interval) = new_gate (record arguments {
  minimum_interval_seconds =
      natural (longer_interval arguments.minimum_interval_seconds provider_interval);
})

-- The search of `reversed(captured)` for the object: the last entry that holds it.
unfoldable pub find_captured : ℕ → List (ResponseEnvelope × ℕ) → Option ℕ
find_captured object [] = none
find_captured object ((response, raw_id) ∷ rest) = elim (find_captured object rest) [
  | some found ↦ some found
  | none ↦ if response.object == object then some raw_id else none
]

module _ {S : Type 0} (calls : Calls S) where
  open calls use {
    transport, normalize_page, retain_response, commit_page, continue_pages, request_factory,
  }

  capture_answer : ResponseEnvelope → Outcome Exception ℕ × S → Run S (Unit {0})
  capture_answer response (returned raw_id, store) s =
      (returned tt, record s { captured = s.captured ++ (response, raw_id) ∷ []; store = store })
  capture_answer response (raised e, store) s = (raised e, record s { store = store })
  capture_answer response (unfinished, store) s = (unfinished, record s { store = store })

  -- `retain`: the attempt number is the number of requests that are charged.
  unfoldable pub capture : ResponseEnvelope → Run S (Unit {0})
  unfolding capture_answer
  capture response s = capture_answer response (retain_response response s.requests s.store) s

  -- `next` raises `StopIteration` where nothing is found.
  unfoldable pub raw_id_of : ResponseEnvelope → Run S ℕ
  raw_id_of response s = elim (find_captured response.object s.captured) [
    | some raw_id ↦ (returned raw_id, s)
    | none ↦ (raised (other "StopIteration"), s)
  ]

  -- A page after the first is asked for only while a page and a record are left.
  unfoldable pub check_continuation : Option Continuation → Run S (Unit {0})
  check_continuation none s = (returned tt, s)
  check_continuation (some c) s =
      if leb s.limits.pages s.pages
      then (raised (exhausted page_boundary), s)
      else if leb s.limits.records s.records
      then (raised (exhausted record_boundary), s)
      else (returned tt, s)

  unfoldable pub clear_captured : Run S (Unit {0})
  clear_captured s = (returned tt, record s { captured = [] })

  module _ (gate : GateSettings) where
    -- One turn of the loop of `execute`.
    unfoldable pub next_page : Option Continuation → Run S (AdapterRequest × NormalizedPage)
    next_page continuation = do
      check_continuation continuation
      let request = request_factory continuation
      clear_captured
      response ← Gate.execute gate (call_transport transport request) capture
      raw_id ← raw_id_of response
      page ← of_outcome (from_answer (normalize_page response request))
      admit_page (record_count page)
      commit_page (record {
        request = request;
        response = response;
        page = page;
        raw_observation_id = raw_id;
      })
      pure (request, page)

    goes_on : AdapterRequest → NormalizedPage → Option Continuation → Option Continuation
    goes_on request page none = none
    goes_on request page (some c) = if continue_pages request page then some c else none

    -- The loop of `execute`, on fuel, with the continuation of the last page as its result.
    unfoldable pub pages : ℕ → Option Continuation → Run S (Option Continuation)
    unfolding goes_on
    pages zero continuation = λ s. (unfinished, s)
    pages (suc fuel) continuation = do
      (request, page) ← next_page continuation
      elim (goes_on request page page.continuation) [
        | none ↦ pure page.continuation
        | some c ↦ pages fuel (some c)
      ]

    -- `execute`: each turn charges a request, so one turn more than the requests left is enough.
    unfoldable pub execute : Option Continuation → Run S (Option Continuation)
    unfolding pages
    execute continuation s = pages (suc s.limits.requests) continuation s
