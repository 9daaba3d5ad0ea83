-- ===== src/RemoteSync/Gate.antt =====
-- remote_sync/request_gate.py: the gate that paces, charges and retries the requests of a run.
pub mod Sound
pub mod Attempts
use data_processing.Prelude.{
  ℕ, zero, suc, ◌+◌, ◌-◌, ◌&&◌, String, Option, none, some, not, leb, ltb, ◌==◌, if◌then◌else◌,
  ◌<>◌, first_chars,
}
use data_processing.Effect.{Outcome, returned, raised, unfinished, pure, raise, ◌>>=◌, ◌>>◌}
use data_processing.RemoteSync.Types.{
  Exception, value_error, exhausted, adapter_failure, other, time_boundary, transient_provider,
  ResponseEnvelope,
}
use data_processing.RemoteSync.Session.{Run, monotonic, sleep}
use data_processing.RemoteSync.Budget.{remaining_seconds, can_request, reserve_request}

-- `sanitize_transport_error`. The text of the error, which may hold credentials, is dropped.
unfoldable pub sanitize_transport_error : String → String → Exception
sanitize_transport_error error_kind provider = adapter_failure (record {
  outcome = transient_provider;
  public_message = provider <> " metadata request failed (" <> first_chars 100 error_kind <> ")";
  retry_at = none;
})

-- The `except` clauses round the call of `fetch`.
unfoldable pub sanitize : Outcome Exception ResponseEnvelope → Outcome Exception ResponseEnvelope
unfolding sanitize_transport_error
sanitize (raised (other error_kind)) = raised (sanitize_transport_error error_kind "provider")
sanitize o = o

-- `_retry_delay`
unfoldable pub retry_delay : (String → Option ℕ) → ℕ → ResponseEnvelope → Option ℕ
retry_delay seconds second response =
    if not (response.status_code == 429) && ltb response.status_code 500
    then none
    else elim response.retry_after [
      | none ↦ some second
      | some value ↦ elim (seconds value) [ none ↦ some second | some d ↦ some d ]
    ]

-- A number that a caller gives: `negative n` is -n - 1.
pub data Signed : Type 0 where
  natural : ℕ → Signed
  negative : ℕ → Signed

-- What a `RequestGate` has once its constructor has accepted it. `seconds` is `float` on a header, as a number of ticks that is 0
-- for what lies below 0, and `none` where `float` raises `ValueError`; `second` is one second.
pub record GateSettings : Type 0 where
  pub minimum_interval_seconds : ℕ
  pub maximum_retries : ℕ
  pub second : ℕ
  pub seconds : String → Option ℕ

-- What the constructor of a `RequestGate` is called with.
pub record GateArguments : Type 0 where
  pub minimum_interval_seconds : Signed
  pub maximum_retries : Signed
  pub second : ℕ
  pub seconds : String → Option ℕ

abbrev pub gate_refused : Exception
gate_refused = value_error "request interval and retry count must not be negative"

-- `RequestGate.__init__`
unfoldable pub new_gate : GateArguments → Outcome Exception GateSettings
new_gate arguments = elim arguments.minimum_interval_seconds [
  | negative _ ↦ raised gate_refused
  | natural interval ↦ elim arguments.maximum_retries [
    | negative _ ↦ raised gate_refused
    | natural retries ↦ returned (record {
      minimum_interval_seconds = interval;
      maximum_retries = retries;
      second = arguments.second;
      seconds = arguments.seconds;
    })
  ]
]

module _ {S : Type 0} (gate : GateSettings) where
  open gate use {minimum_interval_seconds, maximum_retries, second, seconds}

  -- `max(0.0, interval - (t - last))` is `interval + last - t`, which stops at 0.
  unfoldable pub pace_after : Option ℕ → Run S (Unit {0})
  unfolding monotonic sleep remaining_seconds ◌>>=◌
  pace_after none = pure tt
  pace_after (some last) = do
    t ← monotonic
    let delay = minimum_interval_seconds + last - t
    if delay == 0 then pure tt else do
      left ← remaining_seconds
      if leb left delay then raise (exhausted time_boundary) else sleep delay

  -- `_pace`
  unfoldable pub pace : Run S (Unit {0})
  pace s = pace_after s.last_request_at s

  -- `self._last_request_at = self._monotonic()`
  unfoldable pub stamp : Run S (Unit {0})
  unfolding monotonic ◌>>=◌
  stamp s = (do t ← monotonic; (λ s'. (returned tt, record s' { last_request_at = some t }))) s

  unfoldable pub fetch_once : Run S ResponseEnvelope → Run S ResponseEnvelope
  unfolding sanitize
  fetch_once fetch s = let (o, s') = fetch s in (sanitize o, s')

  -- The tests after a response: `none` where the loop returns it, and the delay where it goes on.
  unfoldable pub retry_wait : ResponseEnvelope → ℕ → Run S (Option ℕ)
  retry_wait response retries = elim (retry_delay seconds second response) [
    | none ↦ pure none
    | some delay ↦ if leb maximum_retries retries then pure none else do
      more ← can_request
      if not more
          then pure none
          else do left ← remaining_seconds; if leb left delay then pure none else pure (some delay)
  ]

  module _ (fetch : Run S ResponseEnvelope) (retain : ResponseEnvelope → Run S (Unit {0})) where
    -- One turn of the loop: the response, and the delay before the next turn if there is one.
    unfoldable pub attempt : ℕ → Run S (ResponseEnvelope × Option ℕ)
    attempt retries = do
      pace
      reserve_request
      stamp
      response ← fetch_once fetch
      retain response
      wait ← retry_wait response retries
      pure (response, wait)

    -- The loop of `execute`, on fuel.
    unfoldable pub attempts : ℕ → ℕ → Run S ResponseEnvelope
    attempts zero retries = λ s. (unfinished, s)
    attempts (suc fuel) retries = do
      (response, wait) ← attempt retries
      elim wait [ none ↦ pure response | some delay ↦ do sleep delay; attempts fuel (retries + 1) ]

    -- `execute`: `maximum_retries + 1` turns are enough.
    unfoldable pub execute : Run S ResponseEnvelope
    unfolding attempts
    execute = attempts (suc maximum_retries) 0
