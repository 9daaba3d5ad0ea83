-- ===== src/RemoteSync/Stored.antt =====
-- adapters/contracts.py: `Continuation` as the text that a checkpoint stores.
use data_processing.Prelude.{String, Option, none, some, ◌≢◌, str_eq, if◌then◌else◌, arith}
use data_processing.Effect.{Outcome, returned, raised, unfinished}
use data_processing.RemoteSync.Types.{Exception, value_error, Continuation}

-- What is read from an object; no value where it is missing or no object.
pub record Payload : Type 0 where
  pub adapter : String
  pub version : String
  pub value : Option String

-- `json.dumps` of the three fields; `json.loads` (none: it raises `JSONDecodeError`, which is a
-- `ValueError`; some none: the text is no object); and `strip` of a text.
pub record Json : Type 0 where
  pub dumps : Continuation → String
  pub loads : String → Option (Option Payload)
  pub strip : String → String

module _ (json : Json) where
  open json use {dumps, loads, strip}

  -- `Continuation.__post_init__`
  unfoldable pub new_continuation : String → String → String → Outcome Exception Continuation
  new_continuation adapter version value =
      if str_eq (strip adapter) ""
      then raised (value_error "continuation adapter must not be empty")
      else if str_eq (strip version) ""
      then raised (value_error "continuation version must not be empty")
      else returned (record { adapter = strip adapter; version = strip version; value = value })

  -- `Continuation.to_json`
  unfoldable pub to_json : Continuation → String
  to_json continuation = dumps continuation

  -- `Continuation.from_json`
  unfoldable pub from_json : String → Outcome Exception Continuation
  unfolding new_continuation
  from_json text = elim (loads text) [
    | none ↦ raised (value_error "JSONDecodeError")
    | some none ↦ raised (value_error "invalid continuation payload")
    | some (some payload) ↦ elim payload.value [
      | none ↦ raised (value_error "invalid continuation payload")
      | some value ↦ new_continuation payload.adapter payload.version value
    ]
  ]

  pub from_json-ends : (text : String) → from_json text ≢ unfinished
  unfolding from_json new_continuation
  from_json-ends text = ground arith
