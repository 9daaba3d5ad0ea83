-- ===== src/Acquisition.antt =====
-- Media acquisition: acquisition/policies.py decides which request may be sent, and acquisition/transfer.py
-- sends it and stages the bytes. Here are the exceptions that pass between them.
pub mod Policies
pub mod Transfer
pub mod Recipes
pub mod Engine
use data_processing.Prelude.{String, Bool}

-- `TransferFailure`, `httpx.TimeoutException`, any other `httpx.TransportError`, `RequestPolicyError` and
-- `AssetStorageError` with their categories, `OSError`, and what `transfer` does not catch, by its type.
pub data Problem : Type 0 where
  transfer_failure : String → Bool → Problem
  timeout_exception : Problem
  transport_error : Problem
  request_policy_error : String → Problem
  asset_storage_error : String → Problem
  os_error : Problem
  uncaught : String → Problem
