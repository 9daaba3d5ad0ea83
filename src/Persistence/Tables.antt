-- ===== src/Persistence/Tables.antt =====
-- The tables that media_catalog/persistence/remote.py writes, as lists of rows in the order of
-- insertion. No row of them is ever deleted, so a new row's id is the number of rows after it is
-- added. Wall-clock timestamps are left out of the rows.
use data_processing.Prelude.{
  ℕ, suc, String, Option, none, some, List, [], ◌∷◌, Bool, true, false, ◌&&◌, str_eq, ◌==◌,
  if◌then◌else◌,
}
use data_processing.RemoteSync.Types.{AdapterOperation, AdapterOutcome, Boundary}

-- The statuses of a finished run.
pub data FinishStatus : Type 0 where
  complete paused failed_run : FinishStatus

-- `RemoteRunRecord`
pub record RemoteRunRecord : Type 0 where
  pub platform : String
  pub operation : AdapterOperation
  pub target : String
  pub adapter_version : String
  pub schema_version : String
  pub request_budget : ℕ
  pub page_budget : ℕ
  pub record_budget : ℕ
  pub time_budget_seconds : ℕ
  pub resumed_from_run_id : Option ℕ
  pub origin_reference : Option String
  pub transport : Option (String × String)

-- What `finish_remote_run` writes into a row of `remote_runs`.
pub record Finish : Type 0 where
  pub status : FinishStatus
  pub termination_outcome : AdapterOutcome
  pub request_count : ℕ
  pub page_count : ℕ
  pub record_count : ℕ
  pub budget_boundary : Option Boundary
  pub retry_after : Option String
  pub diagnostic_summary : Option String

-- A row of `remote_runs`: its status is `running` until it is finished.
pub record RunRow : Type 0 where
  pub run_id : ℕ
  pub platform_id : ℕ
  pub declared : RemoteRunRecord
  pub finish : Option Finish

-- `RemoteRequestRecord`
pub record RemoteRequestRecord : Type 0 where
  pub remote_run_id : ℕ
  pub attempt_number : ℕ
  pub request_identity : String
  pub operation : AdapterOperation
  pub target : String
  pub outcome : AdapterOutcome
  pub status_code : Option ℕ
  pub response_size : Option ℕ
  pub transport : Option (String × String)

pub record RequestRow : Type 0 where
  pub request_id : ℕ
  pub recorded : RemoteRequestRecord
  pub raw_observation_id : Option ℕ

-- `RemoteCheckpointRecord`
pub record RemoteCheckpointRecord : Type 0 where
  pub remote_run_id : ℕ
  pub operation : AdapterOperation
  pub target : String
  pub continuation_adapter : String
  pub continuation_version : String
  pub continuation_json : String
  pub last_page_identity : Option String
  pub page_count : ℕ
  pub transport : Option (String × String)

pub record CheckpointRow : Type 0 where
  pub checkpoint_id : ℕ
  pub saved : RemoteCheckpointRecord

-- `RawRecord`
pub record RawRecord : Type 0 where
  pub payload : List ℕ
  pub media_type : String
  pub object_kind : String
  pub native_id : Option String
  pub platform : Option String
  pub status : Option String
  pub transport : Option (String × String)

pub record PayloadRow : Type 0 where
  pub payload_id : ℕ
  pub sha256 : String
  pub payload : List ℕ

-- A row of `raw_observations`, with what anchors it: an import run, or a remote run and request.
pub record RawRow : Type 0 where
  pub raw_observation_id : ℕ
  pub payload_id : ℕ
  pub import_run_id : Option ℕ
  pub platform_id : Option ℕ
  pub object_kind : String
  pub native_id : Option String
  pub remote_run_id : Option ℕ
  pub remote_request_id : Option ℕ

-- `catalog` is the rest of the database.
pub record Db (C : Type 0) : Type 0 where
  pub platforms : List (String × ℕ)
  pub runs : List RunRow
  pub requests : List RequestRow
  pub checkpoints : List CheckpointRow
  pub payloads : List PayloadRow
  pub raws : List RawRow
  pub catalog : C

-- The first row that passes a test, as `fetchone` gives it.
unfoldable pub find : {A : Type 0} → (A → Bool) → List A → Option A
find p [] = none
find p (x ∷ xs) = if p x then some x else find p xs

-- The rows with `f` applied to each that passes a test, and the number of these (`rowcount`).
unfoldable pub update : {A : Type 0} → (A → Bool) → (A → A) → List A → List A
update p f [] = []
update p f (x ∷ xs) = (if p x then f x else x) ∷ update p f xs

unfoldable pub row_count : {A : Type 0} → (A → Bool) → List A → ℕ
row_count p [] = 0
row_count p (x ∷ xs) = elim (p x) [ true ↦ suc (row_count p xs) | false ↦ row_count p xs ]

-- Equality of two optional transport pairs, and of optional texts and numbers (`IS` in SQL).
unfoldable pub same_transport : Option (String × String) → Option (String × String) → Bool
same_transport none none = true
same_transport (some (a, b)) (some (c, d)) = str_eq a c && str_eq b d
same_transport _ _ = false

unfoldable pub same_text : Option String → Option String → Bool
same_text none none = true
same_text (some a) (some b) = str_eq a b
same_text _ _ = false

unfoldable pub same_id : Option ℕ → Option ℕ → Bool
same_id none none = true
same_id (some a) (some b) = a == b
same_id _ _ = false

unfoldable pub operation_code : AdapterOperation → ℕ
operation_code AdapterOperation.fetch_account = 0
operation_code AdapterOperation.fetch_post = 1
operation_code AdapterOperation.list_account_posts = 2
operation_code AdapterOperation.fetch_attribution = 3
operation_code AdapterOperation.fetch_tag = 4
operation_code AdapterOperation.fetch_tag_alias = 5
operation_code AdapterOperation.fetch_pool = 6
operation_code AdapterOperation.fetch_commentary = 7
operation_code AdapterOperation.fetch_notes = 8

unfoldable pub same_operation : AdapterOperation → AdapterOperation → Bool
unfolding operation_code
same_operation a b = operation_code a == operation_code b
