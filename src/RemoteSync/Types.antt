-- ===== src/RemoteSync/Types.antt =====
-- The values that the parts of media_catalog/remote_sync exchange (media_catalog/adapters/contracts.py),
-- and the exceptions that they raise. Times and durations are whole ticks of the clock.
use data_processing.Prelude.{ℕ, String, List, [], ◌∷◌, Option, Bool, true, false, suc}

pub data AdapterOperation : Type 0 where
  fetch_account fetch_post list_account_posts fetch_attribution : AdapterOperation
  fetch_tag fetch_tag_alias fetch_pool fetch_commentary fetch_notes : AdapterOperation

pub data AdapterOutcome : Type 0 where
  success unavailable deleted authentication_required authorization_denied : AdapterOutcome
  rate_limited transient_provider response_too_large malformed_response : AdapterOutcome
  budget_exhausted local_persistence : AdapterOutcome

-- The budgets of a run, as `BudgetExhausted.boundary` names them.
pub data Boundary : Type 0 where
  time_boundary request_boundary page_boundary record_boundary : Boundary

-- `AdapterFailure`
pub record Failure : Type 0 where
  pub outcome : AdapterOutcome
  pub public_message : String
  pub retry_at : Option String

-- `exhausted` is `BudgetExhausted`, a subclass of `AdapterFailure`. `other` is any exception that is
-- neither an `AdapterFailure` nor a `ValueError`, with the name of its type.
pub data Exception : Type 0 where
  exhausted : Boundary → Exception
  adapter_failure : Failure → Exception
  value_error : String → Exception
  other : String → Exception

-- The opaque position from which a provider's listing goes on.
pub record Continuation : Type 0 where
  pub adapter : String
  pub version : String
  pub value : String

pub record AdapterRequest : Type 0 where
  pub operation : AdapterOperation
  pub target : String
  pub continuation : Option Continuation
  pub transport : Option (String × String)

-- `object` stands for the identity of the Python object, which the executor compares by `is`.
-- `retry_after` is the header of that name.
pub record ResponseEnvelope : Type 0 where
  pub object : ℕ
  pub operation : AdapterOperation
  pub request_identity : String
  pub status_code : ℕ
  pub retry_after : Option String
  pub payload : List ℕ
  pub observed_at : String
  pub adapter_version : String
  pub schema_version : String
  pub transport : Option (String × String)

pub data ObjectKind : Type 0 where
  account post attribution tag tag_alias other_kind : ObjectKind

pub record NormalizedItem : Type 0 where
  pub object_kind : ObjectKind
  pub native_id : Option String

pub record NormalizedPage : Type 0 where
  pub items : List NormalizedItem
  pub continuation : Option Continuation

-- Membership in `TOP_LEVEL_OBJECT_KINDS`.
unfoldable pub is_top_level : ObjectKind → Bool
is_top_level other_kind = false
is_top_level _ = true

unfoldable pub count_top_level : List NormalizedItem → ℕ
unfolding is_top_level
count_top_level [] = 0
count_top_level (i ∷ is) = elim (is_top_level i.object_kind) [
  | true ↦ suc (count_top_level is)
  | false ↦ count_top_level is
]

unfoldable pub record_count : NormalizedPage → ℕ
unfolding count_top_level
record_count p = count_top_level p.items
