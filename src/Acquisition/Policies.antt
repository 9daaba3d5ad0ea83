-- ===== src/Acquisition/Policies.antt =====
-- acquisition/policies.py: the destinations, recipes and answers that a provider's policy allows. Messages
-- are left out; a policy error keeps its category.
pub mod Destination
pub mod Statuses
use Prim.Native.String.{◌∷◌ as ◌:>◌, count}
use Prim.Native.Char.{code}
use text.Mathlib.Text.{starts_with}
use data_processing.Prelude.{
  ℕ, String, Option, none, some, List, [], ◌∷◌, Bool, true, false, not, ◌&&◌, ◌||◌, str_eq, ◌<>◌,
  leb, ◌==◌, if◌then◌else◌,
}
use data_processing.Effect.{Outcome, returned, raised, unfinished}
use data_processing.Links.Text.{is_lower, is_service_char}
use data_processing.Acquisition.{Problem, request_policy_error, uncaught}

-- `SplitResult`, with the attributes that the code reads.
pub record SplitResult : Type 0 where
  pub scheme : String
  pub username : Option String
  pub password : Option String
  pub hostname : Option String
  pub port : Option ℕ
  pub fragment : String

-- `urlsplit` with its `port` and `hostname` (none: it raises `ValueError`), `ipaddress.ip_address` (true
-- where it does not raise), `urljoin` (none: it raises `ValueError`), `str.lower` and `str.strip`.
pub record RequestLibrary : Type 0 where
  pub urlsplit : String → Option SplitResult
  pub is_ip_address : String → Bool
  pub urljoin : String → String → Option String
  pub lower : String → String
  pub strip : String → String

pub record RetryClassification : Type 0 where
  pub category : String
  pub retryable : Bool

-- `_default_status_classifier`
unfoldable pub classify_status : ℕ → RetryClassification
classify_status status =
    if status == 401
    then record { category = "authentication_required"; retryable = false }
    else if status == 403
    then record { category = "authorization_denied"; retryable = false }
    else if status == 404 || status == 410
    then record { category = "unavailable"; retryable = false }
    else if status == 429
    then record { category = "rate_limited"; retryable = true }
    else if (status == 408 || status == 425) || (leb 500 status && leb status 599)
    then record { category = "transient_provider"; retryable = true }
    else if leb 200 status && leb status 299
    then record { category = "success"; retryable = false }
    else record { category = "invalid_content"; retryable = false }

unfoldable pub is_member : String → List String → Bool
is_member s [] = false
is_member s (t ∷ rest) = str_eq s t || is_member s rest

-- `partition(";")[0]`
unfoldable pub media_type : String → String
media_type String.[] = ""
media_type (c :> s) = let rest = media_type s in if code c == 59 then "" else c :> rest

pub record ResponseExpectations : Type 0 where
  pub content_type_prefixes : List String
  pub allow_missing_content_type : Bool

unfoldable pub any_prefix : String → List String → Bool
any_prefix s [] = false
any_prefix s (prefix ∷ rest) = starts_with s prefix || any_prefix s rest

module _ (lib : RequestLibrary) where
  open lib use {urlsplit, is_ip_address, urljoin, lower, strip}

  unfoldable pub accepts : ResponseExpectations → Option String → Bool
  unfolding media_type any_prefix
  accepts e none = e.allow_missing_content_type
  accepts e (some value) =
      if str_eq value ""
      then e.allow_missing_content_type
      else any_prefix (lower (strip (media_type value))) e.content_type_prefixes

  -- `port not in (None, 443)`
  unfoldable pub is_other_port : Option ℕ → Bool
  is_other_port none = false
  is_other_port (some port) = not (port == 443)

  unfoldable pub is_given : Option String → Bool
  is_given none = false
  is_given (some s) = true

  -- The tests of `_parsed_https_url` after the one on the host's presence.
  unfoldable pub check_host : SplitResult → String → Outcome Problem SplitResult
  unfolding is_other_port
  check_host parsed hostname =
      if is_ip_address hostname
      then raised (request_policy_error "ip_literal_not_allowed")
      else if is_other_port parsed.port
      then raised (request_policy_error "port_not_allowed")
      else if not (str_eq parsed.fragment "")
      then raised (request_policy_error "fragment_not_allowed")
      else returned parsed

  unfoldable pub check_parsed : SplitResult → Outcome Problem SplitResult
  unfolding check_host is_given
  check_parsed parsed =
      if not (str_eq (lower parsed.scheme) "https")
      then raised (request_policy_error "scheme_not_allowed")
      else if is_given parsed.username || is_given parsed.password
      then raised (request_policy_error "userinfo_not_allowed")
      else elim parsed.hostname [
        | none ↦ raised (request_policy_error "invalid_host")
        | some hostname ↦
            if str_eq hostname ""
            then raised (request_policy_error "invalid_host")
            else check_host parsed hostname
      ]

  -- `_parsed_https_url`
  unfoldable pub parsed_https_url : String → Outcome Problem SplitResult
  unfolding check_parsed
  parsed_https_url url = elim (urlsplit url) [
    | none ↦ raised (request_policy_error "invalid_url")
    | some parsed ↦ check_parsed parsed
  ]

  -- `rstrip(".")`
  unfoldable pub strip_dots : String → String
  strip_dots String.[] = ""
  strip_dots (c :> s) =
      let rest = strip_dots s in if code c == 46 && str_eq rest "" then "" else c :> rest

  unfoldable pub check_allowed : List String → SplitResult → Outcome Problem SplitResult
  unfolding strip_dots is_member
  check_allowed allowed_hosts parsed = elim parsed.hostname [
    | none ↦ raised (request_policy_error "invalid_host")
    | some hostname ↦
        if not (is_member (strip_dots (lower hostname)) allowed_hosts)
        then raised (request_policy_error "host_not_allowed")
        else returned parsed
  ]

  unfoldable pub validate_destination : String → List String → Outcome Problem SplitResult
  unfolding parsed_https_url check_allowed
  validate_destination url allowed_hosts = elim (parsed_https_url url) [
    | returned parsed ↦ check_allowed allowed_hosts parsed
    | raised e ↦ raised e
    | unfinished ↦ unfinished
  ]

  unfoldable pub check_redirect : String → List String → Outcome Problem String
  unfolding validate_destination
  check_redirect destination allowed_hosts = elim (validate_destination destination allowed_hosts) [
    | returned parsed ↦ returned destination
    | raised e ↦ raised e
    | unfinished ↦ unfinished
  ]

  -- `validate_redirect`
  unfoldable pub validate_redirect : String → String → List String → Outcome Problem String
  unfolding check_redirect
  validate_redirect current_url location allowed_hosts =
      if str_eq location ""
      then raised (request_policy_error "invalid_redirect")
      else elim (urljoin current_url location) [
        | none ↦ raised (uncaught "ValueError")
        | some destination ↦ check_redirect destination allowed_hosts
      ]

-- `[a-z0-9_-]*`, of the whole text
unfoldable pub all_service_chars : String → Bool
unfolding is_service_char
all_service_chars String.[] = true
all_service_chars (c :> s) = is_service_char c && all_service_chars s

-- `_DIAGNOSTIC_COMPONENT`, of the whole text
unfoldable pub is_component : String → Bool
unfolding is_lower all_service_chars
is_component String.[] = false
is_component (c :> s) = is_lower c && all_service_chars s && leb (count s) 99

unfoldable pub safe_failure_diagnostic : String → String → String
unfolding is_component
safe_failure_diagnostic provider category =
    (if is_component provider then provider else "unknown-provider")
    <> ":"
    <> (if is_component category then category else "request-failure")
