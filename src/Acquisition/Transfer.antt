-- ===== src/Acquisition/Transfer.antt =====
-- acquisition/transfer.py: the limits and the budget, the headers of a request and of its response, and the
-- values that an engine hands out. Times are whole ticks.
pub mod Headers
pub mod Written
pub mod Ranges
use Prim.Native.String.{◌∷◌ as ◌:>◌, count}
use Prim.Native.Char.{code}
use text.Mathlib.Text.{starts_with}
use data_processing.Prelude.{
  ℕ, String, Option, none, some, List, [], ◌∷◌, Bool, true, false, not, ◌&&◌, ◌||◌, str_eq, ◌<>◌,
  leb, ltb, ◌==◌, ◌+◌, ◌*◌, ◌-◌, if◌then◌else◌,
}
use data_processing.Effect.{Outcome, returned, raised, unfinished}
use data_processing.Acquisition.{Problem, transfer_failure, uncaught}
use data_processing.Acquisition.Policies.{ResponseExpectations, RetryClassification}
use data_processing.Links.Text.{is_digit}

pub record TransferLimits : Type 0 where
  pub max_item_bytes : ℕ
  pub max_attempts : ℕ
  pub max_seconds : ℕ
  pub max_redirects : ℕ
  pub initial_backoff_seconds : ℕ
  pub max_backoff_seconds : ℕ

pub record TransferBudget : Type 0 where
  pub max_bytes : ℕ
  pub used_bytes : ℕ

-- The tests of the constructors of the limits and of the budget.
unfoldable pub new_limits : TransferLimits → Outcome Problem TransferLimits
new_limits limits =
    if limits.max_item_bytes == 0
      || limits.max_attempts == 0
      || limits.max_redirects == 0
      || limits.max_seconds == 0
      || limits.initial_backoff_seconds == 0
      || limits.max_backoff_seconds == 0
    then raised (uncaught "ValueError")
    else returned limits

unfoldable pub new_budget : ℕ → ℕ → Outcome Problem TransferBudget
new_budget max_bytes used_bytes =
    if max_bytes == 0 || ltb max_bytes used_bytes
    then raised (uncaught "ValueError")
    else returned (record { max_bytes = max_bytes; used_bytes = used_bytes })

unfoldable pub remaining_bytes : TransferBudget → ℕ
remaining_bytes budget = budget.max_bytes - budget.used_bytes

-- `charge`, for the number of bytes of a chunk.
unfoldable pub charge : ℕ → TransferBudget → Outcome Problem TransferBudget
unfolding remaining_bytes
charge amount budget =
    if ltb (remaining_bytes budget) amount
    then raised (transfer_failure "budget_exhausted" true)
    else returned (record budget { used_bytes = budget.used_bytes + amount })

-- `RemotePartialState`, as far as the engine reads it, and with the name under which storage has it.
pub record RemotePartialState : Type 0 where
  pub staging_name : String
  pub request_identity : String
  pub byte_count : ℕ

pub record ResumeState : Type 0 where
  pub partial : RemotePartialState
  pub strong_etag : String
  pub response_size : Option ℕ

pub record AttemptTransition : Type 0 where
  pub attempt_number : ℕ
  pub state : String
  pub outcome : Option String
  pub retryable : Bool
  pub request_identity : String
  pub status_code : Option ℕ
  pub redirect_count : ℕ
  pub received_bytes : ℕ
  pub response_size : Option ℕ
  pub response_etag : Option String
  pub retry_after_seconds : Option ℕ
  pub diagnostic : Option String

-- `RequestRecipe`, as far as the engine reads it.
pub record RequestRecipe : Type 0 where
  pub provider : String
  pub request_identity : String
  pub url : String
  pub headers : List (String × String)
  pub credential_reference : Option String
  pub response : ResponseExpectations
  pub redirect_hosts : List String
  pub status_classifier : ℕ → RetryClassification

pub record ResolvedCredentials : Type 0 where
  pub headers : List (String × String)
  pub cookies : List (String × String)

-- The headers that the engine reads; the chunks of the body, and the error that ends it early.
pub record Response : Type 0 where
  pub status_code : ℕ
  pub location : Option String
  pub etag : Option String
  pub retry_after : Option String
  pub content_type : Option String
  pub content_length : Option String
  pub content_range : Option String
  pub chunks : List (List ℕ)
  pub fault : Option Problem

-- The value of `int`.
pub data Integer : Type 0 where
  natural : ℕ → Integer
  negative : ℕ → Integer

-- `int` of a text (none: it raises `ValueError`), `str` of a number, and how many seconds the date that
-- `parsedate_to_datetime` reads is away from now (none: one of the three errors that are caught).
pub record Numbers : Type 0 where
  pub int_of : String → Option Integer
  pub decimal : ℕ → String
  pub seconds_until : String → Option Integer

unfoldable pub ends_with_quote : String → Bool
ends_with_quote String.[] = false
ends_with_quote (c :> String.[]) = code c == 34
ends_with_quote (c :> d :> s) = ends_with_quote (d :> s)

unfoldable pub starts_with_quote : String → Bool
starts_with_quote String.[] = false
starts_with_quote (c :> s) = code c == 34

-- `_strong_etag`
unfoldable pub is_strong_etag : Option String → Bool
unfolding ends_with_quote starts_with_quote
is_strong_etag none = false
is_strong_etag (some value) =
    not (str_eq value "")
    && (not (starts_with value "W/")
        && (leb 2 (count value) && (starts_with_quote value && ends_with_quote value)))

unfoldable pub clamp : Integer → ℕ
clamp (natural n) = n
clamp (negative n) = 0

-- A number of `\d+`, the value so far and whether there was a digit, with what follows. In Latin-1, as which
-- headers are read, `\d` is an ASCII digit.
unfoldable pub digits : String → ℕ → Bool → Option (ℕ × String)
unfolding is_digit
digits String.[] n seen = if seen then some (n, "") else none
digits (c :> s) n seen =
    let longer = digits s (n * 10 + (code c - 48)) true in
    if is_digit c then longer else if seen then some (n, c :> s) else none

-- The text after this character.
unfoldable pub after_char : ℕ → String → Option String
after_char k String.[] = none
after_char k (c :> s) = if code c == k then some s else none

infixl 10 ◌>>=◌
abbrev pub ◌>>=◌ : {A B : Type 0} → Option A → (A → Option B) → Option B
none >>= f = none
some a >>= f = f a

-- The text after `bytes `
unfoldable pub after_bytes : String → Option String
unfolding after_char
after_bytes s = do
  t ← after_char 98 s
  u ← after_char 121 t
  v ← after_char 116 u
  w ← after_char 101 v
  x ← after_char 115 w
  after_char 32 x

-- `(\d+|\*)`, at the end of the text
unfoldable pub range_total : String → Option (Option ℕ)
unfolding digits
range_total s = if str_eq s "*" then some none else elim (digits s 0 false) [
  | none ↦ none
  | some (n, rest) ↦ if str_eq rest "" then some (some n) else none
]

-- `_CONTENT_RANGE`, of the whole text
unfoldable pub content_range : String → Option (ℕ × ℕ × Option ℕ)
unfolding after_bytes digits after_char range_total
content_range s = do
  t ← after_bytes s
  (start, u) ← digits t 0 false
  v ← after_char 45 u
  (end, w) ← digits v 0 false
  x ← after_char 47 w
  total ← range_total x
  some (start, end, total)

module _ (numbers : Numbers) where
  open numbers use {int_of, decimal, seconds_until}

  -- `_content_length`
  unfoldable pub content_length : Response → Outcome Problem (Option ℕ)
  content_length response = elim response.content_length [
    | none ↦ returned none
    | some value ↦ elim (int_of value) [
      | none ↦ raised (transfer_failure "invalid_content" false)
      | some (natural n) ↦ returned (some n)
      | some (negative n) ↦ raised (transfer_failure "invalid_content" false)
    ]
  ]

  -- The last test of `_resume_response_size`.
  unfoldable pub check_length : ℕ → ℕ → ℕ → Outcome Problem (Option ℕ) → Outcome Problem ℕ
  check_length start end total (returned none) = returned total
  check_length start end total (returned (some length)) =
      if not (length == end - start + 1)
      then raised (transfer_failure "source_changed" false)
      else returned total
  check_length start end total (raised e) = raised e
  check_length start end total unfinished = unfinished

  -- `_resume_response_size`
  unfoldable pub resume_response_size : Response → ℕ → Outcome Problem ℕ
  unfolding content_range content_length check_length
  resume_response_size response offset =
      elim (content_range (elim response.content_range [ none ↦ "" | some s ↦ s ])) [
        | none ↦ raised (transfer_failure "source_changed" false)
        | some (start, end, none) ↦ raised (transfer_failure "source_changed" false)
        | some (start, end, some total) ↦
            if not (start == offset) || ltb end start
            then raised (transfer_failure "source_changed" false)
            else if not (total == end + 1)
            then raised (transfer_failure "source_changed" false)
            else check_length start end total (content_length response)
      ]

  -- `_retry_after_seconds`
  unfoldable pub retry_after_seconds : Option String → Option ℕ
  unfolding clamp
  retry_after_seconds none = none
  retry_after_seconds (some value) = elim (int_of value) [
    | some n ↦ some (clamp n)
    | none ↦ elim (seconds_until value) [ none ↦ none | some n ↦ some (clamp n) ]
  ]

-- `headers[name] = value`
unfoldable pub set_header : String → String → List (String × String) → List (String × String)
set_header name value [] = (name, value) ∷ []
set_header name value ((n, v) ∷ rest) =
    if str_eq n name then (name, value) ∷ rest else (n, v) ∷ set_header name value rest

unfoldable pub set_headers :
    List (String × String) → List (String × String) → List (String × String)
unfolding set_header
set_headers [] headers = headers
set_headers ((name, value) ∷ rest) headers = set_headers rest (set_header name value headers)

-- `"; ".join(f"{name}={value}" ...)`
unfoldable pub cookie_text : List (String × String) → String
cookie_text [] = ""
cookie_text ((name, value) ∷ []) = name <> "=" <> value
cookie_text ((name, value) ∷ c ∷ rest) = name <> "=" <> value <> "; " <> cookie_text (c ∷ rest)

unfoldable pub with_cookies :
    List (String × String) → List (String × String) → List (String × String)
unfolding cookie_text set_header
with_cookies [] headers = headers
with_cookies (c ∷ rest) headers = set_header "Cookie" (cookie_text (c ∷ rest)) headers

-- `_credential_headers`. A resolver that raises, or gives another object, gives none.
unfoldable pub credential_headers :
    RequestRecipe
    → Option (String → Option ResolvedCredentials)
    → Outcome Problem (List (String × String))
unfolding set_headers with_cookies
credential_headers recipe resolver = elim recipe.credential_reference [
  | none ↦ returned recipe.headers
  | some reference ↦ elim resolver [
    | none ↦ raised (transfer_failure "authentication_required" false)
    | some resolve ↦ elim (resolve reference) [
      | none ↦ raised (transfer_failure "authentication_required" false)
      | some credentials ↦
          returned
            (with_cookies credentials.cookies (set_headers credentials.headers recipe.headers))
    ]
  ]
]
