-- ===== src/Acquisition/Engine/Keeps/Redirects.antt =====
-- The loop over redirects asks for trusted URLs only, and as often as it may.
use data_processing.Prelude.{
  ℕ, zero, suc, String, Option, none, some, List, ◌∷◌, Bool, true, false, not, ◌≡◌, inl, inr, refl,
  arith, ◌≤◌, ◌+◌, leb, str_eq, if◌then◌else◌,
}
use data_processing.Effect.{Outcome, returned, raised, unfinished}
use data_processing.Effect.Triple.{Post, Triple, Triple-bind, Triple-assume}
use data_processing.Acquisition.{
  Problem, transfer_failure, timeout_exception, transport_error, request_policy_error,
  asset_storage_error, os_error, uncaught,
}
use data_processing.Acquisition.Policies.{
  SplitResult, RequestLibrary, validate_destination, validate_redirect, check_redirect,
}
use data_processing.Acquisition.Policies.Destination.{validate_destination-ends}
use data_processing.Acquisition.Transfer.{Response}
use data_processing.Acquisition.Engine.{
  Progress, guard, send, next_url, is_redirect, is_empty, request_within, request, policy_failure,
}
use data_processing.Acquisition.Engine.Keeps.{
  IsTrusted, Finished, Account, IsWithin, Keeps, Keeps-pure, Keeps-guard, Keeps-call, Keeps-either,
}
use data_processing.Acquisition.Engine.Keeps.Body.{check_control-Keeps}

-- A destination is one that the hosts allow.
Allowed : RequestLibrary → List String → Outcome Problem String → Type 0
Allowed urls hosts (returned url) =
    (parsed : SplitResult) × (validate_destination urls url hosts ≡ returned parsed)
Allowed urls hosts (raised x) = Unit
Allowed urls hosts unfinished = ⊥

check_redirect-Allowed :
    (urls : RequestLibrary) (destination : String) (hosts : List String)
    → Allowed urls hosts (check_redirect urls destination hosts)
unfolding check_redirect Allowed
check_redirect-Allowed urls destination hosts =
    checked (validate_destination urls destination hosts) refl
  where
    checked :
        (o : Outcome Problem SplitResult)
        → validate_destination urls destination hosts ≡ o
        → Allowed urls hosts (elim o [
          | returned parsed ↦ returned destination
          | raised e ↦ raised e
          | unfinished ↦ unfinished
        ])
    checked (returned parsed) h = (parsed, h)
    checked (raised e) h = tt
    checked unfinished h = absurd (validate_destination-ends urls destination hosts h)

validate_redirect-Allowed :
    (urls : RequestLibrary) (current location : String) (hosts : List String)
    → Allowed urls hosts (policy_failure (validate_redirect urls current location hosts))
unfolding validate_redirect policy_failure Allowed
validate_redirect-Allowed urls current location hosts =
    located (str_eq location "") (urls.urljoin current location)
  where
    translated :
        (o : Outcome Problem String) → Allowed urls hosts o → Allowed urls hosts (policy_failure o)
    translated (returned url) h = h
    translated (raised (transfer_failure o r)) h = tt
    translated (raised timeout_exception) h = tt
    translated (raised transport_error) h = tt
    translated (raised (request_policy_error c)) h = tt
    translated (raised (asset_storage_error c)) h = tt
    translated (raised os_error) h = tt
    translated (raised (uncaught n)) h = tt
    translated unfinished h = h

    located :
        (b : Bool) (d : Option String)
        → Allowed urls hosts (
            policy_failure (
              if b then raised (request_policy_error "invalid_redirect") else elim d [
                | none ↦ raised (uncaught "ValueError")
                | some destination ↦ check_redirect urls destination hosts
              ]))
    located true d = tt
    located false none = tt
    located false (some destination) =
        translated (check_redirect urls destination hosts)
          (check_redirect-Allowed urls destination hosts)

Allowed-Finished :
    (urls : RequestLibrary) (hosts : List String) (o : Outcome Problem String)
    → Allowed urls hosts o
    → Finished o
unfolding Allowed
Allowed-Finished urls hosts (returned url) h = tt
Allowed-Finished urls hosts (raised x) h = tt
Allowed-Finished urls hosts unfinished h = h

pub validate_redirect-Finished :
    (urls : RequestLibrary) (current location : String) (hosts : List String)
    → Finished (policy_failure (validate_redirect urls current location hosts))
validate_redirect-Finished urls current location hosts =
    Allowed-Finished urls hosts _ (validate_redirect-Allowed urls current location hosts)

pub guard-passes :
    {W : Type 0} {P : Progress W → Type 0} (b : Bool) (x : Problem)
    → Triple P (guard b x) (λ _ s. P s × (b ≡ true)) (λ _. P)
unfolding guard
guard-passes true x = record { at = λ s h. (h, refl) }
guard-passes false x = record { at = λ s h. h }

module _ {W : Type 0} (k : Account W) where
  open k use {engine, deadline}

  next_url-Trusted :
      (url : String) (response : Response)
      → Triple
          (IsWithin k)
          (next_url engine deadline url response)
          (λ next s. IsWithin k s × IsTrusted engine next)
          (λ _. IsWithin k)
  unfolding next_url Allowed
  next_url-Trusted url response = record {
    at = λ s h. trusted _ s h (
        validate_redirect-Allowed engine.urls (engine.host.rendered url)
          (elim response.location [ none ↦ "" | some location ↦ location ])
          engine.recipe.redirect_hosts);
  }
    where
      trusted :
          (o : Outcome Problem String) (s : Progress W)
          → IsWithin k s
          → Allowed engine.urls engine.recipe.redirect_hosts o
          → Post (λ next t. IsWithin k t × IsTrusted engine next) (λ _. IsWithin k) (o, s)
      trusted (returned next) s h a = (h, inr a)
      trusted (raised x) s h a = h
      trusted unfinished s h a = absurd a

  send-Keeps :
      (url : String) (headers : List (String × String))
      → IsTrusted engine url
      → Keeps k (send engine deadline url headers)
  unfolding send
  send-Keeps url headers t = record {
    at = λ s (a, b, c, d, f).
        (Keeps-call k (engine.host.send url headers)).at
          (record s { requested = url ∷ s.requested }) (a, b, c, (t, d), f);
  }

  request_within-Keeps :
      (fuel : ℕ) (url : String) (headers : List (String × String)) (redirects : ℕ)
      → IsTrusted engine url
      → fuel + redirects ≡ suc engine.limits.max_redirects
      → redirects ≤ engine.limits.max_redirects
      → Keeps k (request_within engine deadline fuel url headers redirects)
  unfolding request_within
  request_within-Keeps zero url headers redirects t e le = absurd (omega (arith, e, le))
  request_within-Keeps (suc fuel) url headers redirects t e le =
      Triple-bind _ _ (check_control-Keeps k) λ _.
        Triple-bind _ _ (send-Keeps url headers t) λ response.
          Keeps-either k (is_redirect response.status_code) _ _
            (Triple-bind _ _
              (guard-passes (not (leb engine.limits.max_redirects redirects))
                (transfer_failure "policy_failure" false))
              λ _. Triple-assume (not (leb engine.limits.max_redirects redirects) ≡ true) λ below.
                Triple-bind _ _
                  (Keeps-guard k (not (is_empty engine.recipe.redirect_hosts))
                    (transfer_failure "policy_failure" false))
                  λ _. Triple-bind _ _ (next_url-Trusted url response) λ next.
                    Triple-assume (IsTrusted engine next) λ t'.
                      request_within-Keeps fuel next headers (redirects + 1) t' (omega (arith, e))
                        (ground (arith, below)))
            (Keeps-pure k (response, redirects))

  pub request-Keeps : (headers : List (String × String)) → Keeps k (request engine deadline headers)
  unfolding request
  request-Keeps headers =
      request_within-Keeps (suc engine.limits.max_redirects) engine.recipe.url headers 0 (inl refl)
        (omega arith) (omega arith)
