-- ===== src/Acquisition/Engine/Requests.antt =====
-- How many requests the loop over redirects makes.
use data_processing.Prelude.{
  ℕ, zero, suc, String, none, some, List, Bool, true, false, not, ◌≡◌, refl, arith, ◌≤◌, ◌+◌,
  length, leb,
}
use data_processing.Effect.{
  Outcome, Answer, answered, failed, from_answer, returned, raised, unfinished, pure, of_outcome,
  ◌>>=◌,
}
use data_processing.Effect.Triple.{Post, Triple, Triple-bind_weak, Triple-assume, Triple-weaken}
use data_processing.Acquisition.{Problem, transfer_failure}
use data_processing.Acquisition.Transfer.{Response}
use data_processing.Acquisition.Engine.{
  Engine, Progress, Transferring, call, ask, guard, check_control, send, next_url, is_redirect,
  is_empty, request_within, request,
}
use data_processing.Acquisition.Engine.Keeps.Redirects.{guard-passes, validate_redirect-Finished}
use data_processing.Acquisition.Engine.Keeps.{Finished}

module _ {W : Type 0} (e : Engine W) (deadline made : ℕ) where
  -- So many requests were made.
  abbrev Made : ℕ → Progress W → Type 0
  Made n s = length s.requested ≡ made + n

  abbrev pub Answered : Response × ℕ → Progress W → Type 0
  Answered (response, redirects) s =
      (length s.requested ≡ made + suc redirects)
      × (redirects ≤ e.limits.max_redirects)
      × (is_redirect response.status_code ≡ false)

  abbrev pub Stopped : Progress W → Type 0
  Stopped s = length s.requested ≤ made + suc e.limits.max_redirects

  check_control-Made :
      (n : ℕ) → Triple (Made n) (check_control e deadline) (λ _. Made n) (λ _. Made n)
  unfolding check_control ask guard ◌>>=◌
  check_control-Made n = record { at = λ s h. ground (arith, h) }

  guard-Made :
      (n : ℕ) (b : Bool) (x : Problem) → Triple (Made n) (guard b x) (λ _. Made n) (λ _. Made n)
  unfolding guard
  guard-Made n true x = record { at = λ s h. h }
  guard-Made n false x = record { at = λ s h. h }

  send-Made :
      (n : ℕ) (url : String) (headers : List (String × String))
      → Triple (Made n) (send e deadline url headers) (λ _. Made (suc n)) (λ _. Made (suc n))
  unfolding send call
  send-Made n url headers = record {
    at = λ s h. sent (e.host.send url headers s.world).0 _ (omega (arith, h));
  }
    where
      sent :
          (a : Answer Problem Response) (s : Progress W)
          → Made (suc n) s
          → Post (λ _. Made (suc n)) (λ _. Made (suc n)) (from_answer a, s)
      sent (answered a) s h = h
      sent (failed x) s h = h

  next_url-Made :
      (n : ℕ) (url : String) (response : Response)
      → Triple (Made n) (next_url e deadline url response) (λ _. Made n) (λ _. Made n)
  unfolding next_url
  next_url-Made n url response = record {
    at = λ s h. told _ s h (
        validate_redirect-Finished e.urls (e.host.rendered url)
          (elim response.location [ none ↦ "" | some location ↦ location ])
          e.recipe.redirect_hosts);
  }
    where
      told :
          (o : Outcome Problem String) (s : Progress W)
          → Made n s
          → Finished o
          → Post (λ _. Made n) (λ _. Made n) (of_outcome o s)
      told (returned next) s h f = h
      told (raised x) s h f = h
      told unfinished s h f = f

  early :
      (n : ℕ)
      → n ≤ suc e.limits.max_redirects
      → (x : Problem) (s : Progress W) → Made n s
      → Stopped s
  early n le x s h = omega (arith, h, le)

  request_within-Answered :
      (fuel : ℕ) (url : String) (headers : List (String × String)) (redirects : ℕ)
      → fuel + redirects ≡ suc e.limits.max_redirects
      → redirects ≤ e.limits.max_redirects
      → Triple
          (Made redirects)
          (request_within e deadline fuel url headers redirects)
          Answered
          (λ _. Stopped)
  unfolding request_within
  request_within-Answered zero url headers redirects q le = absurd (omega (arith, q, le))
  request_within-Answered (suc fuel) url headers redirects q le =
      Triple-bind_weak _ _ (check_control-Made redirects) (early redirects (omega (arith, le))) λ _.
        Triple-bind_weak _ _ (send-Made redirects url headers)
          (early (suc redirects) (omega (arith, le)))
          λ response. answer response (is_redirect response.status_code) refl (λ next below.
            request_within-Answered fuel next headers (redirects + 1) (omega (arith, q)) below)
    where
      answer :
          (response : Response) (b : Bool)
          → is_redirect response.status_code ≡ b
          → ((next : String)
              → redirects + 1 ≤ e.limits.max_redirects
              → Triple
                  (Made (redirects + 1))
                  (request_within e deadline fuel next headers (redirects + 1))
                  Answered
                  (λ _. Stopped))
          → Triple
              (Made (suc redirects))
              (elim b as (λ _. Transferring W (Response × ℕ)) [
                | false ↦ pure (response, redirects)
                | true ↦
                    guard
                      (not (leb e.limits.max_redirects redirects))
                      (transfer_failure "policy_failure" false)
                    >>= λ _.
                        guard
                          (not (is_empty e.recipe.redirect_hosts))
                          (transfer_failure "policy_failure" false)
                        >>= λ _. next_url e deadline url response >>= λ next.
                            request_within e deadline fuel next headers (redirects + 1)
              ])
              Answered
              (λ _. Stopped)
      answer response false r later = record { at = λ s h. (h, le, r) }
      answer response true r later =
          Triple-bind_weak _ _
            (guard-passes (not (leb e.limits.max_redirects redirects))
              (transfer_failure "policy_failure" false))
            (early (suc redirects) (omega (arith, le)))
            λ _. Triple-assume (not (leb e.limits.max_redirects redirects) ≡ true) λ below.
              Triple-bind_weak _ _
                (guard-Made (suc redirects) (not (is_empty e.recipe.redirect_hosts))
                  (transfer_failure "policy_failure" false))
                (early (suc redirects) (omega (arith, le)))
                λ _.
                  Triple-bind_weak _ _ (next_url-Made (suc redirects) url response)
                    (early (suc redirects) (omega (arith, le)))
                    λ next.
                      Triple-weaken (λ s h. omega (arith, h)) (λ _ s h. h) (λ _ s h. h)
                        (later next (ground (arith, below)))

-- Where a request returns, it was made once more often than it was redirected, at most `max_redirects`
-- times, and its answer is no redirect; it ends, and however it ends, it asks the client at most
-- `max_redirects` + 1 times.
pub request-Answered :
    {W : Type 0} (e : Engine W) (deadline : ℕ) (headers : List (String × String)) (s : Progress W)
    → Post
        (Answered e deadline (length s.requested))
        (λ _. Stopped e deadline (length s.requested))
        (request e deadline headers s)
unfolding request
request-Answered e deadline headers s =
    (request_within-Answered e deadline (length s.requested) (suc e.limits.max_redirects)
        e.recipe.url headers 0 (omega arith) (omega arith)).at
      s (omega arith)
