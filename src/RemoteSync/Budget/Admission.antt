-- ===== src/RemoteSync/Budget/Admission.antt =====
-- What the tracker admits: exactly what its limits allow, and nothing is counted that is refused.
use data_processing.Prelude.{ℕ, ◌≡◌, ◌≤◌, ◌<◌, ◌+◌, arith}
use data_processing.Effect.{returned, raised}
use data_processing.Effect.Triple.{Post}
use data_processing.RemoteSync.Types.{
  Exception, exhausted, time_boundary, request_boundary, page_boundary, record_boundary,
}
use data_processing.RemoteSync.Session.{BudgetTracker, Session}
use data_processing.RemoteSync.Budget.{reserve_request, commit_page}

pub record IsWithin (b : BudgetTracker) : Type 0 where
  pub requests_within : b.requests ≤ b.limits.requests
  pub pages_within : b.pages ≤ b.limits.pages
  pub records_within : b.records ≤ b.limits.records

abbrev pub IsExhausted : Exception → Type 0
IsExhausted (exhausted b) = Unit
IsExhausted _ = ⊥

module _ {S : Type 0} (s : Session S) where
  pub reserve-IsWithin : IsWithin s.budget → IsWithin (reserve_request s).1.budget
  unfolding reserve_request
  reserve-IsWithin h = ground arith

  -- A budget that is within its limits is so after `commit_page`, whether it returns or raises.
  pub commit-IsWithin : (n : ℕ) → IsWithin s.budget → IsWithin (commit_page n s).1.budget
  unfolding commit_page
  commit-IsWithin n h = ground arith

  -- The tracker's start lies before the present.
  abbrev IsStarted : Type 0
  IsStarted = s.started_at ≤ s.now

  -- The time is up at the next reading of the clock.
  abbrev TimeUp : Type 0
  TimeUp = s.started_at + s.limits.elapsed_seconds ≤ s.now + s.ahead 0

  -- `reserve_request` raises the time boundary when the time is up at its reading of the clock, else
  -- the request boundary when no request is left, and else counts one request more.
  pub reserve_cases :
      IsStarted
      → (TimeUp → (reserve_request s).0 ≡ raised (exhausted time_boundary))
        × (¬ TimeUp
            → s.limits.requests ≤ s.requests
            → (reserve_request s).0 ≡ raised (exhausted request_boundary))
        × (¬ TimeUp
            → s.requests < s.limits.requests
            → ((reserve_request s).0 ≡ returned tt)
              × ((reserve_request s).1.budget ≡ record s.budget { requests = s.requests + 1 }))
  unfolding reserve_request
  reserve_cases started = (ground arith, ground arith, ground arith)

  -- `commit_page` raises the time boundary when the time is up, else the page boundary when no page is
  -- left, else the record boundary when the page's records do not all fit; in these cases the budget
  -- is unchanged. Else it counts the page and its records.
  pub commit_cases :
      (n : ℕ)
      → IsStarted
      → (TimeUp
          → ((commit_page n s).0 ≡ raised (exhausted time_boundary))
            × ((commit_page n s).1.budget ≡ s.budget))
        × (¬ TimeUp
            → s.limits.pages ≤ s.pages
            → ((commit_page n s).0 ≡ raised (exhausted page_boundary))
              × ((commit_page n s).1.budget ≡ s.budget))
        × (¬ TimeUp
            → s.pages < s.limits.pages
            → s.limits.records < s.records + n
            → ((commit_page n s).0 ≡ raised (exhausted record_boundary))
              × ((commit_page n s).1.budget ≡ s.budget))
        × (¬ TimeUp
            → s.pages < s.limits.pages
            → s.records + n ≤ s.limits.records
            → ((commit_page n s).0 ≡ returned tt)
              × ((commit_page n s).1.budget
                  ≡ record s.budget { pages = s.pages + 1; records = s.records + n }))
  unfolding commit_page
  commit_cases n started = (ground arith, ground arith, ground arith, ground arith)

  -- `commit_page` counts the page with all its records and returns, or raises that a budget is
  -- exhausted and leaves the budget as it is.
  pub commit_all_or_nothing :
      (n : ℕ)
      → Post
          (λ _ s'. s'.budget ≡ record s.budget { pages = s.pages + 1; records = s.records + n })
          (λ e s'. IsExhausted e × (s'.budget ≡ s.budget))
          (commit_page n s)
  unfolding commit_page
  commit_all_or_nothing n = ground arith
