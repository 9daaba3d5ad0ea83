-- ===== src/RemoteSync/Executor/Contract.antt =====
-- What the executor relies on in the callbacks that its caller hands over.
use data_processing.Prelude.{◌≤◌, ℕ, ◌+◌, ◌≡◌}
use data_processing.Effect.{Outcome, returned, raised, unfinished}
use data_processing.Effect.Triple.{Triple}
use data_processing.RemoteSync.Types.{Exception, ResponseEnvelope, record_count}
use data_processing.RemoteSync.Session.{BudgetTracker}
use data_processing.RemoteSync.Budget.Admission.{IsWithin}
use data_processing.RemoteSync.Gate.{GateSettings}
use data_processing.RemoteSync.Gate.Sound.{Sound}
use data_processing.RemoteSync.Executor.{RetainedPage, Calls}

-- The budget after one page of `n` records more.
abbrev pub count_page : BudgetTracker → ℕ → BudgetTracker
count_page b n = record b { pages = b.pages + 1; records = b.records + n }

module _ {S : Type 0} (J : ℕ → S → Type 0) (K : ResponseEnvelope → ℕ → S → Type 0) where
  abbrev pub RetainOk : ResponseEnvelope → ℕ → Outcome Exception ℕ × S → Type 0
  RetainOk response n (returned raw_id, store) = J n store × K response raw_id store
  RetainOk response n (raised e, store) = J n store
  RetainOk response n (unfinished, store) = ⊥

  -- What the executor relies on in the callbacks. `J n` holds of a store when `n` requests are charged,
  -- and `K response raw_id` when the response is retained under that id. A commit that returns has
  -- counted the page; one that raises has counted it or not.
  pub record CallsKeep (gate : GateSettings) (calls : Calls S) : Type 0 where
    pub mono : (n : ℕ) (store : S) → J n store → J (n + 1) store
    pub retains :
        (response : ResponseEnvelope) (n : ℕ) (store : S)
        → J n store
        → RetainOk response (n + 1) (calls.retain_response response (n + 1) store)
    pub commits :
        (b : BudgetTracker) (page : RetainedPage)
        → Triple
            (λ s.
              Sound gate.minimum_interval_seconds J s
              × (s.budget ≡ b)
              × IsWithin b
              × K page.response page.raw_observation_id s.store)
            (calls.commit_page page)
            (λ _ s.
              Sound gate.minimum_interval_seconds J s
              × (s.budget ≡ count_page b (record_count page.page))
              × IsWithin s.budget)
            (λ _ s.
              Sound gate.minimum_interval_seconds J s
              × IsWithin s.budget
              × (s.requests ≡ b.requests)
              × (s.limits ≡ b.limits)
              × (s.pages ≤ b.pages + 1))
