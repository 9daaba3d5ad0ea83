-- ===== src/RemoteSync/Gate/Sound.antt =====
-- What holds of a session between the requests of a gate, and how the steps of one turn keep it.
use data_processing.Prelude.{
  ℕ, ◌+◌, ◌≤◌, ◌<◌, ◌≡◌, refl, Option, none, some, List, [], ◌∷◌, length, arith, ◌≢◌,
}
use data_processing.Effect.{Answer}
use data_processing.Effect.Triple.{Triple}
use data_processing.RemoteSync.Types.{Exception, AdapterRequest, ResponseEnvelope}
use data_processing.RemoteSync.Session.{BudgetTracker, Session, call_transport}
use data_processing.RemoteSync.Budget.{reserve_request, can_request, remaining_seconds}
use data_processing.RemoteSync.Gate.{GateSettings, pace_after, pace, stamp, fetch_once, retry_wait}

-- `t` is at least `gap` after the last of the instants.
abbrev pub After : ℕ → ℕ → List ℕ → Type 0
After gap t [] = Unit
After gap t (u ∷ us) = u + gap ≤ t

-- Any two consecutive instants, the last one first, are at least `gap` apart.
abbrev pub IsPaced : ℕ → List ℕ → Type 0
IsPaced gap [] = Unit
IsPaced gap (t ∷ ts) = After gap t ts × IsPaced gap ts

-- The gate remembers the instant of the last call, which lies in the past.
abbrev pub Stamped : Option ℕ → List ℕ → ℕ → Type 0
Stamped none [] now = Unit
Stamped (some t) (u ∷ us) now = (t ≡ u) × (u ≤ now)
Stamped _ _ now = ⊥

module _ {S : Type 0} (gap : ℕ) (J : ℕ → S → Type 0) where
  -- `J n` is what the caller's store satisfies when `n` requests have been charged.
  pub record Sound (s : Session S) : Type 0 where
    pub within : s.requests ≤ s.limits.requests
    pub counted : length s.issued ≡ s.requests
    pub served_counted : s.served ≡ s.requests
    pub paced : IsPaced gap s.issued
    pub stamped : Stamped s.last_request_at s.issued s.now
    pub started : s.started_at ≤ s.now
    pub stored : J s.requests s.store

  -- A request of the budget `b` is charged and not yet made.
  pub record Charged (b : BudgetTracker) (s : Session S) : Type 0 where
    pub charged : s.budget ≡ record b { requests = b.requests + 1 }
    pub room : b.requests < b.limits.requests
    pub counted : length s.issued ≡ b.requests
    pub served_counted : s.served ≡ b.requests
    pub paced : IsPaced gap s.issued
    pub rested : After gap s.now s.issued
    pub started : b.started_at ≤ s.now
    pub stored : J b.requests s.store

module _ {S : Type 0} (gate : GateSettings) (J : ℕ → S → Type 0) where
  -- Between two turns.
  abbrev pub Kept : BudgetTracker → Session S → Type 0
  Kept b s = Sound gate.minimum_interval_seconds J s × (s.budget ≡ b)

  abbrev pub Rested : BudgetTracker → Session S → Type 0
  Rested b s =
      Sound gate.minimum_interval_seconds J s
      × (s.budget ≡ b)
      × After gate.minimum_interval_seconds s.now s.issued

  pace_after-Rested :
      (b : BudgetTracker) (o : Option ℕ)
      → Triple
          (λ s. Kept b s × (s.last_request_at ≡ o))
          (pace_after gate o)
          (λ _. Rested b)
          (λ _. Kept b)
  unfolding pace_after
  pace_after-Rested b none = record { at = λ s h. ground arith }
  pace_after-Rested b (some last) = record { at = λ s h. ground arith }

  pub pace-Rested : (b : BudgetTracker) → Triple (Kept b) (pace gate) (λ _. Rested b) (λ _. Kept b)
  unfolding pace
  pace-Rested b = record { at = λ s h. (pace_after-Rested b s.last_request_at).at s (h, refl) }

  pub reserve-Charged :
      (b : BudgetTracker)
      → Triple
          (Rested b)
          reserve_request
          (λ _. Charged gate.minimum_interval_seconds J b)
          (λ _. Kept b)
  unfolding reserve_request
  reserve-Charged b = record { at = λ s h. ground arith }

  abbrev pub charge : BudgetTracker → BudgetTracker
  charge b = record b { requests = b.requests + 1 }

  -- A request of the budget `b` is made, and its response not yet retained.
  pub record Made (b : BudgetTracker) (s : Session S) : Type 0 where
    pub charged : s.budget ≡ charge b
    pub room : b.requests < b.limits.requests
    pub counted : length s.issued ≡ b.requests + 1
    pub served_counted : s.served ≡ b.requests + 1
    pub paced : IsPaced gate.minimum_interval_seconds s.issued
    pub stamped : Stamped s.last_request_at s.issued s.now
    pub started : b.started_at ≤ s.now
    pub stored : J b.requests s.store

  abbrev pub Stamping : BudgetTracker → Session S → Type 0
  Stamping b s = Charged gate.minimum_interval_seconds J b s × (s.last_request_at ≡ some s.now)

  pub stamp-Stamping :
      (b : BudgetTracker)
      → Triple
          (Charged gate.minimum_interval_seconds J b)
          (stamp gate)
          (λ _. Stamping b)
          (λ _. Kept b)
  unfolding stamp
  stamp-Stamping b = record { at = λ s h. grind arith }

  -- Between two turns, with the request of this turn counted.
  abbrev pub Answered : BudgetTracker → Session S → Type 0
  Answered b = Kept (charge b)

  pub fetch-Made :
      (b : BudgetTracker) (transport : ℕ → AdapterRequest → Answer Exception ResponseEnvelope)
      (request : AdapterRequest)
      → ((n : ℕ) (store : S) → J n store → J (n + 1) store)
      → Triple
          (Stamping b)
          (fetch_once gate (call_transport transport request))
          (λ _. Made b)
          (λ _. Answered b)
  unfolding fetch_once call_transport
  fetch-Made b transport request mono = record {
    at = λ s h. ground (arith, mono b.requests s.store);
  }

  -- `T` is any fact about the captured responses and the store.
  pub retry_wait-Answered :
      (b : BudgetTracker) (T : List (ResponseEnvelope × ℕ) → S → Type 0)
      (response : ResponseEnvelope) (retries : ℕ)
      → Triple
          (λ s. Answered b s × T s.captured s.store)
          (retry_wait gate response retries)
          (λ w s.
            (Answered b s × T s.captured s.store) × (w ≢ none → retries < gate.maximum_retries))
          (λ _. Answered b)
  unfolding retry_wait can_request remaining_seconds
  retry_wait-Answered b T response retries = record { at = λ s h. ground arith }
