-- ===== src/RemoteSync/Gate/Attempts.antt =====
-- The loop of the gate ends, keeps the session sound, and makes at most `maximum_retries + 1` requests.
use native.Mathlib.Numerals.{add-one}
use data_processing.Prelude.{ℕ, zero, suc, ◌+◌, ◌≤◌, ◌<◌, ◌≡◌, ◌≢◌, Option, none, some, List, arith}
use data_processing.Effect.{Answer, pure, ◌>>◌}
use data_processing.Effect.Triple.{
  Post, Triple, Triple-bind, Triple-bind_weak, Triple-weaken, Triple-assume,
}
use data_processing.RemoteSync.Types.{Exception, AdapterRequest, ResponseEnvelope}
use data_processing.RemoteSync.Session.{BudgetTracker, Session, Run, sleep, call_transport}
use data_processing.RemoteSync.Gate.{GateSettings, attempt, attempts, execute}
use data_processing.RemoteSync.Gate.Sound.{
  Sound, Kept, Made, Answered, charge, pace-Rested, reserve-Charged, stamp-Stamping, fetch-Made,
  retry_wait-Answered,
}

-- What the gate relies on in the callback that retains a response: `R response` is what holds of the
-- captured responses and the store once the response is retained.
pub record Retains {S : Type 0} (gate : GateSettings) (J : ℕ → S → Type 0)
    (R : ResponseEnvelope → List (ResponseEnvelope × ℕ) → S → Type 0)
    (retain : ResponseEnvelope → Run S (Unit {0})) : Type 0 where
  pub at :
      (b : BudgetTracker) (response : ResponseEnvelope)
      → Triple
          (Made gate J b)
          (retain response)
          (λ _ s. Answered gate J b s × R response s.captured s.store)
          (λ _. Answered gate J b)

module _ {S : Type 0} (gate : GateSettings) (J : ℕ → S → Type 0) where
  -- From the budget `b`, at least `low` requests and at most `n` are charged, and nothing else is counted.
  pub record Spent (low n : ℕ) (b : BudgetTracker) (s : Session S) : Type 0 where
    pub sound : Sound gate.minimum_interval_seconds J s
    pub at_least : b.requests + low ≤ s.requests
    pub at_most : s.requests ≤ b.requests + n
    pub same_pages : s.pages ≡ b.pages
    pub same_records : s.records ≡ b.records
    pub same_limits : s.limits ≡ b.limits
    pub same_start : s.started_at ≡ b.started_at

  -- The same where a response is got, and retained.
  abbrev pub Got :
      (ResponseEnvelope → List (ResponseEnvelope × ℕ) → S → Type 0)
      → ℕ
      → ℕ
      → BudgetTracker
      → ResponseEnvelope
      → Session S
      → Type 0
  Got R low n b response s = Spent low n b s × R response s.captured s.store

module _ {S : Type 0} (gate : GateSettings) (J : ℕ → S → Type 0)
    (R : ResponseEnvelope → List (ResponseEnvelope × ℕ) → S → Type 0)
    (transport : ℕ → AdapterRequest → Answer Exception ResponseEnvelope)
    (retain : ResponseEnvelope → Run S (Unit {0})) (request : AdapterRequest)
    (mono : (n : ℕ) (store : S) → J n store → J (n + 1) store)
    (retains : Retains gate J R retain) where
  Kept-Spent :
      (b : BudgetTracker) (e : Exception) (s : Session S) → Kept gate J b s → Spent gate J 0 1 b s
  Kept-Spent b e s h = record {
    sound = h.0;
    at_least = ground arith;
    at_most = ground arith;
    same_pages = ground arith;
    same_records = ground arith;
    same_limits = ground arith;
    same_start = ground arith;
  }

  Answered-Spent :
      (low : ℕ) (b : BudgetTracker) (s : Session S)
      → low ≤ 1
      → Answered gate J b s
      → Spent gate J low 1 b s
  Answered-Spent low b s l h = record {
    sound = h.0;
    at_least = ground arith;
    at_most = ground arith;
    same_pages = ground arith;
    same_records = ground arith;
    same_limits = ground arith;
    same_start = ground arith;
  }

  attempt-Answered :
      (b : BudgetTracker) (retries : ℕ)
      → Triple
          (Kept gate J b)
          (attempt gate (call_transport transport request) retain retries)
          (λ rw s.
            (Answered gate J b s × R rw.0 s.captured s.store)
            × (rw.1 ≢ none → retries < gate.maximum_retries))
          (λ _. Spent gate J 0 1 b)
  unfolding attempt
  attempt-Answered b retries = Triple-bind_weak _ _ (pace-Rested gate J b) (Kept-Spent b) λ _.
      Triple-bind_weak _ _ (reserve-Charged gate J b) (Kept-Spent b) λ _.
        Triple-bind_weak _ _ (stamp-Stamping gate J b) (Kept-Spent b) λ _.
          Triple-bind_weak _ _ (fetch-Made gate J b transport request mono)
            (λ e s. Answered-Spent 0 b s (omega arith))
            λ response.
              Triple-bind_weak _ _ (retains.at b response)
                (λ e s. Answered-Spent 0 b s (omega arith))
                λ _.
                  Triple-bind_weak _ _ (retry_wait-Answered gate J b (R response) response retries)
                    (λ e s. Answered-Spent 0 b s (omega arith)) λ w. record { at = λ s h. h }

  sleep-Kept :
      (b : BudgetTracker) (d : ℕ) (E : Exception → Session S → Type 0)
      → Triple (Kept gate J b) (sleep d) (λ _. Kept gate J b) E
  unfolding sleep
  sleep-Kept b d E = record { at = λ s h. ground arith }

  next_turn :
      (low k fuel : ℕ) (b : BudgetTracker) (s : Session S)
      → low ≤ 1
      → Spent gate J k fuel (charge gate J b) s
      → Spent gate J low (suc fuel) b s
  next_turn low k fuel b s l h = record {
    sound = h.sound;
    at_least = ground arith;
    at_most = ground arith;
    same_pages = h.same_pages;
    same_records = h.same_records;
    same_limits = h.same_limits;
    same_start = h.same_start;
  }

  first_turn :
      (low fuel : ℕ) (b : BudgetTracker) (s : Session S)
      → Spent gate J low 1 b s
      → Spent gate J low (suc fuel) b s
  first_turn low fuel b s h = record {
    sound = h.sound;
    at_least = h.at_least;
    at_most = ground arith;
    same_pages = h.same_pages;
    same_records = h.same_records;
    same_limits = h.same_limits;
    same_start = h.same_start;
  }

  sleep_then :
      (fuel : ℕ) (b : BudgetTracker) (rest : Run S ResponseEnvelope) (delay : ℕ)
      → Triple
          (Answered gate J b)
          rest
          (Got gate J R 1 fuel (charge gate J b))
          (λ _. Spent gate J 0 fuel (charge gate J b))
      → Triple
          (Answered gate J b)
          (sleep delay >> rest)
          (Got gate J R 1 (suc fuel) b)
          (λ _. Spent gate J 0 (suc fuel) b)
  sleep_then fuel b rest delay later =
      Triple-weaken (λ s p. p) (λ r s' h. (next_turn 1 1 fuel b s' (omega arith) h.0, h.1))
        (λ e s'. next_turn 0 0 fuel b s' (omega arith))
        (Triple-bind (sleep delay) (λ _. rest) (sleep-Kept (charge gate J b) delay _) (λ _. later))

  -- What follows a turn, if the later turns do what they are to do.
  after_turn :
      (fuel : ℕ) (b : BudgetTracker) (response : ResponseEnvelope) (more : Type 0)
      (rest : Run S ResponseEnvelope)
      → (more
          → Triple
              (Answered gate J b)
              rest
              (Got gate J R 1 fuel (charge gate J b))
              (λ _. Spent gate J 0 fuel (charge gate J b)))
      → (wait : Option ℕ)
      → Triple {X = Exception}
          (λ s. (Answered gate J b s × R response s.captured s.store) × (wait ≢ none → more))
          (elim wait [ none ↦ pure response | some delay ↦ do sleep delay; rest ])
          (Got gate J R 1 (suc fuel) b)
          (λ _. Spent gate J 0 (suc fuel) b)
  after_turn fuel b response more rest later none = record {
    at = λ s h. (first_turn 1 fuel b s (Answered-Spent 1 b s (omega arith) h.0.0), h.0.1);
  }
  after_turn fuel b response more rest later (some delay) =
      Triple-weaken (λ s h. (h.0.0, h.1 (λ e. cc))) (λ r s q. q) (λ e s q. q)
        (Triple-assume more (λ m. sleep_then fuel b rest delay (later m)))

  -- From `retries` on, with more fuel than retries are left.
  attempts-Spent :
      (fuel : ℕ) (b : BudgetTracker) (retries : ℕ)
      → gate.maximum_retries < retries + fuel
      → retries ≤ gate.maximum_retries
      → Triple
          (Kept gate J b)
          (attempts gate (call_transport transport request) retain fuel retries)
          (Got gate J R 1 fuel b)
          (λ _. Spent gate J 0 fuel b)
  unfolding attempts
  attempts-Spent zero b retries enough within = absurd (omega arith)
  attempts-Spent (suc fuel) b retries enough within =
      Triple-bind_weak _ _ (attempt-Answered b retries) (λ e s. first_turn 0 fuel b s)
        λ (response, wait).
          after_turn fuel b response (retries < gate.maximum_retries)
            (attempts gate (call_transport transport request) retain fuel (retries + 1))
            (λ more.
              attempts-Spent fuel (charge gate J b) (retries + 1) (omega arith) (omega arith))
            wait

  -- `execute` ends, and charges at least one request and at most `maximum_retries + 1`.
  pub execute-Spent :
      (b : BudgetTracker)
      → Triple
          (Kept gate J b)
          (execute gate (call_transport transport request) retain)
          (Got gate J R 1 (gate.maximum_retries + 1) b)
          (λ _. Spent gate J 0 (gate.maximum_retries + 1) b)
  unfolding execute
  execute-Spent b =
      rw add-one (attempts-Spent (suc gate.maximum_retries) b 0 (omega arith) (omega arith))

  -- From a session that is sound and has the budget `b`, `execute` ends. If it returns, it has made
  -- from one to `maximum_retries + 1` requests, and has retained the response; if it raises, it has made
  -- at most `maximum_retries + 1` requests, possibly none. It counts no page, and any two requests are at least the gate's interval apart.
  pub execute-bounded :
      (b : BudgetTracker) (s : Session S)
      → Kept gate J b s
      → Post
          (Got gate J R 1 (gate.maximum_retries + 1) b)
          (λ _. Spent gate J 0 (gate.maximum_retries + 1) b)
          (execute gate (call_transport transport request) retain s)
  execute-bounded b s h = (execute-Spent b).at s h
