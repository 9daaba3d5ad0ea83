-- ===== src/RemoteSync/Session.antt =====
-- The objects that a bounded run shares: the clock (`time.monotonic` and `time.sleep`), the counters
-- of `BudgetTracker` with their limits, the request gate's last request time, the provider behind the
-- adapter, the responses that the executor has captured for one page, and the store that the caller's
-- callbacks write.
use data_processing.Prelude.{ℕ, List, ◌∷◌, ◌+◌, Option, suc}
use data_processing.Effect.{returned, Answer, from_answer, Step}
use data_processing.RemoteSync.Types.{Exception, AdapterRequest, ResponseEnvelope}

-- The time that passes before the k-th next reading is `ahead k`, and is any number: the readings never
-- fall, and a sleep lasts at least as long as it was asked to.
pub record Clock : Type 0 where
  pub now : ℕ
  pub ahead : ℕ → ℕ

-- `SyncLimits`
pub record SyncLimits : Type 0 where
  pub requests : ℕ
  pub pages : ℕ
  pub records : ℕ
  pub elapsed_seconds : ℕ

-- `BudgetTracker`
pub record BudgetTracker : Type 0 where
  pub limits : SyncLimits
  pub started_at : ℕ
  pub requests : ℕ
  pub pages : ℕ
  pub records : ℕ

-- `served` counts the calls of the transport and `issued` holds the instants of these calls, the last
-- one first: what an observer at the provider sees.
pub record Session (S : Type 0) : Type 0 where
  pub budget : BudgetTracker
  pub open budget use *
  pub clock : Clock
  pub open clock use *
  pub last_request_at : Option ℕ
  pub served : ℕ
  pub issued : List ℕ
  pub captured : List (ResponseEnvelope × ℕ)
  pub store : S

abbrev pub Run : Type 0 → Type 0 → Type 0
Run S A = Step Exception (Session S) A

module _ {S : Type 0} where
  unfoldable pub monotonic : Run S ℕ
  monotonic s =
      let t = s.now + s.ahead 0 in
      (returned t, record s { clock = record { now = t; ahead = λ k. s.ahead (suc k) } })

  unfoldable pub sleep : ℕ → Run S (Unit {0})
  sleep d s = (returned tt, record s { clock = record { now = s.now + d; ahead = s.ahead } })

  -- One call of the provider: its answer to the k-th call is `transport k`.
  unfoldable pub call_transport :
      (ℕ → AdapterRequest → Answer Exception ResponseEnvelope)
      → AdapterRequest
      → Run S ResponseEnvelope
  call_transport transport request s = (
    from_answer (transport s.served request),
    record s { served = s.served + 1; issued = s.now ∷ s.issued },
  )
