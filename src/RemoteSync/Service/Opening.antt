-- ===== src/RemoteSync/Service/Opening.antt =====
-- What `synchronize` does before the executor runs: it opens a run, and starts with nothing spent.
use data_processing.Prelude.{
  String, ℕ, [], ◌≡◌, ◌≢◌, ◌⊎◌, inl, inr, refl, sym, subst, Option, none, some, arith,
}
use data_processing.Effect.{
  Answer, Outcome, returned, raised, unfinished, and_then, ◌>>=◌, of_outcome,
}
use data_processing.Effect.Triple.{Post, Triple, Triple-bind}
use data_processing.RemoteSync.Types.{Exception}
use data_processing.RemoteSync.Session.{Session, monotonic}
use data_processing.RemoteSync.Budget.{new_tracker}
use data_processing.RemoteSync.Budget.Admission.{IsWithin}
use data_processing.RemoteSync.Gate.{
  Signed, natural, negative, GateArguments, GateSettings, gate_refused, new_gate,
}
use data_processing.RemoteSync.Executor.{executor_gate, interval_refused}
use data_processing.RemoteSync.Gate.Sound.{Sound}
use data_processing.RemoteSync.Service.{Origin, on_catalog, on_origin, write_transaction}
use data_processing.RemoteSync.Service.Sync.{
  Service, bind_origin, open_body, open_run, run_record, new_executor,
}
use data_processing.RemoteSync.Service.Ends.{open_runs, IsNumbered, Opened, begin-Opened}
use data_processing.Persistence.Tables.{Db, RemoteRunRecord}
use data_processing.Persistence.Runs.{validate_run, begin_remote_run}

abbrev pub IsNegative : Signed → Type 0
IsNegative (natural _) = ⊥
IsNegative (negative _) = Unit

module _ {C : Type 0} (service : Service C) where
  validate-here :
      (db : Db C) (r : RemoteRunRecord)
      → Triple (λ db'. db' ≡ db) (of_outcome (validate_run r)) (λ _ db'. db' ≡ db) (λ _ db'. Unit)
  unfolding validate_run
  validate-here db r = record { at = λ db' e. ground arith }

  begin-here :
      (db : Db C) (r : RemoteRunRecord)
      → IsNumbered db
      → Triple
          (λ db'. db' ≡ db)
          (begin_remote_run r)
          (λ run_id. Opened (open_runs db) run_id)
          (λ _ db'. Unit)
  unfolding begin_remote_run
  begin-here db r h = record {
    at = λ db' e.
        subst
          (λ d.
            Post (λ run_id. Opened (open_runs db) run_id) (λ _ db''. Unit) (begin_remote_run r d))
          (sym e) (begin-Opened db r _ h);
  }

  bind-here :
      (n run_id : ℕ)
      → Triple (Opened n run_id) (bind_origin service run_id) (λ _. Opened n run_id) (λ _ _. Unit)
  unfolding bind_origin on_catalog on_origin open_runs
  bind-here n run_id = on_origin-Opened service.origin
    where
      catalog-Opened :
          (f : C → Answer Exception (Unit {0}) × C)
          → Triple (Opened n run_id) (on_catalog f) (λ _. Opened n run_id) (λ _ _. Unit)
      catalog-Opened f = record { at = λ db h. ground (arith, h.one, h.total) }

      on_origin-Opened :
          (o : Option (Origin C))
          → Triple
              (Opened n run_id)
              (on_origin o (λ o'. o'.bind_run run_id))
              (λ _. Opened n run_id)
              (λ _ _. Unit)
      on_origin-Opened none = record { at = λ db h. h }
      on_origin-Opened (some o) = catalog-Opened (o.bind_run run_id)

  open_body-here :
      (db : Db C) (parent : Option ℕ)
      → IsNumbered db
      → Triple
          (λ db'. db' ≡ db)
          (open_body service parent)
          (λ run_id. Opened (open_runs db) run_id)
          (λ _ _. Unit)
  unfolding open_body
  open_body-here db parent h = Triple-bind _ _ (validate-here db (run_record service parent)) λ r.
      Triple-bind _ _ (begin-here db r h)
        λ run_id. Triple-bind _ _ (bind-here (open_runs db) run_id) λ _. record { at = λ db' o. o }

  -- A run that cannot be opened leaves the catalog as it was.
  pub open_run-here :
      (db : Db C) (parent : Option ℕ)
      → IsNumbered db
      → Post
          (λ run_id. Opened (open_runs db) run_id)
          (λ _ db'. db' ≡ db)
          (open_run service parent db)
  unfolding open_run write_transaction
  open_run-here db parent h = ground (arith, (open_body-here db parent h).at db refl)

  -- The constructors of the executor and of its gate refuse negative numbers.
  abbrev pub Unbuilt : Exception → Type 0
  Unbuilt e =
      (IsNegative service.adapter.minimum_interval_seconds × (e ≡ interval_refused))
      ⊎ (IsNegative service.gate.maximum_retries × (e ≡ gate_refused))

  executor_gate-Unbuilt :
      (interval retries provider : Signed) (second : ℕ) (seconds : String → Option ℕ)
      (e : Exception)
      → executor_gate
          (record {
            minimum_interval_seconds = interval;
            maximum_retries = retries;
            second = second;
            seconds = seconds;
          })
          provider
        ≡ raised e
      → (IsNegative provider × (e ≡ interval_refused)) ⊎ (IsNegative retries × (e ≡ gate_refused))
  unfolding executor_gate new_gate
  executor_gate-Unbuilt interval retries (negative n) second seconds e h =
      inl (tt, ground (arith, h))
  executor_gate-Unbuilt interval (negative n) (natural p) second seconds e h =
      inr (tt, ground (arith, h))
  executor_gate-Unbuilt interval (natural r) (natural p) second seconds e h =
      absurd (ground (arith, h))

  executor_gate-ends :
      (arguments : GateArguments) (provider : Signed)
      → executor_gate arguments provider ≢ unfinished
  unfolding executor_gate new_gate
  executor_gate-ends arguments provider = ground arith

  -- A new executor has spent nothing.
  pub new_executor-Sound :
      (s : Session (Db C))
      → Post
          (λ gate s'.
            Sound gate.minimum_interval_seconds (λ _ db. db.runs ≡ s.store.runs) s'
            × IsWithin s'.budget
            × (s'.limits ≡ service.limits)
            × (s'.store ≡ s.store))
          (λ e s'. Unbuilt e × (s'.store ≡ s.store))
          (new_executor service s)
  unfolding new_executor new_tracker monotonic ◌>>=◌
  new_executor-Sound s =
      built (executor_gate service.gate service.adapter.minimum_interval_seconds)
        (executor_gate-Unbuilt service.gate.minimum_interval_seconds service.gate.maximum_retries
          service.adapter.minimum_interval_seconds service.gate.second service.gate.seconds)
        (executor_gate-ends service.gate service.adapter.minimum_interval_seconds)
    where
      built :
          (r : Outcome Exception GateSettings)
          → ((e : Exception) → r ≡ raised e → Unbuilt e)
          → r ≢ unfinished
          → Post
              (λ gate s'.
                Sound gate.minimum_interval_seconds (λ _ db. db.runs ≡ s.store.runs) s'
                × IsWithin s'.budget
                × (s'.limits ≡ service.limits)
                × (s'.store ≡ s.store))
              (λ e s'. Unbuilt e × (s'.store ≡ s.store))
              (and_then (monotonic s) λ t. of_outcome r >>= λ gate s'. (
                returned gate,
                record s' {
                  budget = new_tracker service.limits t;
                  last_request_at = none;
                  served = 0;
                  issued = [];
                  captured = [];
                },
              ))
      built (returned gate) u n = ground arith
      built (raised e) u n = (u e refl, refl)
      built unfinished u n = absurd (n refl)
