-- ===== src/RemoteSync/Service/Closing.antt =====
-- How `synchronize` ends: the runs that it leaves open, and the counts that it reports.
use data_processing.Prelude.{
  Bool, true, false, if◌then◌else◌, ℕ, ◌≡◌, ◌≢◌, inl, inr, refl, ap, ◌∙◌, sym, subst, Option, none,
  some, arith,
}
use data_processing.Effect.{Outcome, returned, raised, unfinished, and_then, ◌>>=◌}
use data_processing.Effect.Triple.{Post}
use data_processing.RemoteSync.Types.{Exception, Continuation}
use data_processing.RemoteSync.Session.{Session}
use data_processing.RemoteSync.Budget.Admission.{IsWithin}
use data_processing.RemoteSync.Gate.{GateSettings}
use data_processing.RemoteSync.Gate.Sound.{Sound}
use data_processing.RemoteSync.Executor
use data_processing.RemoteSync.Executor.Turn.{Within}
use data_processing.RemoteSync.Executor.Pages.{Done, execute-Done}
use data_processing.RemoteSync.Service.{on_store}
use data_processing.RemoteSync.Stored.{from_json, from_json-ends}
use data_processing.RemoteSync.Service.Sync.{
  some_continuation, may_resume, is_compatible, Service, open_run, new_executor, calls_of,
  run_to_end, last_of_run, resume_from, resume_continuation, synchronize,
}
use data_processing.RemoteSync.Service.Keeps.{calls-CallsKeep}
use data_processing.RemoteSync.Service.Ends.{open_runs, IsNumbered, Opened}
use data_processing.Persistence.Tables.{find, Db, RunRow, CheckpointRow}
use data_processing.Persistence.Runs.{is_run, platform_id}
use data_processing.RemoteSync.Service.Opening.{Unbuilt, open_run-here, new_executor-Sound}
use data_processing.RemoteSync.Service.Conclusion.{Ended, conclude-Ended}

if_ends :
    {A : Type 0} (b : Bool) (x y : Outcome Exception A)
    → x ≢ unfinished
    → y ≢ unfinished
    → (if b then x else y) ≢ unfinished
if_ends true x y p q = p
if_ends false x y p q = q

module _ {C : Type 0} (service : Service C) where
  -- What is known of the session and the outcome when the executor is through.
  abbrev Through : ℕ → ℕ → Outcome Exception (Option Continuation) × Session (Db C) → Type 0
  Through n run_id (o, s) =
      (o ≢ unfinished) × IsWithin s.budget × (s.limits ≡ service.limits) × Opened n run_id s.store

  same_runs-Opened :
      (n run_id : ℕ) (db db' : Db C) → db'.runs ≡ db.runs → Opened n run_id db → Opened n run_id db'
  unfolding open_runs
  same_runs-Opened n run_id db db' e h = record {
    one = ground (arith, e, h.one);
    total = ground (arith, e, h.total);
  }

  executed-Through :
      (n run_id : ℕ) (gate : GateSettings) (c : Option Continuation) (s : Session (Db C))
      → Sound gate.minimum_interval_seconds (λ _ db. db.runs ≡ s.store.runs) s
      → IsWithin s.budget
      → s.limits ≡ service.limits
      → Opened n run_id s.store
      → Through n run_id (Executor.execute (calls_of service run_id) gate c s)
  executed-Through n run_id gate c s sound w l h = through _ (
      (execute-Done (λ _ db. db.runs ≡ s.store.runs) (λ _ _ _. Unit) gate (calls_of service run_id)
          (calls-CallsKeep s.store.runs service gate run_id) s.budget c).at
        s (sound, w, refl))
    where
      through :
          (r : Outcome Exception (Option Continuation) × Session (Db C))
          → Post
              (λ _.
                Done
                  (λ _ db. db.runs ≡ s.store.runs)
                  (λ _ _ _. Unit)
                  gate
                  (calls_of service run_id)
                  (calls-CallsKeep s.store.runs service gate run_id)
                  s.budget)
              (λ _. Within (λ _ db. db.runs ≡ s.store.runs) gate s.budget)
              r
          → Through n run_id r
      through (returned a, s') d = (
        λ e. ground (arith, e),
        d.ended.within,
        d.ended.same_limits ∙ l,
        same_runs-Opened n run_id s.store s'.store d.ended.sound.stored h,
      )
      through (raised e, s') d = (
        λ e. ground (arith, e),
        d.within,
        d.same_limits ∙ l,
        same_runs-Opened n run_id s.store s'.store d.sound.stored h,
      )
      through (unfinished, s') d = absurd d

  run_to_end-Ended :
      (gate : GateSettings) (n run_id : ℕ) (parent : Option ℕ) (c : Option Continuation)
      (s : Session (Db C))
      → Sound gate.minimum_interval_seconds (λ _ db. db.runs ≡ s.store.runs) s
      → IsWithin s.budget
      → s.limits ≡ service.limits
      → Opened n run_id s.store
      → Ended service n (run_to_end service gate run_id parent c s)
  unfolding run_to_end
  run_to_end-Ended gate n run_id parent c s sound w l h =
      let t = executed-Through n run_id gate c s sound w l h in
      conclude-Ended service n run_id parent _ _ t.0 t.1 t.2 t.3

  -- From the constructor of the executor on.
  from_executor :
      (n run_id : ℕ) (parent : Option ℕ) (c : Option Continuation) (s : Session (Db C))
      → Opened n run_id s.store
      → Ended service n
          ((new_executor service >>= λ gate. run_to_end service gate run_id parent c) s)
  unfolding ◌>>=◌
  from_executor n run_id parent c s h = started _ (new_executor-Sound service s)
    where
      started :
          (r : Outcome Exception GateSettings × Session (Db C))
          → Post
              (λ gate s'.
                Sound gate.minimum_interval_seconds (λ _ db. db.runs ≡ s.store.runs) s'
                × IsWithin s'.budget
                × (s'.limits ≡ service.limits)
                × (s'.store ≡ s.store))
              (λ e s'. Unbuilt service e × (s'.store ≡ s.store))
              r
          → Ended service n (and_then r (λ gate. run_to_end service gate run_id parent c))
      started (returned gate, s') q =
          run_to_end-Ended gate n run_id parent c s'
            (subst (λ db. Sound gate.minimum_interval_seconds (λ _ db'. db'.runs ≡ db.runs) s')
              (sym q.3) q.0)
            q.1 q.2 (subst (λ db. Opened n run_id db) (sym q.3) h)
      started (raised e, s') q =
          ((λ u. ground (arith, u)), tt, inr (ap open_runs q.1 ∙ h.total, inr q.0))
      started (unfinished, s') q = absurd q

  from_open_run :
      (db : Db C) (parent : Option ℕ) (c : Option Continuation) (s : Session (Db C))
      (r : Outcome Exception ℕ × Db C)
      → Post (λ run_id. Opened (open_runs db) run_id) (λ _ db'. db' ≡ db) r
      → Ended service (open_runs db) (
          and_then
            (r.0, record s { store = r.1 })
            (λ run_id. new_executor service >>= λ gate. run_to_end service gate run_id parent c))
  from_open_run db parent c s (returned run_id, db') h =
      from_executor (open_runs db) run_id parent c _ h
  from_open_run db parent c s (raised e, db') h =
      ((λ u. ground (arith, u)), tt, inl (ap open_runs h))
  from_open_run db parent c s (unfinished, db') h = absurd h

  outcome-kept :
      {A : Type 0} (db : Db C) (o : Outcome Exception A)
      → o ≢ unfinished
      → Post (λ _ db'. db' ≡ db) (λ _ db'. db' ≡ db) (o, db)
  outcome-kept db (returned a) h = refl
  outcome-kept db (raised e) h = refl
  outcome-kept db unfinished h = absurd (h refl)

  some_ends :
      (o : Outcome Exception Continuation)
      → o ≢ unfinished
      → some_continuation service o ≢ unfinished
  unfolding some_continuation
  some_ends o h = ground arith

  resume_from-ends :
      (run : Option RunRow) (row : Option CheckpointRow) (platform : Option ℕ)
      → resume_from service run row platform ≢ unfinished
  unfolding resume_from
  resume_from-ends none row platform = ground arith
  resume_from-ends (some run) none platform = ground arith
  resume_from-ends (some run) (some row) none = ground arith
  resume_from-ends (some run) (some row) (some id) =
      if_ends (may_resume service run.finish) _ _
        (if_ends (is_compatible service run row (some id)) _ _
          (some_ends (from_json service.json row.saved.continuation_json)
            (from_json-ends service.json row.saved.continuation_json))
          (ground arith))
        (ground arith)

  resume_from-kept :
      (parent : Option ℕ) (db : Db C)
      → Post (λ _ db'. db' ≡ db) (λ _ db'. db' ≡ db) (resume_continuation service parent db)
  unfolding resume_continuation
  resume_from-kept none db = refl
  resume_from-kept (some p) db = outcome-kept db _ (
      resume_from-ends (find (is_run p) db.runs) (last_of_run service p db.checkpoints)
        (platform_id service.adapter.instance_key db.platforms))

  after_resume :
      (db : Db C) (parent : Option ℕ) (s : Session (Db C))
      (r : Outcome Exception (Option Continuation) × Db C)
      → IsNumbered db
      → Post (λ _ db'. db' ≡ db) (λ _ db'. db' ≡ db) r
      → Ended service (open_runs db) (
          and_then
            (r.0, record s { store = r.1 })
            (λ c. on_store (open_run service parent) >>= λ run_id.
              new_executor service >>= λ gate. run_to_end service gate run_id parent c))
  unfolding ◌>>=◌ on_store
  after_resume db parent s (returned c, db') h e =
      subst
        (λ d. Ended service (open_runs db) (
          (on_store (open_run service parent) >>= λ run_id.
          new_executor service >>= λ gate. run_to_end service gate run_id parent c)
            (record s { store = d })))
        (sym e)
        (from_open_run db parent c (record s { store = db }) (open_run service parent db)
          (open_run-here service db parent h))
  after_resume db parent s (raised x, db') h e =
      ((λ u. ground (arith, u)), tt, inl (ap open_runs e))
  after_resume db parent s (unfinished, db') h e = absurd e

  -- Whatever the provider, the clock, the hooks and the writers do, `synchronize` ends; a result that
  -- it returns reports counts within the limits; and as many runs are open as before, or one more
  -- where it raises one of three errors: that the outcome `response_too_large` is unsupported, that the
  -- adapter's interval is negative, and it is, or that the service's retry count is negative, and it is.
  -- The ids of the runs that the catalog has must be at most their number.
  pub synchronize-Ended :
      (parent : Option ℕ) (s : Session (Db C))
      → IsNumbered s.store
      → Ended service (open_runs s.store) (synchronize service parent s)
  unfolding synchronize on_store
  synchronize-Ended parent s h = after_resume s.store parent s _ h (resume_from-kept parent s.store)
