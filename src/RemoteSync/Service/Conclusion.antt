-- ===== src/RemoteSync/Service/Conclusion.antt =====
-- What `synchronize` does after the executor has run: the `try` statement closes the run.
use data_processing.Prelude.{
  ℕ, ◌+◌, ◌≤◌, ◌≡◌, ◌≢◌, ◌⊎◌, inl, inr, true, false, refl, Option, Bool, if◌then◌else◌, arith,
}
use data_processing.Effect.{Outcome, returned, raised, unfinished, and_then, pure, raise, ◌>>=◌}
use data_processing.Effect.Triple.{Post}
use data_processing.RemoteSync.Types.{Exception, other, Continuation}
use data_processing.RemoteSync.Session.{BudgetTracker, Session}
use data_processing.RemoteSync.Budget.Admission.{IsWithin}
use data_processing.RemoteSync.Service.{SyncResult, on_store, write_transaction, end_of, reraises}
use data_processing.RemoteSync.Service.Sync.{Service, finish, conclude}
use data_processing.RemoteSync.Service.Opening.{Unbuilt}
use data_processing.RemoteSync.Service.Ends.{open_runs, refused, Opened, finish-Closed}
use data_processing.Persistence.Tables.{Db, Finish}
use data_processing.Persistence.Runs.{finish_remote_run}

module _ {C : Type 0} (service : Service C) where
  -- The counts of a result are within the limits.
  abbrev pub Reported : Outcome Exception SyncResult → Type 0
  Reported (returned r) =
      (r.end.request_count ≤ service.limits.requests)
      × (r.end.page_count ≤ service.limits.pages)
      × (r.end.record_count ≤ service.limits.records)
  Reported _ = Unit

  -- The errors with which the run that was opened stays open: its end was refused, or the constructors
  -- of the executor and of its gate refused negative numbers.
  abbrev pub StaysOpen : Outcome Exception SyncResult → Type 0
  StaysOpen (raised e) = (e ≡ refused) ⊎ Unbuilt service e
  StaysOpen _ = ⊥

  -- `n` runs are open; or one more, with one of these errors.
  abbrev pub Ended : ℕ → Outcome Exception SyncResult × Session (Db C) → Type 0
  Ended n (o, s) =
      (o ≢ unfinished)
      × Reported o
      × ((open_runs s.store ≡ n) ⊎ ((open_runs s.store ≡ n + 1) × StaysOpen o))

  closing-Closed :
      (n run_id : ℕ) (f : Finish) (db : Db C)
      → Opened n run_id db
      → Post
          (λ _ db'. open_runs db' ≡ n)
          (λ e db'. (e ≡ refused) × (open_runs db' ≡ n + 1))
          (write_transaction (finish_remote_run run_id f) db)
  unfolding write_transaction
  closing-Closed n run_id f db h = ground (arith, finish-Closed n run_id f db h, h.total)

  finish-reports :
      (n run_id : ℕ) (parent : Option ℕ) (f : Finish) (s : Session (Db C))
      → Opened n run_id s.store
      → Post
          (λ r s'. (open_runs s'.store ≡ n) × (r.end ≡ f))
          (λ e s'. (e ≡ refused) × (open_runs s'.store ≡ n + 1))
          (finish service run_id parent f s)
  unfolding finish on_store
  finish-reports n run_id parent f s h = ground (arith, closing-Closed n run_id f s.store h)

  end_of-counts :
      (o : Outcome Exception (Option Continuation)) (b : BudgetTracker)
      → ((end_of o b).request_count ≡ b.requests)
        × ((end_of o b).page_count ≡ b.pages)
        × ((end_of o b).record_count ≡ b.records)
  unfolding end_of
  end_of-counts o b = ground arith

  reported-Ended :
      (n : ℕ) (f : Finish) (again : Bool) (r : Outcome Exception SyncResult × Session (Db C))
      → (f.request_count ≤ service.limits.requests)
        × (f.page_count ≤ service.limits.pages)
        × (f.record_count ≤ service.limits.records)
      → Post
          (λ r s'. (open_runs s'.store ≡ n) × (r.end ≡ f))
          (λ e s'. (e ≡ refused) × (open_runs s'.store ≡ n + 1))
          r
      → Ended n (and_then r (λ result. if again then raise (other "RuntimeError") else pure result))
  reported-Ended n f true (returned a, s) c h = ((λ u. ground (arith, u)), tt, inl h.0)
  reported-Ended n f false (returned a, s) c h = ((λ u. ground (arith, u)), ground arith, inl h.0)
  reported-Ended n f again (raised x, s) c h = ((λ u. ground (arith, u)), tt, inr (h.1, inl h.0))
  reported-Ended n f again (unfinished, s) c h = absurd h

  concluded :
      (n run_id : ℕ) (parent : Option ℕ) (o : Outcome Exception (Option Continuation))
      (s : Session (Db C))
      → IsWithin s.budget
      → s.limits ≡ service.limits
      → Opened n run_id s.store
      → Ended n (
          and_then
            (finish service run_id parent (end_of o s.budget) s)
            (λ result. if reraises o then raise (other "RuntimeError") else pure result))
  concluded n run_id parent o s w l h =
      reported-Ended n (end_of o s.budget) (reraises o) _
        (ground (arith, w, l, end_of-counts o s.budget))
        (finish-reports n run_id parent (end_of o s.budget) s h)

  pub conclude-Ended :
      (n run_id : ℕ) (parent : Option ℕ) (o : Outcome Exception (Option Continuation))
      (s : Session (Db C))
      → o ≢ unfinished
      → IsWithin s.budget
      → s.limits ≡ service.limits
      → Opened n run_id s.store
      → Ended n (conclude service run_id parent o s)
  unfolding conclude ◌>>=◌
  conclude-Ended n run_id parent unfinished s e w l h = absurd (e refl)
  conclude-Ended n run_id parent (returned a) s e w l h =
      concluded n run_id parent (returned a) s w l h
  conclude-Ended n run_id parent (raised x) s e w l h = concluded n run_id parent (raised x) s w l h
