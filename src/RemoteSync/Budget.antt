-- ===== src/RemoteSync/Budget.antt =====
-- remote_sync/budget.py: the limits of a run and the tracker that admits requests and pages.
pub mod Admission
use data_processing.Prelude.{
  ℕ, ◌+◌, ◌-◌, ◌||◌, ◌&&◌, Bool, true, false, leb, ltb, ◌==◌, if◌then◌else◌,
}
use data_processing.Effect.{Outcome, returned, raised, Step, pure, raise, ◌>>=◌, ◌>>◌}
use data_processing.RemoteSync.Types.{
  Exception, exhausted, value_error, time_boundary, request_boundary, page_boundary,
  record_boundary,
}
use data_processing.RemoteSync.Session.{SyncLimits, BudgetTracker, Session, Run, monotonic}

-- `SyncLimits.__post_init__`
unfoldable pub make_limits : ℕ → ℕ → ℕ → ℕ → Outcome Exception SyncLimits
make_limits requests pages records elapsed_seconds =
    if requests == 0 || pages == 0 || records == 0
    then raised (value_error "request, page, and record budgets must be positive")
    else if elapsed_seconds == 0
    then raised (value_error "elapsed-time budget must be positive")
    else returned (record {
      requests = requests;
      pages = pages;
      records = records;
      elapsed_seconds = elapsed_seconds;
    })

-- `BudgetTracker.__init__`, at the reading `started_at` of the clock
unfoldable pub new_tracker : SyncLimits → ℕ → BudgetTracker
new_tracker limits started_at = record {
  limits = limits;
  started_at = started_at;
  requests = 0;
  pages = 0;
  records = 0;
}

module _ {S : Type 0} where
  -- `max(0.0, a - b)` is subtraction that stops at 0.
  unfoldable pub elapsed_seconds : Run S ℕ
  unfolding monotonic ◌>>=◌
  elapsed_seconds s = (do t ← monotonic; pure (t - s.started_at)) s

  unfoldable pub remaining_seconds : Run S ℕ
  unfolding elapsed_seconds ◌>>=◌
  remaining_seconds s = (do e ← elapsed_seconds; pure (s.limits.elapsed_seconds - e)) s

  -- The clock is read only if requests are left.
  unfoldable pub can_request : Run S Bool
  unfolding remaining_seconds ◌>>=◌
  can_request s =
      if ltb s.requests s.limits.requests
      then (do left ← remaining_seconds; pure (ltb 0 left)) s
      else (returned false, s)

  charge_request : Run S (Unit {0})
  charge_request s =
      if leb s.limits.requests s.requests
      then (raised (exhausted request_boundary), s)
      else (returned tt, record s { budget = record s.budget { requests = s.requests + 1 } })

  unfoldable pub reserve_request : Run S (Unit {0})
  unfolding remaining_seconds charge_request ◌>>=◌
  reserve_request = do
    left ← remaining_seconds
    if left == 0 then raise (exhausted time_boundary) else charge_request

  admit_counts : ℕ → Run S (Unit {0})
  admit_counts record_count s =
      if leb s.limits.pages s.pages
      then (raised (exhausted page_boundary), s)
      else if ltb s.limits.records (s.records + record_count)
      then (raised (exhausted record_boundary), s)
      else (returned tt, s)

  -- A record count is a sum of zeros and ones, so the guard against a negative one never fires.
  unfoldable pub admit_page : ℕ → Run S (Unit {0})
  unfolding remaining_seconds admit_counts ◌>>=◌
  admit_page record_count = do
    left ← remaining_seconds
    if left == 0 then raise (exhausted time_boundary) else admit_counts record_count

  count_page : ℕ → Run S (Unit {0})
  count_page record_count s = (
    returned tt,
    record s {
      budget = record s.budget { pages = s.pages + 1; records = s.records + record_count };
    },
  )

  unfoldable pub commit_page : ℕ → Run S (Unit {0})
  unfolding admit_page count_page ◌>>=◌
  commit_page record_count = do admit_page record_count; count_page record_count
