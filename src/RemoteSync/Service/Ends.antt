-- ===== src/RemoteSync/Service/Ends.antt =====
-- The runs of the catalog that are open: a run is opened, and finishing it closes it.
use data_processing.Prelude.{
  ℕ, suc, ◌+◌, ◌≤◌, ◌≡◌, refl, Option, none, some, List, [], ◌∷◌, ◌++◌, Bool, length, All, arith,
}
use data_processing.Effect.Triple.{Post}
use data_processing.RemoteSync.Types.{Exception, value_error}
use data_processing.Persistence.Tables.{Db, RunRow, RemoteRunRecord, Finish, row_count, update}
use data_processing.Persistence.Runs.{
  is_running, is_running_run, cut_finish, new_run, begin_on, finish_remote_run,
}

-- A run that is not finished.
unfoldable pub is_open : RunRow → Bool
unfolding is_running
is_open row = is_running row.finish

unfoldable pub open_runs : {C : Type 0} → Db C → ℕ
unfolding is_open row_count
open_runs db = row_count is_open db.runs

-- Finishing the one open run of an id leaves one open run less.
finish-open_runs :
    (run_id : ℕ) (f : Finish) (rows : List RunRow)
    → row_count is_open rows
      ≡ row_count is_open
          (update (is_running_run run_id) (λ row. record row { finish = some f }) rows)
        + row_count (is_running_run run_id) rows
unfolding row_count update is_running_run is_open
finish-open_runs run_id f [] = refl
finish-open_runs run_id f (row ∷ rows) = ground (arith, finish-open_runs run_id f rows)

-- The ids of the runs are those of the rows there are.
abbrev pub IsNumbered : {C : Type 0} → Db C → Type 0
IsNumbered db = All (λ row. row.run_id ≤ length db.runs) db.runs

append_running :
    (n : ℕ) (row : RunRow) (rows : List RunRow)
    → All (λ r. r.run_id ≤ n) rows
    → row.run_id ≡ suc n
    → row.finish ≡ none
    → row_count (is_running_run (suc n)) (rows ++ row ∷ []) ≡ 1
unfolding row_count is_running_run
append_running n row [] h e f = ground arith
append_running n row (r ∷ rows) h e f = ground (arith, append_running n row rows h.1)

append_open :
    (row : RunRow) (rows : List RunRow)
    → row.finish ≡ none
    → row_count is_open (rows ++ row ∷ []) ≡ row_count is_open rows + 1
unfolding row_count is_open
append_open row [] f = ground arith
append_open row (r ∷ rows) f = ground (arith, append_open row rows f)

-- The error of an end that is refused.
abbrev pub refused : Exception
refused = value_error "unsupported remote outcome: response_too_large"

module _ {C : Type 0} where
  -- The run of this id is open, and there are `n` others.
  pub record Opened (n run_id : ℕ) (db : Db C) : Type 0 where
    pub one : row_count (is_running_run run_id) db.runs ≡ 1
    pub total : open_runs db ≡ n + 1

  -- The run is closed, unless the outcome is refused.
  pub finish-Closed :
      (n run_id : ℕ) (f : Finish) (db : Db C)
      → Opened n run_id db
      → Post (λ _ db'. open_runs db' ≡ n) (λ e _. e ≡ refused) (finish_remote_run run_id f db)
  unfolding finish_remote_run open_runs
  finish-Closed n run_id f db h = ground (arith, finish-open_runs run_id (cut_finish f) db.runs)

  pub begin-Opened :
      (db : Db C) (r : RemoteRunRecord) (p : Option ℕ)
      → IsNumbered db
      → Post (λ run_id. Opened (open_runs db) run_id) (λ _ db'. Unit) (begin_on r p db)
  unfolding begin_on open_runs new_run
  begin-Opened db r none h = tt
  begin-Opened db r (some platform) h = record {
    one = append_running (length db.runs) (new_run r platform db) db.runs h refl refl;
    total = append_open (new_run r platform db) db.runs refl;
  }
