-- ===== src/Tombstone.antt =====
-- tombstone.py: posts and lookup runs that are wrong are marked, and none is deleted. Ids are natural
-- numbers, so that the test for a positive id refuses 0.
pub mod Laws
use Prim.Native.String.{count}
use data_processing.Prelude.{
  ℕ, String, Option, none, some, List, [], ◌∷◌, ◌++◌, Bool, true, false, ◌||◌, str_eq, ◌==◌, ltb,
  if◌then◌else◌, first_chars, ◌<>◌,
}
use data_processing.Effect.{Outcome, returned, raised, unfinished, Step, pure, raise, ◌>>=◌, ◌>>◌}
use data_processing.RemoteSync.Types.{Exception, value_error}
use data_processing.Persistence.Tables.{find, update}

-- The columns of `posts` and `candidate_lookup_runs` that are read or written.
pub record PostRow : Type 0 where
  pub post_id : ℕ
  pub status : Option String
  pub availability : String
  pub deleted_at : Option String
  pub title : Option String
  pub updated_at : String

pub record LookupRow : Type 0 where
  pub run_id : ℕ
  pub status : String
  pub termination_outcome : Option String
  pub diagnostic_summary : Option String
  pub finished_at : Option String

pub record Tables : Type 0 where
  pub posts : List PostRow
  pub lookup_runs : List LookupRow

-- The lists that the report of `tombstone_posts` has.
pub record Report : Type 0 where
  pub marked : List ℕ
  pub already : List ℕ
  pub missing : List ℕ

abbrev pub tombstone_status : String
tombstone_status = "error-tombstone"

unfoldable pub is_tombstone : Option String → Bool
is_tombstone none = false
is_tombstone (some status) = str_eq status tombstone_status

unfoldable pub is_post : ℕ → PostRow → Bool
is_post post_id row = row.post_id == post_id

unfoldable pub is_lookup : ℕ → LookupRow → Bool
is_lookup run_id row = row.run_id == run_id

-- `COALESCE(a, ?)`
unfoldable pub coalesce : Option String → String → String
coalesce none b = b
coalesce (some a) b = a

-- The reason is not blank, as `strip` tells, and has at most 2000 characters.
unfoldable pub is_reason : (String → String) → String → Bool
is_reason strip reason = if str_eq (strip reason) "" || ltb 2000 (count reason) then false else true

module _ (strip : String → String) (now reason : String) where
  unfoldable pub mark : PostRow → PostRow
  unfolding coalesce
  mark row = record row {
    availability = "unavailable";
    status = some tombstone_status;
    deleted_at = some (coalesce row.deleted_at now);
    title = some ("tombstone: " <> reason);
    updated_at = now;
  }

  mark_found : ℕ → Report → Option PostRow → Step Exception Tables Report
  unfolding is_tombstone mark update is_post
  mark_found post_id report none s =
      (returned (record report { missing = report.missing ++ post_id ∷ [] }), s)
  mark_found post_id report (some row) s =
      if is_tombstone row.status
      then (returned (record report { already = report.already ++ post_id ∷ [] }), s)
      else (
        returned (record report { marked = report.marked ++ post_id ∷ [] }),
        record s { posts = update (is_post post_id) mark s.posts },
      )

  -- One turn of the loop.
  unfoldable pub mark_one : ℕ → Report → Step Exception Tables Report
  unfolding mark_found find is_post
  mark_one post_id report s =
      if post_id == 0
      then (raised (value_error "post id must be positive"), s)
      else mark_found post_id report (find (is_post post_id) s.posts) s

  unfoldable pub mark_all : List ℕ → Report → Step Exception Tables Report
  unfolding mark_one ◌>>=◌
  mark_all [] report s = (returned report, s)
  mark_all (post_id ∷ post_ids) report s = (mark_one post_id report >>= mark_all post_ids) s

  -- A raise rolls the transaction back.
  roll_back_to : {A : Type 0} → Tables → Outcome Exception A × Tables → Outcome Exception A × Tables
  roll_back_to s (raised e, s') = (raised e, s)
  roll_back_to s r = r

  unfoldable pub tombstone_posts : List ℕ → Step Exception Tables Report
  unfolding mark_all roll_back_to is_reason
  tombstone_posts [] s =
      if is_reason strip reason
      then (raised (value_error "at least one post id is required"), s)
      else (raised (value_error "tombstone reason must be between 1 and 2000 characters"), s)
  tombstone_posts (post_id ∷ post_ids) s =
      if is_reason strip reason
      then roll_back_to s
          (mark_all (post_id ∷ post_ids) (record { marked = []; already = []; missing = [] }) s)
      else (raised (value_error "tombstone reason must be between 1 and 2000 characters"), s)

  unfoldable pub fail_run : LookupRow → LookupRow
  unfolding coalesce
  fail_run row = record row {
    status = "failed";
    termination_outcome = some (coalesce row.termination_outcome "malformed_response");
    diagnostic_summary = some (first_chars 1000 reason);
    finished_at = some (coalesce row.finished_at now);
  }

  fail_found : ℕ → Option LookupRow → Step Exception Tables (Unit {0})
  unfolding update is_lookup fail_run
  fail_found run_id none s = (raised (value_error "lookup run not found"), s)
  fail_found run_id (some row) s =
      (returned tt, record s { lookup_runs = update (is_lookup run_id) fail_run s.lookup_runs })

  unfoldable pub tombstone_lookup_run : ℕ → Step Exception Tables (Unit {0})
  unfolding fail_found find is_lookup is_reason
  tombstone_lookup_run run_id s =
      if is_reason strip reason
      then if run_id == 0
        then (raised (value_error "lookup run id must be positive"), s)
        else fail_found run_id (find (is_lookup run_id) s.lookup_runs) s
      else (raised (value_error "tombstone reason must be between 1 and 2000 characters"), s)
