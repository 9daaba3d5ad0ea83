-- ===== src/Tests/Marks.antt =====
-- Tombstones at concrete inputs.
use data_processing.Prelude.{ℕ, String, none, some, [], ◌∷◌, true, ◌≡◌, refl, first_chars}
use data_processing.Effect.{returned}
use data_processing.Effect.Triple.{Post}
use data_processing.Persistence.Tables.{find}
use data_processing.Tombstone.{
  is_reason, PostRow, LookupRow, Tables, Report, mark, is_lookup, fail_run, tombstone_posts,
  tombstone_lookup_run,
}
use data_processing.Tombstone.Laws.{
  ids, tombstone_posts-keeps_ids, tombstone_posts-again, tombstone_lookup_run-fails,
}

abbrev no_strip : String → String
no_strip s = s

abbrev post_of : ℕ → PostRow
post_of id = record {
  post_id = id;
  status = none;
  availability = "available";
  deleted_at = none;
  title = none;
  updated_at = "2026-01-01T00:00:00Z";
}

abbrev lookup_of : ℕ → LookupRow
lookup_of id = record {
  run_id = id;
  status = "complete";
  termination_outcome = some "success";
  diagnostic_summary = none;
  finished_at = none;
}

abbrev two_posts : Tables
two_posts = record { posts = post_of 1 ∷ post_of 2 ∷ []; lookup_runs = lookup_of 7 ∷ [] }

abbrev marked_posts : Tables
marked_posts = record two_posts {
  posts = post_of 1 ∷ mark no_strip "2026-02-02T00:00:00Z" "bad import" (post_of 2) ∷ [];
}

abbrev example_report : Report
example_report = record { marked = 2 ∷ []; already = 2 ∷ []; missing = 9 ∷ [] }

tombstone_posts-keeps_ids_example :
    ids
      (tombstone_posts no_strip "2026-02-02T00:00:00Z" "bad import" (2 ∷ 9 ∷ []) two_posts).1.posts
    ≡ 1 ∷ 2 ∷ []
tombstone_posts-keeps_ids_example =
    tombstone_posts-keeps_ids no_strip "2026-02-02T00:00:00Z" "bad import" (2 ∷ 9 ∷ []) two_posts

marked_test :
    tombstone_posts no_strip "2026-02-02T00:00:00Z" "bad import" (2 ∷ 9 ∷ 2 ∷ []) two_posts
    ≡ (returned example_report, marked_posts)
unfolding tombstone_posts
marked_test = refl

reason_test : is_reason no_strip "once more" ≡ true
unfolding is_reason
reason_test = refl

tombstone_posts-again_example :
    Post
      (λ r s. (r.marked ≡ []) × (s ≡ marked_posts))
      (λ _ _. ⊥)
      (tombstone_posts no_strip "2026-03-03T00:00:00Z" "once more" (2 ∷ 9 ∷ 2 ∷ []) marked_posts)
tombstone_posts-again_example =
    tombstone_posts-again no_strip "2026-02-02T00:00:00Z" "bad import" "2026-03-03T00:00:00Z"
      "once more" (2 ∷ 9 ∷ 2 ∷ []) example_report two_posts marked_posts marked_test reason_test

abbrev failed_lookup : Tables
failed_lookup = record two_posts {
  lookup_runs = fail_run no_strip "2026-02-02T00:00:00Z" "bad query" (lookup_of 7) ∷ [];
}

failed_test :
    tombstone_lookup_run no_strip "2026-02-02T00:00:00Z" "bad query" 7 two_posts
    ≡ (returned tt, failed_lookup)
unfolding tombstone_lookup_run
failed_test = refl

found_test : find (is_lookup 7) two_posts.lookup_runs ≡ some (lookup_of 7)
unfolding find is_lookup
found_test = refl

tombstone_lookup_run-fails_example :
    find (is_lookup 7) failed_lookup.lookup_runs
    ≡ some (record {
      run_id = 7;
      status = "failed";
      termination_outcome = some "success";
      diagnostic_summary = some "bad query";
      finished_at = some "2026-02-02T00:00:00Z";
    })
unfolding first_chars
tombstone_lookup_run-fails_example =
    tombstone_lookup_run-fails no_strip "2026-02-02T00:00:00Z" "bad query" 7 (lookup_of 7) two_posts
      failed_lookup found_test failed_test
