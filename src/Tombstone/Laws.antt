-- ===== src/Tombstone/Laws.antt =====
-- Marking deletes no post, and marking again changes nothing.
use data_processing.Prelude.{
  ℕ, String, none, some, List, [], ◌∷◌, Bool, true, false, ◌≡◌, ◌≢◌, refl, sym, ap, ◌∙◌, subst, All,
  ◌==◌, arith, Option, first_chars,
}
use data_processing.Effect.{Outcome, returned, raised, unfinished, and_then, ◌>>=◌}
use data_processing.Effect.Triple.{Post, Post-weaken}
use data_processing.RemoteSync.Types.{Exception}
use data_processing.Persistence.Tables.{find, update}
use data_processing.Persistence.Rows.{find-update}
use data_processing.Tombstone.{
  is_reason, PostRow, LookupRow, Tables, Report, is_tombstone, is_post, is_lookup, mark, mark_one,
  mark_all, tombstone_posts, coalesce, fail_run, tombstone_lookup_run,
}

abbrev pub ids : List PostRow → List ℕ
ids [] = []
ids (row ∷ rows) = row.post_id ∷ ids rows

-- The post is missing or marked.
unfoldable pub settled : ℕ → List PostRow → Bool
settled id rows = elim (find (is_post id) rows) [ none ↦ true | some row ↦ is_tombstone row.status ]

module _ (strip : String → String) (now reason : String) where
  ids-update :
      (id : ℕ) (rows : List PostRow)
      → ids (update (is_post id) (mark strip now reason) rows) ≡ ids rows
  unfolding update mark
  ids-update id [] = refl
  ids-update id (row ∷ rows) = ground (arith, ids-update id rows)

  settled_self :
      (id : ℕ) (rows : List PostRow)
      → settled id (update (is_post id) (mark strip now reason) rows) ≡ true
  unfolding settled find update mark is_post is_tombstone
  settled_self id [] = refl
  settled_self id (row ∷ rows) = ground (arith, settled_self id rows)

  settled-other :
      (id other_id : ℕ) (rows : List PostRow)
      → settled id rows ≡ true
      → settled id (update (is_post other_id) (mark strip now reason) rows) ≡ true
  unfolding settled find update mark is_post is_tombstone
  settled-other id other_id [] h = refl
  settled-other id other_id (row ∷ rows) h = ground (arith, settled-other id other_id rows)

  -- An id that a turn of the loop accepts, and its post is settled.
  abbrev IsSettled : List PostRow → ℕ → Type 0
  IsSettled rows id = ((id == 0) ≡ false) × (settled id rows ≡ true)

  -- What one turn does: it deletes no post, settles its own id, and keeps the others settled.
  abbrev Turned : ℕ → Tables → Outcome Exception Report × Tables → Type 0
  Turned id s (o, s') =
      (ids s'.posts ≡ ids s.posts)
      × ((r : Report) → o ≡ returned r → IsSettled s'.posts id)
      × ((q : ℕ) → IsSettled s.posts q → IsSettled s'.posts q)

  mark_one-Turned :
      (id : ℕ) (report : Report) (s : Tables) → Turned id s (mark_one strip now reason id report s)
  unfolding mark_one settled
  mark_one-Turned id report s = (
    ground (arith, ids-update id s.posts),
    (λ r h. ground (arith, h, settled_self id s.posts)),
    (λ q h. ground (arith, h.0, h.1, settled-other q id s.posts)),
  )

  All-keep :
      (rows rows' : List PostRow) (list : List ℕ)
      → ((q : ℕ) → IsSettled rows q → IsSettled rows' q)
      → All (IsSettled rows) list
      → All (IsSettled rows') list
  All-keep rows rows' [] k h = tt
  All-keep rows rows' (q ∷ list) k h = (k q h.0, All-keep rows rows' list k h.1)

  abbrev AllTurned : List ℕ → Tables → Outcome Exception Report × Tables → Type 0
  AllTurned list s (o, s') =
      (ids s'.posts ≡ ids s.posts)
      × ((r : Report) → o ≡ returned r → All (IsSettled s'.posts) list)
      × ((q : ℕ) → IsSettled s.posts q → IsSettled s'.posts q)

  -- The turns of the loop, if those after the first do what they are to do.
  then-AllTurned :
      (id : ℕ) (list : List ℕ) (s : Tables) (first : Outcome Exception Report × Tables)
      → Turned id s first
      → ((report : Report) (s' : Tables)
          → AllTurned list s' (mark_all strip now reason list report s'))
      → AllTurned (id ∷ list) s (and_then first (mark_all strip now reason list))
  then-AllTurned id list s (returned report, s') t later =
      let l = later report s' in
      (l.0 ∙ t.0, (λ r h. (l.2 id (t.1 report refl), l.1 r h)), (λ q h. l.2 q (t.2 q h)))
  then-AllTurned id list s (raised e, s') t later = (t.0, (λ r h. absurd (ground (arith, h))), t.2)
  then-AllTurned id list s (unfinished, s') t later =
      (t.0, (λ r h. absurd (ground (arith, h))), t.2)

  mark_all-AllTurned :
      (list : List ℕ) (report : Report) (s : Tables)
      → AllTurned list s (mark_all strip now reason list report s)
  unfolding mark_all ◌>>=◌
  mark_all-AllTurned [] report s = (refl, (λ r h. tt), (λ q h. h))
  mark_all-AllTurned (id ∷ list) report s =
      then-AllTurned id list s _ (mark_one-Turned id report s)
        (λ report' s'. mark_all-AllTurned list report' s')

  -- A settled id changes nothing.
  mark_one-quiet :
      (id : ℕ) (report : Report) (s : Tables)
      → IsSettled s.posts id
      → Post
          (λ r s'. (r.marked ≡ report.marked) × (s' ≡ s))
          (λ _ _. ⊥)
          (mark_one strip now reason id report s)
  unfolding mark_one settled
  mark_one-quiet id report s h = ground (arith, h.0, h.1)

  then-quiet :
      (list : List ℕ) (report : Report) (s : Tables) (first : Outcome Exception Report × Tables)
      → All (IsSettled s.posts) list
      → Post (λ r s'. (r.marked ≡ report.marked) × (s' ≡ s)) (λ _ _. ⊥) first
      → ((r : Report) (s' : Tables)
          → All (IsSettled s'.posts) list
          → Post
              (λ r' s''. (r'.marked ≡ r.marked) × (s'' ≡ s'))
              (λ _ _. ⊥)
              (mark_all strip now reason list r s'))
      → Post
          (λ r s'. (r.marked ≡ report.marked) × (s' ≡ s))
          (λ _ _. ⊥)
          (and_then first (mark_all strip now reason list))
  then-quiet list report s (returned r, s') h q later =
      Post-weaken {Q = λ r' s''. (r'.marked ≡ r.marked) × (s'' ≡ s')}
        {Q' = λ r' s''. (r'.marked ≡ report.marked) × (s'' ≡ s)} {E = λ _ _. ⊥} {E' = λ _ _. ⊥}
        (mark_all strip now reason list r s') (λ r' s'' p. (p.0 ∙ q.0, p.1 ∙ q.1)) (λ e s'' p. p)
        (later r s' (subst (λ t. All (IsSettled t.posts) list) (sym q.1) h))
  then-quiet list report s (raised e, s') h q later = absurd q
  then-quiet list report s (unfinished, s') h q later = absurd q

  mark_all-quiet :
      (list : List ℕ) (report : Report) (s : Tables)
      → All (IsSettled s.posts) list
      → Post
          (λ r s'. (r.marked ≡ report.marked) × (s' ≡ s))
          (λ _ _. ⊥)
          (mark_all strip now reason list report s)
  unfolding mark_all ◌>>=◌
  mark_all-quiet [] report s h = (refl, refl)
  mark_all-quiet (id ∷ list) report s h =
      then-quiet list report s _ h.1 (mark_one-quiet id report s h.0)
        (λ r s' k. mark_all-quiet list r s' k)

  abbrev nothing : Report
  nothing = record { marked = []; already = []; missing = [] }

  -- `tombstone_posts` deletes no post and adds none, whether it returns or raises.
  pub tombstone_posts-keeps_ids :
      (list : List ℕ) (s : Tables)
      → ids (tombstone_posts strip now reason list s).1.posts ≡ ids s.posts
  unfolding tombstone_posts
  tombstone_posts-keeps_ids [] s = ground arith
  tombstone_posts-keeps_ids (id ∷ list) s =
      ground (arith, (mark_all-AllTurned (id ∷ list) nothing s).0)

  -- A call that returns has passed the test of the reason, and its loop returned the same.
  returned_from :
      (list : List ℕ) (r : Report) (s s' : Tables)
      → tombstone_posts strip now reason list s ≡ (returned r, s')
      → (is_reason strip reason ≡ true)
        × (mark_all strip now reason list nothing s ≡ (returned r, s'))
        × (list ≢ [])
  unfolding tombstone_posts
  returned_from [] r s s' h = absurd (ground (arith, h))
  returned_from (id ∷ list) r s s' h = ground (arith, h)

  quiet_call :
      (list : List ℕ) (s : Tables)
      → is_reason strip reason ≡ true
      → list ≢ []
      → All (IsSettled s.posts) list
      → Post
          (λ r s'. (r.marked ≡ []) × (s' ≡ s))
          (λ _ _. ⊥)
          (tombstone_posts strip now reason list s)
  unfolding tombstone_posts
  quiet_call [] s h n a = absurd (n refl)
  quiet_call (id ∷ list) s h n a = ground (arith, h, mark_all-quiet (id ∷ list) nothing s a)

  find-fail_run :
      (run_id : ℕ) (row : LookupRow) (rows : List LookupRow)
      → find (is_lookup run_id) rows ≡ some row
      → find (is_lookup run_id) (update (is_lookup run_id) (fail_run strip now reason) rows)
        ≡ some (fail_run strip now reason row)
  unfolding is_lookup fail_run
  find-fail_run run_id row rows h =
      find-update (is_lookup run_id) (fail_run strip now reason) rows row (λ r k. k) h

  -- The row of a failed run: its earlier outcome and end are kept, and missing ones are filled in.
  abbrev pub failed_row : LookupRow → LookupRow
  failed_row row = record {
    run_id = row.run_id;
    status = "failed";
    termination_outcome =
        some
          (elim row.termination_outcome [ none ↦ "malformed_response" | some outcome ↦ outcome ]);
    diagnostic_summary = some (first_chars 1000 reason);
    finished_at = some (elim row.finished_at [ none ↦ now | some earlier ↦ earlier ]);
  }

  coalesce_lem : (a : Option String) (b : String) → coalesce a b ≡ elim a [ none ↦ b | some x ↦ x ]
  unfolding coalesce
  coalesce_lem none b = refl
  coalesce_lem (some x) b = refl

  fail_run-failed_row : (row : LookupRow) → fail_run strip now reason row ≡ failed_row row
  unfolding fail_run
  fail_run-failed_row row = λ i. record {
    run_id = row.run_id;
    status = "failed";
    termination_outcome = some (coalesce_lem row.termination_outcome "malformed_response" i);
    diagnostic_summary = some (first_chars 1000 reason);
    finished_at = some (coalesce_lem row.finished_at now i);
  }

  -- After `tombstone_lookup_run` returns, the run that is found under the id has its id, the status
  -- `failed`, and the first 1000 characters of the reason as its summary; its outcome and its end are
  -- those from before, or, where there was none, `malformed_response` and the time of the call.
  pub tombstone_lookup_run-fails :
      (run_id : ℕ) (row : LookupRow) (s s' : Tables)
      → find (is_lookup run_id) s.lookup_runs ≡ some row
      → tombstone_lookup_run strip now reason run_id s ≡ (returned tt, s')
      → find (is_lookup run_id) s'.lookup_runs ≡ some (failed_row row)
  unfolding tombstone_lookup_run
  tombstone_lookup_run-fails run_id row s s' f h =
      ground (arith, h, f, find-fail_run run_id row s.lookup_runs f, fail_run-failed_row row)

-- Where `tombstone_posts` returns, a second call with the same ids returns too, whatever the time and
-- the reason of it are, if that reason is one that is accepted; it marks none, and leaves the tables as
-- they are.
pub tombstone_posts-again :
    (strip : String → String) (now reason now' reason' : String) (list : List ℕ) (r : Report)
    (s s' : Tables)
    → tombstone_posts strip now reason list s ≡ (returned r, s')
    → is_reason strip reason' ≡ true
    → Post
        (λ r' s''. (r'.marked ≡ []) × (s'' ≡ s'))
        (λ _ _. ⊥)
        (tombstone_posts strip now' reason' list s')
tombstone_posts-again strip now reason now' reason' list r s s' h k =
    let f = returned_from strip now reason list r s s' h in
    quiet_call strip now' reason' list s' k f.2 (
      subst (λ t. All (IsSettled strip now' reason' t.posts) list) (ap (λ p. p.1) f.1)
        ((mark_all-AllTurned strip now reason list (nothing strip now reason) s).1 r
          (ap (λ p. p.0) f.1)))
