-- ===== src/Identity/Deciding.antt =====
-- The decision on a candidate: what it writes, and that it writes nothing where it raises.
use data_processing.Prelude.{
  ℕ, suc, Option, none, some, [], ◌∷◌, ◌++◌, true, ◌≡◌, refl, arith, length,
}
use data_processing.Effect.{Outcome, ◌>>=◌}
use data_processing.Effect.Triple.{Post}
use data_processing.RemoteSync.Types.{Exception}
use data_processing.Persistence.Tables.{find, update}
use data_processing.Identity.{Candidate, Reviewed, is_candidate}
use data_processing.Identity.Review.{
  Request, at_revision, decide, decide_found, decision_row, is_expected, reviewed_row,
  write_decision,
}
use data_processing.Identity.Rows.{
  At, Keyed, SameElsewhere, find-At, update-At, update-SameElsewhere,
}

module _ {E : Type 0} where
  -- The tables after a decision on the row.
  abbrev pub written : Request → Candidate E → Reviewed E → Reviewed E
  written request row t = record {
    candidates =
        update (at_revision row.candidate_id row.review_revision) (reviewed_row request.state)
          t.candidates;
    decisions = t.decisions ++ decision_row request row ∷ [];
  }

  -- A decision that is recorded is on the row that has the id, which is as the caller expects it.
  abbrev pub Decides :
      Request → ℕ → Reviewed E → Outcome Exception (Candidate E × ℕ) × Reviewed E → Type 0
  Decides request id t r =
      Post
        (λ d t'.
          (find (is_candidate id) t.candidates ≡ some d.0)
          × (is_expected request.expected_generation d.0.evidence_generation ≡ true)
          × (is_expected request.expected_revision d.0.review_revision ≡ true)
          × (d.1 ≡ suc (length t.decisions))
          × (t' ≡ written request d.0 t))
        (λ _ t'. t' ≡ t) r

  found-Decides :
      (request : Request) (id : ℕ) (t : Reviewed E) (o : Option (Candidate E))
      → find (is_candidate id) t.candidates ≡ o
      → Decides request id t (decide_found request o t)
  unfolding decide_found write_decision ◌>>=◌
  found-Decides request id t none h = refl
  found-Decides request id t (some row) h = ground (arith, h)

  pub decide-Decides :
      (request : Request) (id : ℕ) (t : Reviewed E) → Decides request id t (decide request id t)
  unfolding decide
  decide-Decides request id t =
      found-Decides request id t (find (is_candidate id) t.candidates) refl

  -- The row is updated, and the others are as they were.
  module _ (request : Request) (id : ℕ) (t : Reviewed E) (row : Candidate E)
      (k : Keyed t.candidates) (f : find (is_candidate id) t.candidates ≡ some row) where
    pub found_At : At id t.candidates row
    found_At = find-At id t.candidates row k f

    at_own : at_revision row.candidate_id row.review_revision row ≡ true
    unfolding at_revision is_candidate
    at_own = ground arith

    at_only :
        (r : Candidate E)
        → at_revision row.candidate_id row.review_revision r ≡ true
        → r.candidate_id ≡ id
    unfolding at_revision is_candidate
    at_only r h = ground (arith, h, found_At.has_id)

    pub written-At : At id (written request row t).candidates (reviewed_row request.state row)
    written-At =
        update-At id (at_revision row.candidate_id row.review_revision) (reviewed_row request.state)
          t.candidates row found_At at_only at_own (unfold reviewed_row in found_At.has_id)

    pub written-SameElsewhere : SameElsewhere id t.candidates (written request row t).candidates
    written-SameElsewhere =
        update-SameElsewhere id (at_revision row.candidate_id row.review_revision)
          (reviewed_row request.state) t.candidates row found_At at_only at_own
          (unfold reviewed_row in found_At.has_id)
