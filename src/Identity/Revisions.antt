-- ===== src/Identity/Revisions.antt =====
-- A review of an account candidate is recorded, and each revision is reviewed once.
use data_processing.Prelude.{
  ℕ, suc, String, Option, some, [], ◌∷◌, ◌++◌, true, ◌≡◌, refl, sym, ap, ◌∙◌, arith, length,
  length-append,
}
use data_processing.Effect.{Outcome, returned, raised, unfinished}
use data_processing.Effect.Triple.{Post}
use data_processing.RemoteSync.Types.{Exception}
use data_processing.Persistence.Tables.{find}
use data_processing.Relationships.{ReviewState}
use data_processing.Identity.{AccountEnds, Candidate, Tables, is_candidate, of_account}
use data_processing.Identity.Digits.{parse_match_ref}
use data_processing.Identity.Following.{Consistent}
use data_processing.Identity.Review.{Report, decision_row, is_expected, parse_state, review}
use data_processing.Identity.Reviewing.{AccountReviewed, Safe, review-Safe}
use data_processing.Identity.Calls.{
  known_state, next_revision, request_of, review-Reviewed, row_found,
}

only_raises :
    (s : Tables) (o : Outcome Exception Report × Tables)
    → Safe s o
    → ((x : Report) (u : Tables) → o ≡ (returned x, u) → ⊥)
    → Post (λ _ _. ⊥) (λ _ t. t ≡ s) o
only_raises s (returned x, u) h no_ = no_ x u refl
only_raises s (raised e, t) h no_ = h
only_raises s (unfinished, t) h no_ = h

expectations :
    (v m n : ℕ) → is_expected (some v) m ≡ true → is_expected (some v) n ≡ true → n ≡ suc m → ⊥
unfolding is_expected
expectations v m n h k e = ground (arith, h, k, e)

module _ (match_ref decision decision' : String) (note_text note_text' : Option String)
    (generation generation' : Option ℕ) (id v : ℕ) (s s' : Tables) (r : Report) (c : Consistent s)
    (p : parse_match_ref match_ref ≡ some (of_account, id))
    (e : review match_ref decision note_text generation (some v) s ≡ (returned r, s')) where
  first :
      (state : ReviewState) × AccountReviewed
        (request_of state note_text generation (some v))
        id
        s
        r
        s'
  first =
      let (state, d) = known_state match_ref decision note_text generation (some v) s s' r e in
      (
        state,
        review-Reviewed match_ref decision note_text generation (some v) id state s s' r c p d e,
      )

  no_return :
      (x : Report) (u : Tables)
      → review match_ref decision' note_text' generation' (some v) s' ≡ (returned x, u)
      → ⊥
  no_return x u q =
      let (state, d) = known_state match_ref decision' note_text' generation' (some v) s' u x q in
      let a = first.1 in
      let b =
        review-Reviewed match_ref decision' note_text' generation' (some v) id state s' u x
          a.advanced.consistent p d q in
      expectations v a.row.review_revision b.row.review_revision a.revision b.revision (
        next_revision (request_of first.0 note_text generation (some v))
          (request_of state note_text' generation' (some v)) id s s' u r x a b)

  -- Where a review of an account candidate that expects a revision returns, from tables whose identities
  -- are the classes of the confirmed pairs, a review that comes next, on
  -- the same candidate and with the same expected revision, raises and leaves the tables as they are.
  pub review-once :
      Post
        (λ _ _. ⊥)
        (λ _ t. t ≡ s')
        (review match_ref decision' note_text' generation' (some v) s')
  review-once =
      only_raises s' (review match_ref decision' note_text' generation' (some v) s')
        (review-Safe match_ref decision' note_text' generation' (some v) s'
          first.1.advanced.consistent)
        no_return

-- What the tables have of a review: the row of the candidate with the decision and the next revision,
-- and a row more in the log, with the state and the generation that the candidate had.
pub record Recorded (state : ReviewState) (note_text : Option String) (id : ℕ) (s t : Tables)
    (r : Report) : Type 0 where
  pub was : Candidate AccountEnds
  pub is_now : Candidate AccountEnds
  pub was_found : find (is_candidate id) s.account_candidates.candidates ≡ some was
  pub is_found : find (is_candidate id) t.account_candidates.candidates ≡ some is_now
  pub new_state : is_now.current_state ≡ state
  pub new_revision : is_now.review_revision ≡ suc was.review_revision
  pub reported : r.review_revision ≡ is_now.review_revision
  pub logged :
      t.account_candidates.decisions
      ≡ s.account_candidates.decisions
        ++ record {
          candidate_id = was.candidate_id;
          prior_state = was.current_state;
          decision = state;
          evidence_generation = was.evidence_generation;
          note = note_text;
        }
          ∷ []
  pub decision_id : r.decision_id ≡ length t.account_candidates.decisions

-- A review of an account candidate that returns, from tables whose identities are the classes of the
-- confirmed pairs, has recorded the decision: the row that is found for
-- the candidate has the decision as its state and the next revision, which is the one that is reported,
-- and the log has one row more, whose place is the decision id that is reported, with the state and the
-- generation from before.
pub review-Recorded :
    (match_ref decision : String) (note_text : Option String) (generation revision : Option ℕ)
    (id : ℕ) (state : ReviewState) (s s' : Tables) (r : Report)
    → Consistent s
    → parse_match_ref match_ref ≡ some (of_account, id)
    → parse_state decision ≡ some state
    → review match_ref decision note_text generation revision s ≡ (returned r, s')
    → Recorded state note_text id s s' r
unfolding decision_row
review-Recorded match_ref decision note_text generation revision id state s s' r c p d e =
    let a =
      review-Reviewed match_ref decision note_text generation revision id state s s' r c p d e in
    record {
      was = a.row;
      is_now = a.advanced.row_after;
      was_found = a.found;
      is_found =
          row_found (request_of state note_text generation revision) id r.decision_id s s' a.row
            a.before a.found a.advanced;
      new_state = a.advanced.state;
      new_revision = a.advanced.revision;
      reported = a.reported.0 ∙ sym a.advanced.revision;
      logged = a.advanced.decisions;
      decision_id = omega (
        arith,
        a.reported.1,
        ap length a.advanced.decisions,
        length-append s.account_candidates.decisions
            (decision_row (request_of state note_text generation revision) a.row ∷ []),
      );
    }
