-- ===== src/Identity/Review.antt =====
-- discovery/review.py: `MatchReviewService.review`.
use Prim.Native.String.{count}
use data_processing.Prelude.{
  ℕ, suc, String, Option, none, some, [], ◌∷◌, ◌++◌, Bool, true, false, ◌&&◌, length, str_eq, ◌==◌,
  ltb, if◌then◌else◌,
}
use data_processing.Effect.{returned, raised, Step, pure, raise, ◌>>=◌, ◌>>◌}
use data_processing.RemoteSync.Types.{Exception, value_error, other}
use data_processing.Persistence.Tables.{find, update, row_count}
use data_processing.Relationships.{ReviewState, pending, confirmed, rejected, is_confirmed}
use data_processing.Identity.{
  AccountEnds, Candidate, CandidateKind, Change, Decision, RelationKind, Reviewed, in_transaction,
  is_candidate, of_account, of_attribution, of_post, officially_linked, same_identity,
}
use data_processing.Identity.Digits.{parse_match_ref}
use data_processing.Identity.Confirm.{confirm_identity}
use data_processing.Identity.Rebuild.{rebuild_identity_component}

-- `validate_review_state`
unfoldable pub parse_state : String → Option ReviewState
parse_state value =
    if str_eq value "pending"
    then some pending
    else if str_eq value "confirmed"
    then some confirmed
    else if str_eq value "rejected"
    then some rejected
    else none

-- What the caller gives: the decision, a note, and what it expects of the candidate.
pub record Request : Type 0 where
  pub state : ReviewState
  pub note : Option String
  pub expected_generation : Option ℕ
  pub expected_revision : Option ℕ

unfoldable pub is_expected : Option ℕ → ℕ → Bool
is_expected none n = true
is_expected (some e) n = n == e

-- The tables of decisions check that a note has at most 2000 characters.
unfoldable pub is_note : Option String → Bool
is_note none = true
is_note (some text) = if ltb 2000 (count text) then false else true

module _ {E : Type 0} where
  -- `WHERE {id_column} = ? AND review_revision = ?`
  unfoldable pub at_revision : ℕ → ℕ → Candidate E → Bool
  unfolding is_candidate
  at_revision id revision row = is_candidate id row && row.review_revision == revision

  unfoldable pub reviewed_row : ReviewState → Candidate E → Candidate E
  reviewed_row state row = record row {
    current_state = state;
    review_revision = suc row.review_revision;
  }

  unfoldable pub decision_row : Request → Candidate E → Decision
  decision_row request row = record {
    candidate_id = row.candidate_id;
    prior_state = row.current_state;
    decision = request.state;
    evidence_generation = row.evidence_generation;
    note = request.note;
  }

  -- The writes of a decision, and the id of its row.
  unfoldable pub write_decision : Request → Candidate E → Step Exception (Reviewed E) ℕ
  unfolding row_count update at_revision reviewed_row decision_row is_note
  write_decision request row t =
      if row_count (at_revision row.candidate_id row.review_revision) t.candidates == 1
      then if is_note request.note
        then (
          returned (suc (length t.decisions)),
          record {
            candidates =
                update (at_revision row.candidate_id row.review_revision)
                  (reviewed_row request.state) t.candidates;
            decisions = t.decisions ++ decision_row request row ∷ [];
          },
        )
        else (raised (other "IntegrityError"), t)
      else (raised (value_error "stale review: candidate changed concurrently"), t)

  unfoldable pub decide_found :
      Request → Option (Candidate E) → Step Exception (Reviewed E) (Candidate E × ℕ)
  unfolding is_expected write_decision ◌>>=◌
  decide_found request none = raise (value_error "candidate not found")
  decide_found request (some row) =
      if is_expected request.expected_generation row.evidence_generation
      then if is_expected request.expected_revision row.review_revision
        then (do id ← write_decision request row; pure (row, id))
        else raise (value_error "stale review: expected review revision")
      else raise (value_error "stale review: expected evidence generation")

  -- The row of the candidate as it was, and the id of the decision.
  unfoldable pub decide : Request → ℕ → Step Exception (Reviewed E) (Candidate E × ℕ)
  unfolding decide_found find is_candidate
  decide request id t = decide_found request (find (is_candidate id) t.candidates) t

unfoldable pub is_same_identity : RelationKind → Bool
is_same_identity same_identity = true
is_same_identity officially_linked = false

-- What a decision on an account candidate does to the identities.
unfoldable pub follow : ReviewState → Candidate AccountEnds → ℕ → Change (Option ℕ)
unfolding ◌>>=◌ confirm_identity rebuild_identity_component is_same_identity is_confirmed
follow state row decision_id =
    if is_same_identity row.ends.relation_kind
    then if is_confirmed state
      then (do id ← confirm_identity row decision_id; pure (some id))
      else if is_confirmed row.current_state
      then (do
        rebuild_identity_component row.ends.subject_account_id row.ends.target_account_id
        pure none)
      else pure none
    else pure none

-- What `review` returns, less the texts of its arguments.
pub record Report : Type 0 where
  pub decision_id : ℕ
  pub evidence_generation : ℕ
  pub review_revision : ℕ
  pub identity_id : Option ℕ

unfoldable pub report : {E : Type 0} → Candidate E → ℕ → Option ℕ → Report
report row decision_id identity = record {
  decision_id = decision_id;
  evidence_generation = row.evidence_generation;
  review_revision = suc row.review_revision;
  identity_id = identity;
}

unfoldable pub on_accounts : {A : Type 0} → Step Exception (Reviewed AccountEnds) A → Change A
on_accounts m s = let (o, t) = m s.account_candidates in (o, record s { account_candidates = t })

unfoldable pub on_attributions : {A : Type 0} → Step Exception (Reviewed (Unit {0})) A → Change A
on_attributions m s =
    let (o, t) = m s.attribution_candidates in (o, record s { attribution_candidates = t })

unfoldable pub on_posts : {A : Type 0} → Step Exception (Reviewed (Unit {0})) A → Change A
on_posts m s = let (o, t) = m s.post_candidates in (o, record s { post_candidates = t })

unfoldable pub review_account : Request → ℕ → Change Report
unfolding ◌>>=◌ on_accounts decide follow report
review_account request id = do
  decided ← on_accounts (decide request id)
  identity ← follow request.state decided.0 decided.1
  pure (report decided.0 decided.1 identity)

unfoldable pub review_candidate : Request → CandidateKind → ℕ → Change Report
unfolding ◌>>=◌ review_account on_attributions on_posts decide report
review_candidate request of_account id = review_account request id
review_candidate request of_attribution id = do
  decided ← on_attributions (decide request id)
  pure (report decided.0 decided.1 none)
review_candidate request of_post id = do
  decided ← on_posts (decide request id)
  pure (report decided.0 decided.1 none)

unfoldable pub review_parsed : Request → Option (CandidateKind × ℕ) → Change Report
unfolding in_transaction review_candidate
review_parsed request none = raise (value_error "invalid candidate reference")
review_parsed request (some (kind, id)) = in_transaction (review_candidate request kind id)

-- `review`
unfoldable pub review : String → String → Option String → Option ℕ → Option ℕ → Change Report
unfolding parse_state parse_match_ref review_parsed
review match_ref decision note_text expected_generation expected_revision s =
    elim (parse_state decision) [
      | none ↦ (raised (value_error "unsupported review state"), s)
      | some state ↦
          review_parsed
            (record {
              state = state;
              note = note_text;
              expected_generation = expected_generation;
              expected_revision = expected_revision;
            })
            (parse_match_ref match_ref) s
    ]
