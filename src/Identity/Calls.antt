-- ===== src/Identity/Calls.antt =====
-- A call of `review` on an account candidate, seen from its outcome.
use data_processing.Prelude.{
  ℕ, suc, String, Option, none, some, ◌≡◌, sym, ◌∙◌, subst, arith, inl, inr, Option-cases,
}
use data_processing.Effect.{Outcome, returned, raised, unfinished}
use data_processing.Effect.Triple.{Post}
use data_processing.RemoteSync.Types.{Exception, value_error}
use data_processing.Persistence.Tables.{find}
use data_processing.Relationships.{ReviewState}
use data_processing.Identity.{
  AccountEnds, Candidate, Tables, in_transaction, is_candidate, of_account, rolled_back,
}
use data_processing.Identity.Digits.{parse_match_ref}
use data_processing.Identity.Following.{Advanced, Consistent}
use data_processing.Identity.Review.{
  Report, Request, parse_state, review, review_account, review_candidate, review_parsed,
}
use data_processing.Identity.Reviewing.{AccountReviewed, review_account-Reviews, rolled-Post}
use data_processing.Identity.Rows.{At-find}

abbrev pub request_of : ReviewState → Option String → Option ℕ → Option ℕ → Request
request_of state note_text generation revision = record {
  state = state;
  note = note_text;
  expected_generation = generation;
  expected_revision = revision;
}

-- A call on an account candidate that returns has reviewed it.
pub account_run :
    (match_ref decision : String) (note_text : Option String) (generation revision : Option ℕ)
    (id : ℕ) (state : ReviewState) (s : Tables)
    → parse_match_ref match_ref ≡ some (of_account, id)
    → parse_state decision ≡ some state
    → review match_ref decision note_text generation revision s
      ≡ rolled_back s (review_account (request_of state note_text generation revision) id s)
unfolding review review_parsed in_transaction review_candidate
account_run match_ref decision note_text generation revision id state s p d = ground (arith, p, d)

returned-Reviewed :
    (request : Request) (id : ℕ) (s s' : Tables) (r : Report)
    (o : Outcome Exception Report × Tables)
    → Post (λ x t. AccountReviewed request id s x t) (λ _ t. t ≡ s) o
    → o ≡ (returned r, s')
    → AccountReviewed request id s r s'
returned-Reviewed request id s s' r (returned x, t) h e =
    subst
      (λ (p : Outcome Exception Report × Tables).
        Post (λ y u. AccountReviewed request id s y u) (λ _ u. u ≡ s) p)
      e h
returned-Reviewed request id s s' r (raised x, t) h e = absurd (ground (arith, e))
returned-Reviewed request id s s' r (unfinished, t) h e = absurd h

pub review-Reviewed :
    (match_ref decision : String) (note_text : Option String) (generation revision : Option ℕ)
    (id : ℕ) (state : ReviewState) (s s' : Tables) (r : Report)
    → Consistent s
    → parse_match_ref match_ref ≡ some (of_account, id)
    → parse_state decision ≡ some state
    → review match_ref decision note_text generation revision s ≡ (returned r, s')
    → AccountReviewed (request_of state note_text generation revision) id s r s'
review-Reviewed match_ref decision note_text generation revision id state s s' r c p d e =
    returned-Reviewed (request_of state note_text generation revision) id s s' r _
      (rolled-Post
        (λ x t. AccountReviewed (request_of state note_text generation revision) id s x t) s _
        (review_account-Reviews (request_of state note_text generation revision) id s c))
      (sym (account_run match_ref decision note_text generation revision id state s p d) ∙ e)

unknown_state :
    (match_ref decision : String) (note_text : Option String) (generation revision : Option ℕ)
    (s : Tables)
    → parse_state decision ≡ none
    → review match_ref decision note_text generation revision s
      ≡ (raised (value_error "unsupported review state"), s)
unfolding review
unknown_state match_ref decision note_text generation revision s d = ground (arith, d)

-- A call that returns has a decision that is known.
pub known_state :
    (match_ref decision : String) (note_text : Option String) (generation revision : Option ℕ)
    (s s' : Tables) (r : Report)
    → review match_ref decision note_text generation revision s ≡ (returned r, s')
    → (state : ReviewState) × (parse_state decision ≡ some state)
known_state match_ref decision note_text generation revision s s' r e =
    elim (Option-cases (parse_state decision)) [
      | inr k ↦ k
      | inl n ↦
          absurd
            (ground (arith, e, unknown_state match_ref decision note_text generation revision s n))
    ]

-- The row after a review, as it is found.
pub row_found :
    (request : Request) (id k : ℕ) (s t : Tables) (row : Candidate AccountEnds) (c : Consistent s)
    (f : find (is_candidate id) s.account_candidates.candidates ≡ some row)
    (a : Advanced request id k s row c f t)
    → find (is_candidate id) t.account_candidates.candidates ≡ some a.row_after
row_found request id k s t row c f a = At-find id t.account_candidates.candidates a.row_after a.at

-- The later review finds the next revision.
pub next_revision :
    (q p : Request) (id : ℕ) (s t u : Tables) (r x : Report) (a : AccountReviewed q id s r t)
    (b : AccountReviewed p id t x u)
    → b.row.review_revision ≡ suc a.row.review_revision
next_revision q p id s t u r x a b =
    let same : some b.row ≡ some a.advanced.row_after =
      sym b.found ∙ row_found q id r.decision_id s t a.row a.before a.found a.advanced in
    ground (arith, same, a.advanced.revision)
