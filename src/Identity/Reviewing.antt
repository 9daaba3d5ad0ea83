-- ===== src/Identity/Reviewing.antt =====
-- `review` keeps the tables consistent, and records each decision once.
use data_processing.Prelude.{
  ℕ, suc, String, Option, none, some, true, ◌≡◌, refl, sym, subst, length,
}
use data_processing.Effect.{Outcome, returned, raised, unfinished, and_then, pure, ◌>>=◌}
use data_processing.Effect.Triple.{Post, Post-weaken}
use data_processing.RemoteSync.Types.{Exception, value_error}
use data_processing.Persistence.Tables.{find}
use data_processing.Identity.{
  AccountEnds, Candidate, CandidateKind, Reviewed, Tables, in_transaction, is_candidate, of_account,
  of_attribution, of_post, rolled_back,
}
use data_processing.Identity.Deciding.{Decides, decide-Decides}
use data_processing.Identity.Digits.{parse_match_ref}
use data_processing.Identity.Following.{Advanced, Advances, Consistent, follow-Advances}
use data_processing.Identity.Review.{
  Report, Request, decide, follow, is_expected, on_accounts, on_attributions, on_posts, parse_state,
  report, review, review_account, review_candidate, review_parsed,
}

-- What a review of an account candidate that returns has done.
pub record AccountReviewed (request : Request) (id : ℕ) (s : Tables) (r : Report) (t : Tables)
    : Type 0 where
  pub before : Consistent s
  pub row : Candidate AccountEnds
  pub found : find (is_candidate id) s.account_candidates.candidates ≡ some row
  pub generation : is_expected request.expected_generation row.evidence_generation ≡ true
  pub revision : is_expected request.expected_revision row.review_revision ≡ true
  pub reported :
      (r.review_revision ≡ suc row.review_revision)
      × (r.decision_id ≡ suc (length s.account_candidates.decisions))
  pub advanced : Advanced request id r.decision_id s row before found t

module _ (request : Request) (id : ℕ) (s : Tables) (c : Consistent s) where
  abbrev pub Reviews : Outcome Exception Report × Tables → Type 0
  Reviews r = Post (λ x t. AccountReviewed request id s x t) (λ _ _. Unit {0}) r

  after_follow :
      (k : ℕ) (row : Candidate AccountEnds)
      (f : find (is_candidate id) s.account_candidates.candidates ≡ some row)
      (o : Outcome Exception (Option ℕ) × Tables)
      → is_expected request.expected_generation row.evidence_generation ≡ true
      → is_expected request.expected_revision row.review_revision ≡ true
      → k ≡ suc (length s.account_candidates.decisions)
      → Advances request id k s row c f o
      → Reviews (and_then o (λ i. pure (report row k i)))
  unfolding report
  after_follow k row f (returned i, t) g v e a = record {
    before = c;
    row = row;
    found = f;
    generation = g;
    revision = v;
    reported = (refl, e);
    advanced = a;
  }
  after_follow k row f (raised x, t) g v e a = tt
  after_follow k row f (unfinished, t) g v e a = a

  after_decision :
      (o : Outcome Exception (Candidate AccountEnds × ℕ) × Reviewed AccountEnds)
      → Decides request id s.account_candidates o
      → Reviews (
          and_then
            (o.0, record s { account_candidates = o.1 })
            (λ d. follow request.state d.0 d.1 >>= λ i. pure (report d.0 d.1 i)))
  unfolding ◌>>=◌
  after_decision (returned d, t) h =
      subst
        (λ (x : Reviewed AccountEnds). Reviews (
          and_then (follow request.state d.0 d.1 (record s { account_candidates = x }))
            (λ i. pure (report d.0 d.1 i))))
        (sym h.4)
        (after_follow d.1 d.0 h.0 _ h.1 h.2 h.3 (follow-Advances request id d.1 s d.0 c h.0))
  after_decision (raised e, t) h = tt
  after_decision (unfinished, t) h = h

  pub review_account-Reviews : Reviews (review_account request id s)
  unfolding review_account ◌>>=◌ on_accounts
  review_account-Reviews =
      after_decision (decide request id s.account_candidates)
        (decide-Decides request id s.account_candidates)

-- The outcome of a call that leaves consistent tables, and the same tables where it raises.
abbrev pub Safe : Tables → Outcome Exception Report × Tables → Type 0
Safe s r = Post (λ _ t. Consistent t) (λ _ t. t ≡ s) r

pub rolled-Post :
    (Q : Report → Tables → Type 0) (s : Tables) (o : Outcome Exception Report × Tables)
    → Post Q (λ _ _. Unit {0}) o
    → Post Q (λ _ t. t ≡ s) (rolled_back s o)
unfolding rolled_back
rolled-Post Q s (returned x, t) h = h
rolled-Post Q s (raised e, t) h = refl
rolled-Post Q s (unfinished, t) h = h

-- A review of another kind of candidate touches nothing that the identities depend on.
other_kind :
    {E : Type 0} (request : Request) (id : ℕ) (s : Tables) (before : Reviewed E)
    (put : Reviewed E → Tables) (o : Outcome Exception (Candidate E × ℕ) × Reviewed E)
    → ((t : Reviewed E) → Consistent (put t))
    → Decides request id before o
    → Post {X = Exception}
        (λ (x : Report) t. Consistent t)
        (λ _ _. Unit {0})
        (and_then (o.0, put o.1) (λ d. pure (report d.0 d.1 none)))
other_kind request id s before put (returned d, t) c h = c t
other_kind request id s before put (raised e, t) c h = tt
other_kind request id s before put (unfinished, t) c h = h

review_candidate-Consistent :
    (request : Request) (kind : CandidateKind) (id : ℕ) (s : Tables)
    → Consistent s
    → Post {X = Exception}
        (λ _ t. Consistent t)
        (λ _ _. Unit {0})
        (review_candidate request kind id s)
unfolding review_candidate on_attributions on_posts ◌>>=◌
review_candidate-Consistent request of_account id s c =
    Post-weaken (review_account request id s) (λ x t h. h.advanced.consistent) (λ e t h. h)
      (review_account-Reviews request id s c)
review_candidate-Consistent request of_attribution id s c =
    other_kind request id s s.attribution_candidates (λ t. record s { attribution_candidates = t })
      (decide request id s.attribution_candidates)
      (λ t. record { keyed = c.keyed; grouped = c.grouped })
      (decide-Decides request id s.attribution_candidates)
review_candidate-Consistent request of_post id s c =
    other_kind request id s s.post_candidates (λ t. record s { post_candidates = t })
      (decide request id s.post_candidates) (λ t. record { keyed = c.keyed; grouped = c.grouped })
      (decide-Decides request id s.post_candidates)

parsed-Safe :
    (request : Request) (o : Option (CandidateKind × ℕ)) (s : Tables)
    → Consistent s
    → Safe s (review_parsed request o s)
unfolding review_parsed in_transaction
parsed-Safe request none s c = refl
parsed-Safe request (some (kind, id)) s c =
    rolled-Post (λ _ t. Consistent t) s (review_candidate request kind id s)
      (review_candidate-Consistent request kind id s c)

-- Each call of `review` ends. Where it returns, the tables are consistent again: accounts have the same
-- identity exactly where candidates that are confirmed now connect them. Where it raises, the tables
-- are as they were.
pub review-Safe :
    (match_ref decision : String) (note_text : Option String) (generation revision : Option ℕ)
    (s : Tables)
    → Consistent s
    → Safe s (review match_ref decision note_text generation revision s)
unfolding review
review-Safe match_ref decision note_text generation revision s c =
    elim (parse_state decision)
      as (λ o. Safe s (elim o [
        | none ↦ (raised (value_error "unsupported review state"), s)
        | some state ↦
            review_parsed
              (record {
                state = state;
                note = note_text;
                expected_generation = generation;
                expected_revision = revision;
              })
              (parse_match_ref match_ref) s
      ])) [
        | none ↦ refl
        | some state ↦
            parsed-Safe
              (record {
                state = state;
                note = note_text;
                expected_generation = generation;
                expected_revision = revision;
              })
              (parse_match_ref match_ref) s c
      ]
