-- ===== src/Tests/Identities.antt =====
-- Reviews of account candidates at concrete inputs.
use mathlib.Core.List.{Memᴰ}
use mathlib.Core.List.Memᴰ
use data_processing.Prelude.{
  ℕ, String, ◌⊎◌, none, some, List, [], ◌∷◌, true, false, ◌≡◌, ◌↔◌, refl, ap, inl, inr, arith,
}
use data_processing.Effect.{returned}
use data_processing.Effect.Triple.{Post}
use data_processing.Lineage.Leads.{Connected}
use data_processing.Persistence.Tables.{find}
use data_processing.Relationships.{pending, confirmed}
use data_processing.Identity.{
  AccountEnds, Candidate, CandidateKind, Member, Tables, is_candidate, contains, identity_of,
  of_account, same_identity,
}
use data_processing.Identity.Closure.Loop.{Closed, close_over-Closed}
use data_processing.Identity.Digits.{parse_match_ref}
use data_processing.Identity.Conflicts.{review-conflict}
use data_processing.Identity.Following.{Consistent}
use data_processing.Identity.Forest.Nodes.{is_end}
use data_processing.Identity.History.{
  Call, SameIdentity, after_calls, after_calls-Consistent, after_calls-identities, confirmed_pairs,
}
use data_processing.Identity.Remaining.{Lessens}
use data_processing.Identity.Rebuild.{Edge, close_over, edges_of, rebuild_identity_component}
use data_processing.Identity.Rebuilt.{Rebuilds, rebuild_identity_component-Rebuilds}
use data_processing.Identity.Review.{Report, parse_state, review}
use data_processing.Identity.Reviewing.{Safe, review-Safe}
use data_processing.Identity.Revisions.{Recorded, review-Recorded, review-once}

abbrev candidate_row : ℕ → ℕ → ℕ → Candidate AccountEnds
candidate_row id subject target = record {
  candidate_id = id;
  current_state = pending;
  evidence_generation = 1;
  review_revision = 0;
  ends = record {
    subject_account_id = subject;
    target_account_id = some target;
    target_reference_id = none;
    relation_kind = same_identity;
  };
}

-- Two candidates that are not reviewed yet: of the accounts 1 and 2, and of the accounts 2 and 3.
abbrev two_candidates : Tables
two_candidates = record {
  account_candidates = record {
    candidates = candidate_row 10 1 2 ∷ candidate_row 11 2 3 ∷ [];
    decisions = [];
  };
  attribution_candidates = record { candidates = []; decisions = [] };
  post_candidates = record { candidates = []; decisions = [] };
  references = [];
  accounts = [];
  identities = [];
  members = [];
}

two_rows :
    (r : Candidate AccountEnds)
    → Memᴰ r two_candidates.account_candidates.candidates
    → (r ≡ candidate_row 10 1 2) ⊎ (r ≡ candidate_row 11 2 3)
two_rows r m = elim (Memᴰ.cases_cons m) [ inl e ↦ inl e | inr t ↦ inr (Memᴰ.eq_of_singleton t) ]

two_candidates-Consistent : Consistent two_candidates
unfolding identity_of edges_of is_end contains
two_candidates-Consistent = record {
  keyed = λ r q m n e.
      ground
        (arith, e, two_rows r m, two_rows q n, ap (λ (o : Candidate AccountEnds). o.candidate_id));
  grouped = record {
    sound = λ a b i h. absurd (ground (arith, h));
    covered = λ a b m. absurd (Memᴰ.not-nil m);
    given = λ a h. absurd (ground (arith, h));
    only = λ a i h. absurd (ground (arith, h));
    known = λ a i h. absurd (ground (arith, h));
    positive = refl;
  };
}

abbrev call_of : String → String → Call
call_of match_ref decision = record {
  match_ref = match_ref;
  decision = decision;
  note = none;
  expected_generation = none;
  expected_revision = none;
}

-- Both candidates are confirmed, and then the first is rejected.
abbrev three_calls : List Call
three_calls =
    call_of "account:10" "confirmed"
    ∷ call_of "account:11" "confirmed"
    ∷ call_of "account:10" "rejected"
    ∷ []

joined_test :
    identity_of 3
      (after_calls
        (call_of "account:10" "confirmed" ∷ call_of "account:11" "confirmed" ∷ [])
        two_candidates).members
    ≡ some 1
unfolding after_calls review
joined_test = refl

rejected_test :
    (identity_of 1 (after_calls three_calls two_candidates).members ≡ none)
    × (identity_of 3 (after_calls three_calls two_candidates).members ≡ some 1)
unfolding after_calls review
rejected_test = (refl, refl)

after_calls-identities_example :
    (SameIdentity (after_calls three_calls two_candidates) 2 3 ↔ (
      (is_end (confirmed_pairs (after_calls three_calls two_candidates)) 2 ≡ true)
      × Connected (confirmed_pairs (after_calls three_calls two_candidates)) 2 3))
    × ((identity_of 2 (after_calls three_calls two_candidates).members ≡ none)
        ↔ (is_end (confirmed_pairs (after_calls three_calls two_candidates)) 2 ≡ false))
after_calls-identities_example =
    after_calls-identities three_calls two_candidates 2 3 two_candidates-Consistent

review-Safe_example :
    Safe two_candidates (review "account:10" "confirmed" none (some 1) (some 0) two_candidates)
review-Safe_example =
    review-Safe "account:10" "confirmed" none (some 1) (some 0) two_candidates
      two_candidates-Consistent

abbrev one_confirmed : Tables
one_confirmed = (review "account:10" "confirmed" none none (some 0) two_candidates).1

abbrev first_report : Report
first_report = record {
  decision_id = 1;
  evidence_generation = 1;
  review_revision = 1;
  identity_id = some 1;
}

abbrev tenth : CandidateKind × ℕ
tenth = (of_account, 10)

tenth_test : parse_match_ref "account:10" ≡ some tenth
unfolding parse_match_ref
tenth_test = refl

confirmed_test : parse_state "confirmed" ≡ some confirmed
unfolding parse_state
confirmed_test = refl

first_test :
    review "account:10" "confirmed" none none (some 0) two_candidates
    ≡ (returned first_report, one_confirmed)
unfolding review
first_test = refl

review-once_example :
    Post
      (λ _ _. ⊥)
      (λ _ t. t ≡ one_confirmed)
      (review "account:10" "rejected" none none (some 0) one_confirmed)
review-once_example =
    review-once "account:10" "confirmed" "rejected" none none none none 10 0 two_candidates
      one_confirmed first_report two_candidates-Consistent tenth_test first_test

review-Recorded_example : Recorded confirmed none 10 two_candidates one_confirmed first_report
review-Recorded_example =
    review-Recorded "account:10" "confirmed" none none (some 0) 10 confirmed two_candidates
      one_confirmed first_report two_candidates-Consistent tenth_test confirmed_test first_test

abbrev both_confirmed : Tables
both_confirmed =
    after_calls (call_of "account:10" "confirmed" ∷ call_of "account:11" "confirmed" ∷ [])
      two_candidates

both_confirmed-Consistent : Consistent both_confirmed
both_confirmed-Consistent =
    after_calls-Consistent
      (call_of "account:10" "confirmed" ∷ call_of "account:11" "confirmed" ∷ []) two_candidates
      two_candidates-Consistent

nothing_lost : Lessens (confirmed_pairs both_confirmed) (confirmed_pairs both_confirmed) 1 (some 2)
nothing_lost = record { keeps = λ x y m. m; loses = λ x y m. inl m }

rebuild_identity_component-Rebuilds_example :
    Rebuilds
      (confirmed_pairs both_confirmed)
      both_confirmed
      (rebuild_identity_component 1 (some 2) both_confirmed)
rebuild_identity_component-Rebuilds_example =
    rebuild_identity_component-Rebuilds (confirmed_pairs both_confirmed) 1 (some 2) both_confirmed
      both_confirmed-Consistent.grouped nothing_lost

abbrev example_edges : List Edge
example_edges =
    record { candidate_id = 10; subject = 1; target = 2; decision_id = some 1 }
    ∷ record { candidate_id = 11; subject = 2; target = 3; decision_id = some 2 }
    ∷ []

close_over-Closed_example : Closed example_edges (3 ∷ []) (close_over 3 example_edges (3 ∷ []))
close_over-Closed_example = close_over-Closed example_edges (3 ∷ [])

abbrev member_of : ℕ → ℕ → Member
member_of account identity = record {
  identity_id = identity;
  account_id = account;
  account_candidate_id = 9;
  decision_id = none;
}

-- The accounts 1 and 2 have one identity, and the account 3 another.
abbrev two_identities : Tables
two_identities = record two_candidates {
  identities = 1 ∷ 2 ∷ [];
  members = member_of 1 1 ∷ member_of 2 1 ∷ member_of 3 2 ∷ [];
}

abbrev eleventh : CandidateKind × ℕ
eleventh = (of_account, 11)

eleventh_test : parse_match_ref "account:11" ≡ some eleventh
unfolding parse_match_ref
eleventh_test = refl

eleventh_found :
    find (is_candidate 11) two_identities.account_candidates.candidates
    ≡ some (candidate_row 11 2 3)
unfolding find is_candidate
eleventh_found = refl

second_identity :
    (identity_of 2 two_identities.members ≡ some 1)
    × (identity_of 3 two_identities.members ≡ some 2)
unfolding identity_of
second_identity = (refl, refl)

review-conflict_example :
    Post
      (λ _ _. ⊥)
      (λ _ t. t ≡ two_identities)
      (review "account:11" "confirmed" none none none two_identities)
review-conflict_example =
    review-conflict "account:11" "confirmed" none none none 11 3 1 2 two_identities
      (candidate_row 11 2 3) eleventh_test confirmed_test eleventh_found refl refl second_identity.0
      second_identity.1 (omega arith)
