-- ===== src/Identity/Conflicts.antt =====
-- A confirmation that would merge two identities is refused.
use data_processing.Prelude.{ℕ, String, Option, some, ◌≡◌, ◌≢◌, refl, sym, subst, arith}
use data_processing.Effect.{Outcome, returned, raised, unfinished, and_then, pure, ◌>>=◌}
use data_processing.Effect.Triple.{Post}
use data_processing.RemoteSync.Types.{Exception}
use data_processing.Persistence.Tables.{find}
use data_processing.Relationships.{confirmed, is_confirmed}
use data_processing.Identity.{
  AccountEnds, Candidate, Reviewed, Tables, identity_of, is_candidate, of_account, same_identity,
}
use data_processing.Identity.Calls.{account_run, request_of}
use data_processing.Identity.Confirm.{
  confirm_identity, conflict, join_identity, target_from, target_of,
}
use data_processing.Identity.Deciding.{Decides, decide-Decides}
use data_processing.Identity.Digits.{parse_match_ref}
use data_processing.Identity.Reviewing.{rolled-Post}
use data_processing.Identity.Review.{
  Report, Request, decide, follow, is_same_identity, on_accounts, parse_state, report, review,
  review_account,
}

-- Every outcome but a raise is excluded.
abbrev Raises : {A : Type 0} → Outcome Exception A × Tables → Type 0
Raises r = Post (λ _ _. ⊥) (λ _ _. Unit {0}) r

still-Raises :
    {A B : Type 0} (o : Outcome Exception A × Tables)
    (g : A → Tables → Outcome Exception B × Tables)
    → Raises o
    → Raises (and_then o g)
still-Raises (returned x, u) g h = absurd h
still-Raises (raised e, u) g h = h
still-Raises (unfinished, u) g h = h

module _ (request : Request) (id target i j : ℕ) (s : Tables) (row : Candidate AccountEnds)
    (f : find (is_candidate id) s.account_candidates.candidates ≡ some row)
    (confirms : request.state ≡ confirmed) (same : row.ends.relation_kind ≡ same_identity)
    (t : row.ends.target_account_id ≡ some target)
    (first : identity_of row.ends.subject_account_id s.members ≡ some i)
    (second : identity_of target s.members ≡ some j) (differ : i ≢ j) where
  -- The tables of candidates do not matter.
  confirm-Raises :
      (k : ℕ) (reviewed : Reviewed AccountEnds)
      → Raises (confirm_identity row k (record s { account_candidates = reviewed }))
  unfolding confirm_identity ◌>>=◌ target_of target_from join_identity conflict
  confirm-Raises k reviewed = ground (arith, t, first, second, differ)

  follow-Raises :
      (k : ℕ) (reviewed : Reviewed AccountEnds)
      → Raises (follow request.state row k (record s { account_candidates = reviewed }))
  unfolding follow ◌>>=◌ is_same_identity is_confirmed
  follow-Raises k reviewed = ground (arith, confirms, same, confirm-Raises k reviewed)

  after_decision :
      (o : Outcome Exception (Candidate AccountEnds × ℕ) × Reviewed AccountEnds)
      → Decides request id s.account_candidates o
      → Raises {A = Report} (
          and_then
            (o.0, record s { account_candidates = o.1 })
            (λ d. follow request.state d.0 d.1 >>= λ x. pure (report d.0 d.1 x)))
  unfolding ◌>>=◌
  after_decision (returned d, reviewed) h =
      let own : row ≡ d.0 = ground (arith, f, h.0) in
      subst
        (λ (r : Candidate AccountEnds). Raises {A = Report} (
          and_then (follow request.state r d.1 (record s { account_candidates = reviewed }))
            (λ x. pure (report d.0 d.1 x))))
        own
        (still-Raises (follow request.state row d.1 (record s { account_candidates = reviewed }))
          (λ x. pure (report d.0 d.1 x)) (follow-Raises d.1 reviewed))
  after_decision (raised e, reviewed) h = tt
  after_decision (unfinished, reviewed) h = h

  review_account-Raises : Raises (review_account request id s)
  unfolding review_account ◌>>=◌ on_accounts
  review_account-Raises =
      after_decision (decide request id s.account_candidates)
        (decide-Decides request id s.account_candidates)

-- A confirmation of a same-identity candidate whose accounts belong to different identities raises,
-- whatever note and expectations it comes with, and leaves the tables as they are.
pub review-conflict :
    (match_ref decision : String) (note_text : Option String) (generation revision : Option ℕ)
    (id target i j : ℕ) (s : Tables) (row : Candidate AccountEnds)
    → parse_match_ref match_ref ≡ some (of_account, id)
    → parse_state decision ≡ some confirmed
    → find (is_candidate id) s.account_candidates.candidates ≡ some row
    → row.ends.relation_kind ≡ same_identity
    → row.ends.target_account_id ≡ some target
    → identity_of row.ends.subject_account_id s.members ≡ some i
    → identity_of target s.members ≡ some j
    → i ≢ j
    → Post (λ _ _. ⊥) (λ _ t. t ≡ s) (review match_ref decision note_text generation revision s)
review-conflict match_ref decision note_text generation revision id target i j s row p d f same t a
      b ne =
    let request = request_of confirmed note_text generation revision in
    subst (λ o. Post (λ _ _. ⊥) (λ _ t. t ≡ s) o)
      (sym (account_run match_ref decision note_text generation revision id confirmed s p d))
      (rolled-Post (λ _ _. ⊥) s (review_account request id s)
        (review_account-Raises request id target i j s row f refl same t a b ne))
