-- ===== src/Identity/Targeting.antt =====
-- The target of a candidate: where it is found, the candidate has it as its target afterwards.
use data_processing.Prelude.{
  ℕ, Option, none, some, List, [], ◌∷◌, ◌++◌, map, true, ◌≡◌, ◌==◌, str_eq, refl, sym, ap, subst,
  arith, if◌then◌else◌, Bool-cases, inl, inr, either_way,
}
use data_processing.Effect.{Outcome, returned, raised, and_then, pure, ◌>>=◌}
use data_processing.Effect.Triple.{Post}
use data_processing.RemoteSync.Types.{Exception, other}
use data_processing.Persistence.Tables.{find, update}
use data_processing.Identity.{
  AccountEnds, AccountRow, Candidate, Change, Reference, Tables, is_candidate, new_id,
}
use data_processing.Identity.Confirm.{
  insert_account, is_account, is_reference, reference_found, reference_of, resolve_target,
  target_from, target_of, target_row,
}
use data_processing.Identity.Rows.{At, SameElsewhere, update-At, update-SameElsewhere}

-- The tables when the target is known: the row of the candidate has it, and no other row, member or
-- identity has changed.
pub record Targeted (id : ℕ) (next : Candidate AccountEnds) (target : ℕ) (before after : Tables)
    : Type 0 where
  pub row : Candidate AccountEnds
  pub at : At id after.account_candidates.candidates row
  pub elsewhere :
      SameElsewhere id before.account_candidates.candidates after.account_candidates.candidates
  pub has_target : row.ends.target_account_id ≡ some target
  pub same_target : (v : ℕ) → next.ends.target_account_id ≡ some v → target ≡ v
  pub subject : row.ends.subject_account_id ≡ next.ends.subject_account_id
  pub relation : row.ends.relation_kind ≡ next.ends.relation_kind
  pub state : row.current_state ≡ next.current_state
  pub revision : row.review_revision ≡ next.review_revision
  pub decisions : after.account_candidates.decisions ≡ before.account_candidates.decisions
  pub members : after.members ≡ before.members
  pub identities : after.identities ≡ before.identities

SameElsewhere-refl : (id : ℕ) (rows : List (Candidate AccountEnds)) → SameElsewhere id rows rows
SameElsewhere-refl id rows = record { there = λ r m n. m; here = λ r m n. m }

module _ (id : ℕ) (old next : Candidate AccountEnds) (s : Tables)
    (a : At id s.account_candidates.candidates next) (same_id : old.candidate_id ≡ id)
    (same_ends : old.ends ≡ next.ends) where
  abbrev pub Targets : Outcome Exception ℕ × Tables → Type 0
  Targets r = Post (λ target t. Targeted id next target s t) (λ _ _. Unit {0}) r

  already-Targeted : (t : ℕ) → next.ends.target_account_id ≡ some t → Targeted id next t s s
  already-Targeted t h = record {
    row = next;
    at = a;
    elsewhere = SameElsewhere-refl id s.account_candidates.candidates;
    has_target = h;
    same_target = λ v e. ground (arith, h, e);
    subject = refl;
    relation = refl;
    state = refl;
    revision = refl;
    decisions = refl;
    members = refl;
    identities = refl;
  }

  -- The update of the candidate.
  abbrev resolved : ℕ → Candidate AccountEnds → Candidate AccountEnds
  resolved t c = record c {
    ends = record c.ends { target_account_id = some t; target_reference_id = none };
  }

  only_id :
      (r : Candidate AccountEnds) → is_candidate old.candidate_id r ≡ true → r.candidate_id ≡ id
  unfolding is_candidate
  only_id r h = ground (arith, h, same_id)

  own_id : is_candidate old.candidate_id next ≡ true
  unfolding is_candidate
  own_id = ground (arith, same_id, a.has_id)

  -- The tables after the reference and the candidate are updated.
  abbrev with_target : ℕ → ℕ → List AccountRow → Tables
  with_target reference_id t accounts = record s {
    accounts = accounts;
    references =
        update (is_reference reference_id) (λ r. record r { resolved_account_id = some t })
          s.references;
    account_candidates = record s.account_candidates {
      candidates =
          update (is_candidate old.candidate_id) (resolved t) s.account_candidates.candidates;
    };
  }

  newly-Targeted :
      (reference_id t : ℕ) (accounts : List AccountRow)
      → next.ends.target_account_id ≡ none
      → Targeted id next t s (with_target reference_id t accounts)
  newly-Targeted reference_id t accounts n = record {
    row = resolved t next;
    at =
        update-At id (is_candidate old.candidate_id) (resolved t) s.account_candidates.candidates
          next a only_id own_id a.has_id;
    elsewhere =
        update-SameElsewhere id (is_candidate old.candidate_id) (resolved t)
          s.account_candidates.candidates next a only_id own_id a.has_id;
    has_target = refl;
    same_target = λ v e. absurd (ground (arith, n, e));
    subject = refl;
    relation = refl;
    state = refl;
    revision = refl;
    decisions = refl;
    members = refl;
    identities = refl;
  }

  -- The account stands in the table of accounts, and no other table has changed.
  resolve-Targets :
      (reference_id t : ℕ) (accounts : List AccountRow)
      → next.ends.target_account_id ≡ none
      → Targets
          ((resolve_target old reference_id t >>= λ _. pure t) (record s { accounts = accounts }))
  unfolding resolve_target ◌>>=◌
  resolve-Targets reference_id t accounts n = elim (Bool-cases (old.ends.subject_account_id == t)) [
    | inl e ↦
        subst
          (λ b. Targets (
            and_then
              (if b
                then (raised (other "IntegrityError"), record s { accounts = accounts })
                else (returned tt, with_target reference_id t accounts))
              (λ _. pure t)))
          (sym e) tt
    | inr e ↦
        subst
          (λ b. Targets (
            and_then
              (if b
                then (raised (other "IntegrityError"), record s { accounts = accounts })
                else (returned tt, with_target reference_id t accounts))
              (λ _. pure t)))
          (sym e) (newly-Targeted reference_id t accounts n)
  ]

  insert-Targets :
      (reference_id : ℕ) (reference : Reference)
      → next.ends.target_account_id ≡ none
      → Targets
          ((insert_account reference >>= λ t. resolve_target old reference_id t >>= λ _. pure t) s)
  unfolding insert_account ◌>>=◌
  insert-Targets reference_id reference n =
      elim (find (is_account reference) s.accounts)
        as (λ o. Targets (
          and_then
            (elim o [
              | some row ↦ (returned row.account_id, s)
              | none ↦
                  let new = new_id (map (λ (r : AccountRow). r.account_id) s.accounts) in
                  (
                    returned new,
                    record s { accounts = s.accounts ++ target_row reference new ∷ [] },
                  )
            ])
            (λ t. resolve_target old reference_id t >>= λ _. pure t))) [
              | some row ↦ resolve-Targets reference_id row.account_id s.accounts n
              | none ↦
                  resolve-Targets reference_id
                    (new_id (map (λ (r : AccountRow). r.account_id) s.accounts))
                    (s.accounts
                      ++ target_row reference
                          (new_id (map (λ (r : AccountRow). r.account_id) s.accounts))
                        ∷ [])
                    n
            ]

  reference-Targets :
      (reference_id : ℕ) (o : Option Reference)
      → next.ends.target_account_id ≡ none
      → Targets (reference_found old reference_id o s)
  unfolding reference_found
  reference-Targets reference_id none n = tt
  reference-Targets reference_id (some reference) n =
      either_way {A = Change ℕ} (λ m. Targets (m s)) (str_eq reference.object_kind "account") _ _
        (either_way {A = Change ℕ} (λ m. Targets (m s))
          (str_eq reference.identifier_kind "stable_id") _ _
          (insert-Targets reference_id reference n) tt)
        tt

  from-Targets :
      (o r : Option ℕ) → next.ends.target_account_id ≡ o → Targets (target_from old o r s)
  unfolding target_from
  from-Targets (some t) r e = already-Targeted t e
  from-Targets none (some reference_id) e =
      reference-Targets reference_id (reference_of (some reference_id) s.references) e
  from-Targets none none e = tt

  pub target_of-Targets : Targets (target_of old s)
  unfolding target_of
  target_of-Targets =
      from-Targets old.ends.target_account_id old.ends.target_reference_id
        (ap (λ (x : AccountEnds). x.target_account_id) (sym same_ends))
