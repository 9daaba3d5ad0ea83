-- ===== src/Identity/Following.antt =====
-- What follows a decision on an account candidate keeps the identities the classes of the confirmed
-- pairs.
use data_processing.Prelude.{
  ℕ, suc, Option, none, some, List, true, false, ◌≡◌, refl, sym, ap, ◌∙◌, subst, arith, by_test,
}
use data_processing.Effect.{Outcome, returned, raised, unfinished, and_then, pure, ◌>>=◌}
use data_processing.Effect.Triple.{Post}
use data_processing.RemoteSync.Types.{Exception}
use data_processing.Persistence.Tables.{find}
use data_processing.Relationships.{is_confirmed}
use data_processing.Identity.{AccountEnds, Candidate, Change, Reviewed, Tables, is_candidate}
use data_processing.Identity.Changes.{pairs-Extends, pairs-Lessens, pairs-same}
use data_processing.Identity.Confirm.{confirm_identity, join_identity, target_of}
use data_processing.Identity.Confirming.{JoinsAccounts, join_identity-JoinsAccounts}
use data_processing.Identity.Deciding.{found_At, written, written-At, written-SameElsewhere}
use data_processing.Identity.Groups.{Grouped}
use data_processing.Identity.Pairs.{IsPair, pairs_of}
use data_processing.Identity.Rebuild.{is_identity_edge, rebuild_identity_component}
use data_processing.Identity.Rebuilt.{Rebuilds, rebuild_identity_component-Rebuilds}
use data_processing.Identity.Review.{Request, follow, is_same_identity, reviewed_row}
use data_processing.Identity.Rows.{At, Keyed, Keyed-replaced, SameElsewhere, SameElsewhere-trans}
use data_processing.Identity.Targeting.{Targeted, target_of-Targets}

-- The candidates have one row each, and the identities are the classes of the pairs of accounts that
-- the confirmed candidates give.
pub record Consistent (s : Tables) : Type 0 where
  pub keyed : Keyed s.account_candidates.candidates
  pub grouped :
      Grouped
        (pairs_of s.account_candidates.decisions s.account_candidates.candidates)
        s.members
        s.identities

module _ (request : Request) (id k : ℕ) (s : Tables) (row : Candidate AccountEnds)
    (c : Consistent s) (f : find (is_candidate id) s.account_candidates.candidates ≡ some row) where
  abbrev pub rows : List (Candidate AccountEnds)
  rows = s.account_candidates.candidates

  abbrev pub next : Candidate AccountEnds
  next = reviewed_row request.state row

  abbrev pub decided : Tables
  decided = record s { account_candidates = written request row s.account_candidates }

  -- The row of the candidate has the decision and the next revision, and the log has the decision.
  pub record Advanced (t : Tables) : Type 0 where
    pub consistent : Consistent t
    pub row_after : Candidate AccountEnds
    pub at : At id t.account_candidates.candidates row_after
    pub revision : row_after.review_revision ≡ suc row.review_revision
    pub state : row_after.current_state ≡ request.state
    pub decisions : t.account_candidates.decisions ≡ decided.account_candidates.decisions

  -- The outcome of a step that leaves such tables where it returns.
  abbrev pub Advances : {A : Type 0} → Outcome Exception A × Tables → Type 0
  Advances r = Post (λ _ t. Advanced t) (λ _ _. Unit {0}) r

  row-At : At id rows row
  row-At = found_At request id s.account_candidates row c.keyed f

  next-At : At id decided.account_candidates.candidates next
  next-At = written-At request id s.account_candidates row c.keyed f

  elsewhere : SameElsewhere id rows decided.account_candidates.candidates
  elsewhere = written-SameElsewhere request id s.account_candidates row c.keyed f

  decided-Keyed : Keyed decided.account_candidates.candidates
  decided-Keyed =
      Keyed-replaced id rows decided.account_candidates.candidates next c.keyed elsewhere next-At

  -- The tables of candidates are those of the decision.
  advanced :
      (t : Tables) → Consistent t → t.account_candidates ≡ decided.account_candidates → Advanced t
  unfolding reviewed_row
  advanced t k e = record {
    consistent = k;
    row_after = next;
    at = subst (λ (x : Reviewed AccountEnds). At id x.candidates next) (sym e) next-At;
    revision = refl;
    state = refl;
    decisions = ap (λ (x : Reviewed AccountEnds). x.decisions) e;
  }

  -- Neither row gives a pair.
  unrelated : is_identity_edge row ≡ false → is_identity_edge next ≡ false → Advanced decided
  unfolding reviewed_row
  unrelated n n' =
      advanced decided
        (record {
          keyed = decided-Keyed;
          grouped =
              pairs-same id s.account_candidates.decisions decided.account_candidates.decisions rows
                decided.account_candidates.candidates row next row-At next-At elsewhere s.members
                s.identities n n' c.grouped;
        })
        refl

  -- The candidate was confirmed, and is not any more.
  after_rebuild :
      (o : Outcome Exception (Unit {0}) × Tables)
      → Rebuilds
          (pairs_of decided.account_candidates.decisions decided.account_candidates.candidates)
          decided
          o
      → Advances {A = Option ℕ} (and_then o (λ _. pure none))
  after_rebuild (returned u, t) r =
      advanced t
        (record {
          keyed = subst (λ (x : Reviewed AccountEnds). Keyed x.candidates) (sym r.1) decided-Keyed;
          grouped =
              subst
                (λ (x : Reviewed AccountEnds).
                  Grouped (pairs_of x.decisions x.candidates) t.members t.identities)
                (sym r.1) r.0;
        })
        r.1
  after_rebuild (raised e, t) r = tt
  after_rebuild (unfinished, t) r = r

  unconfirmed :
      is_identity_edge next ≡ false
      → Advances (
          (rebuild_identity_component row.ends.subject_account_id row.ends.target_account_id
              >>= λ _. pure {A = Option ℕ} none)
            decided)
  unfolding ◌>>=◌
  unconfirmed n = after_rebuild _ (
      rebuild_identity_component-Rebuilds (pairs_of s.account_candidates.decisions rows)
        row.ends.subject_account_id row.ends.target_account_id decided c.grouped
        (pairs-Lessens id s.account_candidates.decisions decided.account_candidates.decisions rows
          decided.account_candidates.candidates row next row-At next-At elsewhere n))

  -- The accounts of a confirmed candidate are joined.
  module _ (same : is_same_identity row.ends.relation_kind ≡ true)
      (yes_ : is_confirmed request.state ≡ true) where
    target-IsPair :
        (target : ℕ) (t : Tables) (x : Targeted id next target decided t)
        → IsPair x.row row.ends.subject_account_id target
    unfolding is_identity_edge is_same_identity reviewed_row
    target-IsPair target t x =
        (ground (arith, same, yes_, x.state, x.relation), x.subject, x.has_target)

    after_join :
        (target : ℕ) (t : Tables) (x : Targeted id next target decided t)
        (o : Outcome Exception ℕ × Tables)
        → JoinsAccounts
            (pairs_of t.account_candidates.decisions t.account_candidates.candidates)
            row.ends.subject_account_id
            target
            t
            o
        → Advances {A = Option ℕ} (and_then o (λ i. pure (some i)))
    unfolding reviewed_row
    after_join target t x (returned i, u) j = record {
      row_after = x.row;
      at = subst (λ (y : Reviewed AccountEnds). At id y.candidates x.row) (sym j.3) x.at;
      revision = x.revision;
      state = x.state;
      decisions = ap (λ (y : Reviewed AccountEnds). y.decisions) j.3 ∙ x.decisions;
      consistent = record {
        keyed =
            subst (λ (y : Reviewed AccountEnds). Keyed y.candidates) (sym j.3)
              (Keyed-replaced id rows t.account_candidates.candidates x.row c.keyed
                (SameElsewhere-trans id rows decided.account_candidates.candidates
                  t.account_candidates.candidates elsewhere x.elsewhere)
                x.at);
        grouped =
            subst
              (λ (y : Reviewed AccountEnds).
                Grouped (pairs_of y.decisions y.candidates) u.members u.identities)
              (sym j.3) j.0;
      };
    }
    after_join target t x (raised e, u) j = tt
    after_join target t x (unfinished, u) j = j

    after_target :
        (o : Outcome Exception ℕ × Tables)
        → Post (λ target t. Targeted id next target decided t) (λ _ _. Unit {0}) o
        → Advances {A = Option ℕ} (
            and_then
              (and_then o
                (λ target. join_identity row.ends.subject_account_id target row.candidate_id k))
              (λ i. pure (some i)))
    after_target (returned target, t) x =
        after_join target t x
          (join_identity row.ends.subject_account_id target row.candidate_id k t)
          (join_identity-JoinsAccounts (pairs_of s.account_candidates.decisions rows)
            (pairs_of t.account_candidates.decisions t.account_candidates.candidates)
            row.ends.subject_account_id target row.candidate_id k t
            (subst (λ is. Grouped (pairs_of s.account_candidates.decisions rows) t.members is)
              (sym x.identities)
              (subst (λ ms. Grouped (pairs_of s.account_candidates.decisions rows) ms s.identities)
                (sym x.members) c.grouped))
            (pairs-Extends id s.account_candidates.decisions t.account_candidates.decisions rows
              t.account_candidates.candidates row x.row row-At x.at
              (SameElsewhere-trans id rows decided.account_candidates.candidates
                t.account_candidates.candidates elsewhere x.elsewhere)
              row.ends.subject_account_id target (target-IsPair target t x)
              (λ u v p. (sym p.1, sym (x.same_target v (unfold reviewed_row in p.2))))))
    after_target (raised e, t) x = tt
    after_target (unfinished, t) x = x

    confirmed_now :
        Advances ((confirm_identity row k >>= λ i. pure {A = Option ℕ} (some i)) decided)
    unfolding confirm_identity ◌>>=◌
    confirmed_now =
        after_target (target_of row decided) (
          target_of-Targets id row next decided next-At row-At.has_id (unfold reviewed_row in refl))

  pub follow-Advances : Advances (follow request.state row k decided)
  unfolding follow
  follow-Advances =
      by_test {A = Change (Option ℕ)} (λ m. Advances (m decided))
        (is_same_identity row.ends.relation_kind) _ _
        (λ e.
          by_test {A = Change (Option ℕ)} (λ m. Advances (m decided)) (is_confirmed request.state) _
            _ (λ y. confirmed_now e y)
            (λ n.
              by_test {A = Change (Option ℕ)} (λ m. Advances (m decided))
                (is_confirmed row.current_state) _ _
                (λ w. unconfirmed (unfold is_identity_edge reviewed_row in ground (arith, n)))
                (λ w.
                  unrelated (unfold is_identity_edge in ground (arith, w))
                    (unfold is_identity_edge reviewed_row in ground (arith, n)))))
        (λ e.
          unrelated (unfold is_identity_edge is_same_identity in ground (arith, e))
            (unfold is_identity_edge reviewed_row is_same_identity in ground (arith, e)))
