-- ===== src/Identity.antt =====
-- discovery/review.py: the tables that a review of match candidates reads and writes. Ids are natural
-- numbers, and time stamps are left out.
pub mod Digits
pub mod Forest
pub mod Confirm
pub mod Rebuild
pub mod Review
pub mod Closure
pub mod Groups
pub mod Joining
pub mod Confirming
pub mod Inserting
pub mod Placing
pub mod Components
pub mod Involved
pub mod Kept
pub mod Remaining
pub mod Rebuilding
pub mod Rebuilt
pub mod Rows
pub mod Pairs
pub mod Changes
pub mod Deciding
pub mod Targeting
pub mod Following
pub mod Reviewing
pub mod History
pub mod Calls
pub mod Revisions
pub mod Conflicts
use data_processing.Prelude.{
  ℕ, suc, String, Option, none, some, List, [], ◌∷◌, Bool, true, false, ◌==◌, ltb, if◌then◌else◌,
}
use data_processing.Effect.{Outcome, returned, raised, unfinished, Step}
use data_processing.RemoteSync.Types.{Exception}
use data_processing.Relationships.{ReviewState}

pub data CandidateKind : Type 0 where
  of_account of_attribution of_post : CandidateKind

pub data RelationKind : Type 0 where
  same_identity officially_linked : RelationKind

-- The columns of the three tables of candidates that every review reads; `ends` has the others.
pub record Candidate (E : Type 0) : Type 0 where
  pub candidate_id : ℕ
  pub current_state : ReviewState
  pub evidence_generation : ℕ
  pub review_revision : ℕ
  pub ends : E

-- The columns of `account_match_candidates` that the review of an account reads too.
pub record AccountEnds : Type 0 where
  pub subject_account_id : ℕ
  pub target_account_id : Option ℕ
  pub target_reference_id : Option ℕ
  pub relation_kind : RelationKind

-- A row of a table of decisions, from which none is deleted: its id is its place.
pub record Decision : Type 0 where
  pub candidate_id : ℕ
  pub prior_state : ReviewState
  pub decision : ReviewState
  pub evidence_generation : ℕ
  pub note : Option String

-- A table of candidates with its table of decisions.
pub record Reviewed (E : Type 0) : Type 0 where
  pub candidates : List (Candidate E)
  pub decisions : List Decision

-- A row of `identity_accounts`.
pub record Member : Type 0 where
  pub identity_id : ℕ
  pub account_id : ℕ
  pub account_candidate_id : ℕ
  pub decision_id : Option ℕ

pub record AccountRow : Type 0 where
  pub account_id : ℕ
  pub platform_id : ℕ
  pub native_account_id : String
  pub canonical_url : Option String
  pub availability : String

pub record Reference : Type 0 where
  pub platform_reference_id : ℕ
  pub platform_id : ℕ
  pub object_kind : String
  pub identifier_kind : String
  pub native_identifier : String
  pub canonical_target_url : String
  pub resolved_account_id : Option ℕ

-- `identities` has the ids of its rows.
pub record Tables : Type 0 where
  pub account_candidates : Reviewed AccountEnds
  pub attribution_candidates : Reviewed (Unit {0})
  pub post_candidates : Reviewed (Unit {0})
  pub references : List Reference
  pub accounts : List AccountRow
  pub identities : List ℕ
  pub members : List Member

abbrev pub Change : Type 0 → Type 0
Change A = Step Exception Tables A

unfoldable pub is_candidate : {E : Type 0} → ℕ → Candidate E → Bool
is_candidate id row = row.candidate_id == id

unfoldable pub larger : ℕ → ℕ → ℕ
larger a b = if ltb a b then b else a

-- The row id that SQLite gives a new row: one more than the largest.
unfoldable pub new_id : List ℕ → ℕ
unfolding larger
new_id [] = 1
new_id (id ∷ ids) = larger (suc id) (new_id ids)

unfoldable pub contains : List ℕ → ℕ → Bool
contains [] a = false
contains (x ∷ xs) a = if x == a then true else contains xs a

-- The identity of an account: `UNIQUE (account_id)` lets it have one at most.
unfoldable pub identity_of : ℕ → List Member → Option ℕ
identity_of account [] = none
identity_of account (row ∷ rows) =
    if row.account_id == account then some row.identity_id else identity_of account rows

-- A raise rolls the transaction back.
unfoldable pub rolled_back :
    {A : Type 0} → Tables → Outcome Exception A × Tables → Outcome Exception A × Tables
rolled_back s (returned a, s') = (returned a, s')
rolled_back s (raised e, s') = (raised e, s)
rolled_back s (unfinished, s') = (unfinished, s')

unfoldable pub in_transaction : {A : Type 0} → Change A → Change A
unfolding rolled_back
in_transaction m s = rolled_back s (m s)
