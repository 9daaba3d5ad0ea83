-- ===== src/Identity/Rebuild.antt =====
-- discovery/review.py: `rebuild_identity_component`.
pub mod Edges
unfoldable pub use Edges.*
use data_processing.Prelude.{
  ℕ, zero, suc, Option, none, some, List, [], ◌∷◌, ◌++◌, map, Bool, true, false, ◌&&◌, ◌||◌, not,
  length, ◌==◌, if◌then◌else◌,
}
use data_processing.Effect.{Outcome, returned, raised, unfinished, pure, of_outcome, ◌>>=◌, ◌>>◌}
use data_processing.RemoteSync.Types.{Exception, other}
use data_processing.Relationships.{is_confirmed}
use data_processing.Identity.{
  AccountEnds, Candidate, Change, Decision, Member, contains, identity_of, officially_linked,
  same_identity,
}
use data_processing.Identity.Confirm.{identity_for}
use data_processing.Identity.Forest.{components_of}

-- The identity of the first account that had one which is not used again already.
unfoldable pub reusable : List Member → List ℕ → List ℕ → Option ℕ
unfolding identity_of contains
reusable old used [] = none
reusable old used (a ∷ accounts) = elim (identity_of a old) [
  | none ↦ reusable old used accounts
  | some id ↦ if contains used id then reusable old used accounts else some id
]

-- `next(edge for edge in edges if account_id in ...)`
unfoldable pub evidence_of : ℕ → List Edge → Option Edge
evidence_of a [] = none
evidence_of a (edge ∷ edges) =
    if edge.subject == a || edge.target == a then some edge else evidence_of a edges

-- The row of an account with its evidence. A second row of an account would fail a check.
unfoldable pub insert_rebuilt : ℕ → ℕ → Option Edge → Change (Unit {0})
unfolding identity_of
insert_rebuilt identity a none s = (raised (other "StopIteration"), s)
insert_rebuilt identity a (some edge) s = elim (identity_of a s.members) [
  | some id ↦ (raised (other "IntegrityError"), s)
  | none ↦ (
    returned tt,
    record s {
      members =
          s.members
          ++ record {
            identity_id = identity;
            account_id = a;
            account_candidate_id = edge.candidate_id;
            decision_id = edge.decision_id;
          }
            ∷ [];
    },
  )
]

unfoldable pub insert_accounts : List Edge → ℕ → List ℕ → Change (Unit {0})
unfolding ◌>>=◌ insert_rebuilt evidence_of
insert_accounts edges identity [] = pure tt
insert_accounts edges identity (a ∷ accounts) = do
  insert_rebuilt identity a (evidence_of a edges)
  insert_accounts edges identity accounts

-- The loop over the components.
unfoldable pub insert_components :
    List Edge → List Member → List ℕ → List (ℕ × List ℕ) → Change (Unit {0})
unfolding ◌>>=◌ identity_for reusable insert_accounts
insert_components edges old used [] = pure tt
insert_components edges old used ((root, accounts) ∷ rest) = do
  identity ← identity_for (reusable old used accounts)
  insert_accounts edges identity accounts
  insert_components edges old (identity ∷ used) rest

unfoldable pub delete_members : List ℕ → Change (Unit {0})
unfolding keep contains
delete_members involved s = (
  returned tt,
  record s { members = keep (λ row. not (contains involved row.account_id)) s.members },
)

unfoldable pub has_member : List Member → ℕ → Bool
has_member [] id = false
has_member (row ∷ rows) id = if row.identity_id == id then true else has_member rows id

unfoldable pub delete_identities : Change (Unit {0})
unfolding keep has_member
delete_identities s =
    (returned tt, record s { identities = keep (has_member s.members) s.identities })

abbrev pub ends_of : List Edge → List (ℕ × ℕ)
ends_of edges = map (λ (edge : Edge). (edge.subject, edge.target)) edges

-- The components of the edges that touch what is involved.
unfoldable pub involved_components : List Edge → Outcome Exception (List (ℕ × List ℕ))
unfolding components_of
involved_components edges = (components_of (suc (length edges)) (ends_of edges) []).0

-- What follows the loop `while changed`. The subject is always involved, so that the early return for
-- an empty set is never taken.
unfoldable pub rebuild_involved : List Edge → List Member → List ℕ → Change (Unit {0})
unfolding ◌>>=◌ delete_members involved_components insert_components delete_identities keep
    is_touched
rebuild_involved edges old involved = do
  delete_members involved
  components ← of_outcome (involved_components (keep (is_touched involved) edges))
  insert_components (keep (is_touched involved) edges) old [] components
  delete_identities

unfoldable pub rebuild_identity_component : ℕ → Option ℕ → Change (Unit {0})
unfolding ◌>>=◌ close_over rebuild_involved first_involved edges_of old_members
rebuild_identity_component subject target s =
    let edges = edges_of s.account_candidates.decisions s.account_candidates.candidates in
    (do
      involved ←
          of_outcome
            (close_over (suc (length edges)) edges (first_involved subject target s.members))
      rebuild_involved edges (old_members subject target s.members) involved)
      s
