-- ===== src/Identity/Rebuild/Edges.antt =====
-- discovery/review.py: the edges that a rebuild follows, and the accounts that it involves.
use data_processing.Prelude.{
  ℕ, zero, suc, Option, none, some, List, [], ◌∷◌, Bool, true, false, ◌&&◌, ◌||◌, not, ◌==◌,
  if◌then◌else◌,
}
use data_processing.Effect.{Outcome, returned, unfinished}
use data_processing.RemoteSync.Types.{Exception}
use data_processing.Relationships.{is_confirmed}
use data_processing.Identity.{
  AccountEnds, Candidate, Decision, Member, contains, identity_of, officially_linked, same_identity,
}

-- A confirmed candidate with a target, and the latest decision that confirmed it.
pub record Edge : Type 0 where
  pub candidate_id : ℕ
  pub subject : ℕ
  pub target : ℕ
  pub decision_id : Option ℕ

-- The place of the last decision that confirms the candidate, counted from 1 after `n` rows.
unfoldable pub last_confirmed : ℕ → ℕ → List Decision → Option ℕ
unfolding is_confirmed
last_confirmed id n [] = none
last_confirmed id n (row ∷ rows) = elim (last_confirmed id (suc n) rows) [
  | some d ↦ some d
  | none ↦ if row.candidate_id == id && is_confirmed row.decision then some (suc n) else none
]

unfoldable pub is_identity_edge : Candidate AccountEnds → Bool
unfolding is_confirmed
is_identity_edge row =
    is_confirmed row.current_state
    && elim row.ends.relation_kind [ same_identity ↦ true | officially_linked ↦ false ]

unfoldable pub edge_of : List Decision → Candidate AccountEnds → Option Edge
unfolding is_identity_edge last_confirmed
edge_of decisions row = elim row.ends.target_account_id [
  | none ↦ none
  | some target ↦
      if is_identity_edge row
      then some (record {
        candidate_id = row.candidate_id;
        subject = row.ends.subject_account_id;
        target = target;
        decision_id = last_confirmed row.candidate_id 0 decisions;
      })
      else none
]

-- The query of the edges.
unfoldable pub edges_of : List Decision → List (Candidate AccountEnds) → List Edge
unfolding edge_of
edges_of decisions [] = []
edges_of decisions (row ∷ rows) = elim (edge_of decisions row) [
  | none ↦ edges_of decisions rows
  | some edge ↦ edge ∷ edges_of decisions rows
]

-- `involved.add`
unfoldable pub include : ℕ → List ℕ → List ℕ
unfolding contains
include a involved = if contains involved a then involved else a ∷ involved

unfoldable pub is_touched : List ℕ → Edge → Bool
unfolding contains
is_touched involved edge = contains involved edge.subject || contains involved edge.target

unfoldable pub is_inside : List ℕ → Edge → Bool
unfolding contains
is_inside involved edge = contains involved edge.subject && contains involved edge.target

-- One pass over the edges: what is involved after it, and whether it changed.
unfoldable pub sweep : List Edge → List ℕ × Bool → List ℕ × Bool
unfolding is_touched is_inside include
sweep [] state = state
sweep (edge ∷ edges) (involved, changed) = sweep edges (
    if is_touched involved edge && not (is_inside involved edge)
    then (include edge.target (include edge.subject involved), true)
    else (involved, changed))

-- `while changed`: the passes are repeated until one changes nothing.
unfoldable pub close_over : ℕ → List Edge → List ℕ → Outcome Exception (List ℕ)
unfolding sweep
close_over zero edges involved = unfinished
close_over (suc fuel) edges involved =
    let rest = close_over fuel edges (sweep edges (involved, false)).0 in
    if (sweep edges (involved, false)).1 then rest else returned involved

-- `target_account_id or -1`, where no account has the id -1.
unfoldable pub or_minus_one : Option ℕ → Option ℕ
or_minus_one (some zero) = none
or_minus_one target = target

-- Whether the identity is one of the two.
unfoldable pub is_one_of : Option ℕ → Option ℕ → ℕ → Bool
is_one_of (some a) (some b) id = a == id || b == id
is_one_of (some a) none id = a == id
is_one_of none (some b) id = b == id
is_one_of none none id = false

unfoldable pub identity_of_target : Option ℕ → List Member → Option ℕ
unfolding identity_of
identity_of_target none rows = none
identity_of_target (some target) rows = identity_of target rows

-- The rows of a table that pass a test.
unfoldable pub keep : {A : Type 0} → (A → Bool) → List A → List A
keep p [] = []
keep p (x ∷ xs) = if p x then x ∷ keep p xs else keep p xs

-- The members of the identities of both accounts.
unfoldable pub old_members : ℕ → Option ℕ → List Member → List Member
unfolding keep is_one_of identity_of_target identity_of or_minus_one
old_members subject target rows =
    keep
      (λ row.
        is_one_of (identity_of subject rows) (identity_of_target (or_minus_one target) rows)
          row.identity_id)
      rows

unfoldable pub include_all : List Member → List ℕ → List ℕ
unfolding include
include_all [] involved = involved
include_all (row ∷ rows) involved = include_all rows (include row.account_id involved)

unfoldable pub include_target : Option ℕ → List ℕ → List ℕ
unfolding include
include_target none involved = involved
include_target (some target) involved = include target involved

-- What is involved before the edges are followed.
unfoldable pub first_involved : ℕ → Option ℕ → List Member → List ℕ
unfolding include_target include_all old_members
first_involved subject target rows =
    include_all (old_members subject target rows) (include_target target (subject ∷ []))
