-- ===== src/Relationships.antt =====
-- relationships/review.py, and the writes of persistence/relationships.py that it calls: decisions and
-- status transitions are appended to logs, and the relationship follows them. Time stamps are left out.
pub mod Laws
use Prim.Native.String.{count}
use data_processing.Prelude.{
  ℕ, suc, String, Option, none, some, List, [], ◌∷◌, ◌++◌, Bool, true, false, ◌||◌, not, ◌&&◌,
  length, str_eq, ◌==◌, ltb, if◌then◌else◌,
}
use data_processing.Effect.{Outcome, returned, raised, unfinished, Step}
use data_processing.RemoteSync.Types.{Exception, value_error}
use data_processing.Persistence.Tables.{find, update}

pub data ReviewState : Type 0 where
  pending confirmed rejected : ReviewState

-- `EPISTEMIC_STATUSES`
pub data EpistemicStatus : Type 0 where
  observed verified derived inferred reviewed : EpistemicStatus

-- Rows of `relationships`, `relationship_review_decisions` and `relationship_status_history`.
pub record RelationshipRow : Type 0 where
  pub relationship_id : ℕ
  pub review_state : ReviewState
  pub epistemic_status : EpistemicStatus

pub record DecisionRow : Type 0 where
  pub decision_id : ℕ
  pub relationship_id : ℕ
  pub prior_state : ReviewState
  pub decision : ReviewState
  pub note : Option String

pub record HistoryRow : Type 0 where
  pub history_id : ℕ
  pub relationship_id : ℕ
  pub prior_status : EpistemicStatus
  pub new_status : EpistemicStatus
  pub cause : String

-- The tables, the ids that the next rows of the two logs get, and `last_insert_rowid()`, the id of the
-- row that was inserted last, into whichever table.
pub record Graph : Type 0 where
  pub relationships : List RelationshipRow
  pub decisions : List DecisionRow
  pub history : List HistoryRow
  pub next_decision : ℕ
  pub next_history : ℕ
  pub last_rowid : ℕ

abbrev pub Change : Type 0 → Type 0
Change A = Step Exception Graph A

-- `_DECISIONS`
unfoldable pub parse_decision : String → Option ReviewState
parse_decision decision =
    if str_eq decision "confirm"
    then some confirmed
    else if str_eq decision "reject"
    then some rejected
    else if str_eq decision "pending"
    then some pending
    else none

-- `validate_epistemic_status`
unfoldable pub parse_status : String → Option EpistemicStatus
parse_status status =
    if str_eq status "observed"
    then some observed
    else if str_eq status "verified"
    then some verified
    else if str_eq status "derived"
    then some derived
    else if str_eq status "inferred"
    then some inferred
    else if str_eq status "reviewed"
    then some reviewed
    else none

unfoldable pub status_code : EpistemicStatus → ℕ
status_code observed = 0
status_code verified = 1
status_code derived = 2
status_code inferred = 3
status_code reviewed = 4

unfoldable pub same_status : EpistemicStatus → EpistemicStatus → Bool
unfolding status_code
same_status a b = status_code a == status_code b

unfoldable pub is_confirmed : ReviewState → Bool
is_confirmed confirmed = true
is_confirmed _ = false

unfoldable pub is_relationship : ℕ → RelationshipRow → Bool
is_relationship id row = row.relationship_id == id

-- Whether a decision also moves the status.
unfoldable pub promotes : ReviewState → EpistemicStatus → Bool
unfolding is_confirmed same_status
promotes decision prior = is_confirmed decision && not (same_status prior reviewed)

-- The row after a decision.
unfoldable pub decided : ReviewState → RelationshipRow → RelationshipRow
unfolding promotes
decided decision row = record row {
  review_state = decision;
  epistemic_status =
      if promotes decision row.epistemic_status then reviewed else row.epistemic_status;
}

-- `INSERT INTO relationship_review_decisions`
unfoldable pub insert_decision : ℕ → ReviewState → ReviewState → Option String → Graph → Graph
insert_decision id prior decision note_text g = record g {
  decisions =
      g.decisions
      ++ record {
        decision_id = g.next_decision;
        relationship_id = id;
        prior_state = prior;
        decision = decision;
        note = note_text;
      }
        ∷ [];
  next_decision = suc g.next_decision;
  last_rowid = g.next_decision;
}

-- `INSERT INTO relationship_status_history`
unfoldable pub insert_history : ℕ → EpistemicStatus → EpistemicStatus → String → Graph → Graph
insert_history id prior new cause g = record g {
  history =
      g.history
      ++ record {
        history_id = g.next_history;
        relationship_id = id;
        prior_status = prior;
        new_status = new;
        cause = cause;
      }
        ∷ [];
  next_history = suc g.next_history;
  last_rowid = g.next_history;
}

-- `SELECT last_insert_rowid()`
last_insert_rowid : Change ℕ
last_insert_rowid g = (returned g.last_rowid, g)

-- The entry of a promotion, where the decision makes one.
unfoldable pub insert_promotion : ℕ → ReviewState → EpistemicStatus → Graph → Graph
unfolding promotes insert_history
insert_promotion id decision prior g =
    if promotes decision prior then insert_history id prior reviewed "review decision" g else g

unfoldable pub set_row : ℕ → (RelationshipRow → RelationshipRow) → Graph → Graph
unfolding update is_relationship
set_row id f g = record g { relationships = update (is_relationship id) f g.relationships }

-- `record_review_decision`: the entry of the log, the new state, and the promotion of the status.
decide : ℕ → ReviewState → Option String → Option RelationshipRow → Change ℕ
unfolding insert_decision insert_promotion set_row decided last_insert_rowid
decide id decision note_text none g = (raised (value_error "relationship not found"), g)
decide id decision note_text (some row) g = last_insert_rowid (
    insert_promotion id decision row.epistemic_status
      (set_row id (decided decision) (insert_decision id row.review_state decision note_text g)))

unfoldable pub record_review_decision : ℕ → ReviewState → Option String → Change ℕ
unfolding decide find is_relationship
record_review_decision id decision note_text g =
    decide id decision note_text (find (is_relationship id) g.relationships) g

unfoldable pub review_relationship : ℕ → String → Option String → Change ℕ
unfolding record_review_decision parse_decision
review_relationship id decision note_text g = elim (parse_decision decision) [
  | none ↦ (raised (value_error "unknown decision"), g)
  | some d ↦ record_review_decision id d note_text g
]

move : ℕ → EpistemicStatus → String → Option RelationshipRow → Change ℕ
unfolding set_row same_status insert_history last_insert_rowid
move id new cause none g = (raised (value_error "relationship not found"), g)
move id new cause (some row) g =
    if same_status row.epistemic_status new
    then (raised (value_error "relationship already has the status"), g)
    else last_insert_rowid (
        insert_history id row.epistemic_status new cause
          (set_row id (λ r. record r { epistemic_status = new }) g))

unfoldable pub record_status_transition : ℕ → EpistemicStatus → String → Change ℕ
unfolding move find is_relationship
record_status_transition id new cause g =
    move id new cause (find (is_relationship id) g.relationships) g

unfoldable pub transition_relationship_status : ℕ → String → String → Change ℕ
unfolding record_status_transition parse_status
transition_relationship_status id new_status cause g = elim (parse_status new_status) [
  | none ↦ (raised (value_error "unsupported epistemic status"), g)
  | some new ↦
      if str_eq cause "" || ltb 500 (count cause)
      then (raised (value_error "a transition cause of 1-500 characters is required"), g)
      else record_status_transition id new cause g
]
