-- ===== src/Relationships/Laws.antt =====
-- A relationship follows the latest decision and the latest transition.
use data_processing.Prelude.{
  ℕ, String, Option, some, List, [], ◌∷◌, ◌++◌, true, false, ◌≡◌, arith, if◌then◌else◌,
}
use data_processing.Effect.{returned}
use data_processing.Persistence.Tables.{find, update}
use data_processing.Persistence.Rows.{find-update}
use data_processing.Relationships.{
  ReviewState, EpistemicStatus, RelationshipRow, pending, confirmed, rejected, reviewed,
  same_status, status_code, is_confirmed, Graph, promotes, decided, is_relationship,
  record_review_decision, record_status_transition,
}

found_decided :
    (id : ℕ) (decision : ReviewState) (rows : List RelationshipRow) (row : RelationshipRow)
    → find (is_relationship id) rows ≡ some row
    → find (is_relationship id) (update (is_relationship id) (decided decision) rows)
      ≡ some (decided decision row)
unfolding is_relationship decided
found_decided id decision rows row h =
    find-update (is_relationship id) (decided decision) rows row (λ r k. k) h

abbrev pub moved : EpistemicStatus → RelationshipRow → RelationshipRow
moved to row = record row { epistemic_status = to }

found_moved :
    (id : ℕ) (to : EpistemicStatus) (rows : List RelationshipRow) (row : RelationshipRow)
    → find (is_relationship id) rows ≡ some row
    → find (is_relationship id) (update (is_relationship id) (moved to) rows) ≡ some (moved to row)
unfolding is_relationship
found_moved id to rows row h = find-update (is_relationship id) (moved to) rows row (λ r k. k) h

-- The row after a decision: only a confirmation moves the status, to `reviewed`.
abbrev pub followed : ReviewState → RelationshipRow → RelationshipRow
followed decision row = record {
  relationship_id = row.relationship_id;
  review_state = decision;
  epistemic_status = elim decision [
    | pending ↦ row.epistemic_status
    | confirmed ↦ reviewed
    | rejected ↦ row.epistemic_status
  ];
}

reviewed_already :
    (status : EpistemicStatus) → same_status status reviewed ≡ true → status ≡ reviewed
unfolding same_status status_code
reviewed_already status h = ground (arith, h)

status-decided :
    (decision : ReviewState) (status : EpistemicStatus)
    → (if promotes decision status then reviewed else status)
      ≡ elim decision [ pending ↦ status | confirmed ↦ reviewed | rejected ↦ status ]
unfolding promotes is_confirmed
status-decided pending status = ground arith
status-decided confirmed status = ground (arith, reviewed_already status)
status-decided rejected status = ground arith

decided-followed :
    (decision : ReviewState) (row : RelationshipRow) → decided decision row ≡ followed decision row
unfolding decided
decided-followed decision row = λ i. record {
  relationship_id = row.relationship_id;
  review_state = decision;
  epistemic_status = status-decided decision row.epistemic_status i;
}

-- Where a decision on a relationship is recorded, the relationship has the decision as its state, and the
-- status `reviewed` if the decision confirms it, else the status from before; and the log of decisions
-- has one entry more, with the next id and the state from before.
pub record_review_decision-follows :
    (id new_id : ℕ) (decision : ReviewState) (note_text : Option String) (row : RelationshipRow)
    (g g' : Graph)
    → find (is_relationship id) g.relationships ≡ some row
    → record_review_decision id decision note_text g ≡ (returned new_id, g')
    → (find (is_relationship id) g'.relationships ≡ some (followed decision row))
      × (g'.decisions
          ≡ g.decisions
            ++ record {
              decision_id = g.next_decision;
              relationship_id = id;
              prior_state = row.review_state;
              decision = decision;
              note = note_text;
            }
              ∷ [])
unfolding record_review_decision
record_review_decision-follows id new_id decision note_text row g g' f h = (
  ground
      (arith, h, f, found_decided id decision g.relationships row f, decided-followed decision row),
  ground (arith, h, f),
)

-- Where a transition is recorded, the relationship has the new status, which is another than before,
-- and the history has one entry more, with the next id and the status from before.
pub record_status_transition-follows :
    (id new_id : ℕ) (to : EpistemicStatus) (cause : String) (row : RelationshipRow) (g g' : Graph)
    → find (is_relationship id) g.relationships ≡ some row
    → record_status_transition id to cause g ≡ (returned new_id, g')
    → (find (is_relationship id) g'.relationships ≡ some (moved to row))
      × (g'.history
          ≡ g.history
            ++ record {
              history_id = g.next_history;
              relationship_id = id;
              prior_status = row.epistemic_status;
              new_status = to;
              cause = cause;
            }
              ∷ [])
      × (same_status row.epistemic_status to ≡ false)
unfolding record_status_transition
record_status_transition-follows id new_id to cause row g g' f h = (
  ground (arith, h, f, found_moved id to g.relationships row f),
  ground (arith, h, f),
  ground (arith, h, f),
)
