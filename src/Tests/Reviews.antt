-- ===== src/Tests/Reviews.antt =====
-- The review of relationships at concrete inputs.
use data_processing.Prelude.{none, some, [], ◌∷◌, ◌≡◌, refl, false}
use data_processing.Effect.{returned}
use data_processing.Persistence.Tables.{find}
use data_processing.Relationships.{
  pending, confirmed, observed, verified, reviewed, RelationshipRow, Graph, is_relationship,
  same_status, record_review_decision, record_status_transition,
}
use data_processing.Relationships.Laws.{
  moved, record_review_decision-follows, record_status_transition-follows,
}

abbrev example_row : RelationshipRow
example_row = record { relationship_id = 5; review_state = pending; epistemic_status = observed }

abbrev example_graph : Graph
example_graph = record {
  relationships = example_row ∷ [];
  decisions = [];
  history = [];
  next_decision = 1;
  next_history = 4;
  last_rowid = 0;
}

abbrev decided_graph : Graph
decided_graph = (record_review_decision 5 confirmed none example_graph).1

abbrev moved_graph : Graph
moved_graph = (record_status_transition 5 verified "checked" example_graph).1

found_test : find (is_relationship 5) example_graph.relationships ≡ some example_row
unfolding find is_relationship
found_test = refl

decided_test : record_review_decision 5 confirmed none example_graph ≡ (returned 4, decided_graph)
unfolding record_review_decision
decided_test = refl

moved_test : record_status_transition 5 verified "checked" example_graph ≡ (returned 4, moved_graph)
unfolding record_status_transition
moved_test = refl

record_review_decision-follows_example :
    (find (is_relationship 5) decided_graph.relationships
      ≡ some
          (record { relationship_id = 5; review_state = confirmed; epistemic_status = reviewed }))
    × (decided_graph.decisions
        ≡ record {
          decision_id = 1;
          relationship_id = 5;
          prior_state = pending;
          decision = confirmed;
          note = none;
        }
          ∷ [])
record_review_decision-follows_example =
    record_review_decision-follows 5 4 confirmed none example_row example_graph decided_graph
      found_test decided_test

record_status_transition-follows_example :
    (find (is_relationship 5) moved_graph.relationships ≡ some (moved verified example_row))
    × (moved_graph.history
        ≡ record {
          history_id = 4;
          relationship_id = 5;
          prior_status = observed;
          new_status = verified;
          cause = "checked";
        }
          ∷ [])
    × (same_status observed verified ≡ false)
record_status_transition-follows_example =
    record_status_transition-follows 5 4 verified "checked" example_row example_graph moved_graph
      found_test moved_test
