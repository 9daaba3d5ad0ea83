-- ===== src/Lineage/Roots.antt =====
-- relationships/dependence.py: `lineage_components`, up to the roots of all objects. A catalog holds the
-- rows that its queries read.
pub mod Laws
pub mod Nodes
pub mod Answer
pub mod Dependence
use data_processing.Prelude.{
  ℕ, String, Option, none, some, List, [], ◌∷◌, ◌++◌, Bool, true, false, not, ◌&&◌, ◌||◌, map,
  str_eq, if◌then◌else◌,
}
use data_processing.Effect.{Outcome, returned, raised, Step, pure, ◌>>=◌, ◌>>◌}
use data_processing.RemoteSync.Types.{Exception, value_error}
use data_processing.Lineage.{NodeOrder, Parents, add, find, union, union_all, add_all}

-- `_Node`
abbrev pub Node : Type 0
Node = String × ℕ

pub record EdgeRow : Type 0 where
  pub relation_kind : String
  pub epistemic_status : String
  pub review_state : String
  pub subject : Node
  pub target : Node

-- `posts` (post_id), `media_occurrences` (media_occurrence_id, post_id), `works` (work_id,
-- origin_post_id), `work_representations` (work_id, media_occurrence_id), and `relationships` by id.
pub record Catalog : Type 0 where
  pub posts : List ℕ
  pub occurrences : List (ℕ × ℕ)
  pub works : List (ℕ × ℕ)
  pub representations : List (ℕ × ℕ)
  pub relationships : List EdgeRow

-- The keyword arguments.
pub record DependencePolicy : Type 0 where
  pub relation_kinds : List String
  pub epistemic_statuses : List String
  pub include_rejected : Bool

unfoldable pub is_in : String → List String → Bool
is_in s [] = false
is_in s (t ∷ rest) = str_eq s t || is_in s rest

unfoldable pub all_in : List String → List String → Bool
unfolding is_in
all_in [] known = true
all_in (s ∷ rest) known = is_in s known && all_in rest known

-- The keys of `RELATIONSHIP_KINDS`
unfoldable pub relationship_kinds : List String
relationship_kinds =
    "same_bytes" ∷ "same_work" ∷ "thumbnail_of" ∷ "reposted_from" ∷ "parent_of" ∷ "page_of"
    ∷ "variant_of" ∷ "derived_from" ∷ "reencoded_from" ∷ "resized_from" ∷ "cropped_from"
    ∷ "censored_variant_of" ∷ "edited_from" ∷ "transcoded_from" ∷ "extracted_from" ∷ []

-- `EPISTEMIC_STATUSES`
unfoldable pub epistemic_statuses : List String
epistemic_statuses = "observed" ∷ "verified" ∷ "derived" ∷ "inferred" ∷ "reviewed" ∷ []

-- `DESCENT_KINDS`
unfoldable pub descent_kinds : List String
descent_kinds =
    "reposted_from" ∷ "derived_from" ∷ "variant_of" ∷ "reencoded_from" ∷ "resized_from"
    ∷ "cropped_from" ∷ "censored_variant_of" ∷ "edited_from" ∷ "transcoded_from" ∷ "extracted_from"
    ∷ "thumbnail_of" ∷ []

-- `EQUIVALENCE_KINDS`
unfoldable pub equivalence_kinds : List String
equivalence_kinds = "same_bytes" ∷ "same_work" ∷ []

-- `CONCLUSION_STATUSES`
unfoldable pub conclusion_statuses : List String
conclusion_statuses = "observed" ∷ "verified" ∷ "derived" ∷ "reviewed" ∷ []

-- The default arguments, with `DEPENDENCE_KINDS`.
unfoldable pub default_policy : DependencePolicy
unfolding descent_kinds equivalence_kinds conclusion_statuses
default_policy = record {
  relation_kinds = descent_kinds ++ equivalence_kinds;
  epistemic_statuses = conclusion_statuses;
  include_rejected = false;
}

-- The condition of the query on `relationships`
unfoldable pub is_selected : DependencePolicy → EdgeRow → Bool
unfolding is_in
is_selected policy row =
    is_in row.relation_kind policy.relation_kinds
    && is_in row.epistemic_status policy.epistemic_statuses
    && (policy.include_rejected || not (str_eq row.review_state "rejected"))

-- The endpoints of the selected rows.
unfoldable pub edges : DependencePolicy → List EdgeRow → List (Node × Node)
unfolding is_selected
edges policy [] = []
edges policy (row ∷ rest) =
    let later = edges policy rest in
    if is_selected policy row then (row.subject, row.target) ∷ later else later

abbrev pub post_node : ℕ → Node
post_node id = ("post", id)

abbrev pub occurrence_anchor : ℕ × ℕ → Node × Node
occurrence_anchor (id, post) = (("media_occurrence", id), ("post", post))

abbrev pub work_anchor : ℕ × ℕ → Node × Node
work_anchor (id, post) = (("work", id), ("post", post))

abbrev pub representation_anchor : ℕ × ℕ → Node × Node
representation_anchor (id, occurrence) = (("work", id), ("media_occurrence", occurrence))

-- All pairs that are joined.
unfoldable pub dependence : DependencePolicy → Catalog → List (Node × Node)
unfolding edges
dependence policy c =
    map occurrence_anchor c.occurrences
    ++ (map work_anchor c.works
        ++ (map representation_anchor c.representations ++ edges policy c.relationships))

module _ (o : NodeOrder Node) where
  open o use {before}

  -- The loop over the rows of `relationships`
  unfoldable pub connect_edges : List (Node × Node) → Step Exception (Parents Node) (Unit {0})
  unfolding add union ◌>>=◌
  connect_edges [] = pure tt
  connect_edges ((subject, target) ∷ rest) =
      λ m. (do union o subject target; connect_edges rest) (add o target (add o subject m))

  -- `sorted(self._parent)`
  unfoldable pub insert_node : Node → List Node → List Node
  insert_node n [] = n ∷ []
  insert_node n (k ∷ rest) = if before k n then k ∷ insert_node n rest else n ∷ k ∷ rest

  unfoldable pub nodes : Parents Node → List Node
  unfolding insert_node
  nodes [] = []
  nodes ((k, p) ∷ rest) = insert_node k (nodes rest)

  -- `roots[node] = components.find(node)` for the nodes in their order.
  unfoldable pub find_all : List Node → Step Exception (Parents Node) (List (Node × Node))
  unfolding find ◌>>=◌
  find_all [] = pure []
  find_all (n ∷ rest) = do found ← find o n; later ← find_all rest; pure ((n, found) ∷ later)

  -- The loops over the catalog's rows.
  unfoldable pub join_rows : DependencePolicy → Catalog → Step Exception (Parents Node) (Unit {0})
  unfolding union_all connect_edges edges ◌>>=◌
  join_rows policy c = do
    union_all o (map occurrence_anchor c.occurrences)
    union_all o (map work_anchor c.works)
    union_all o (map representation_anchor c.representations)
    connect_edges (edges policy c.relationships)

  -- The roots of all nodes.
  unfoldable pub all_roots : Step Exception (Parents Node) (List (Node × Node))
  unfolding find_all nodes
  all_roots m = find_all (nodes m) m

  unfoldable pub lineage_roots :
      DependencePolicy → Catalog → Outcome Exception (List (Node × Node)) × Parents Node
  unfolding all_in relationship_kinds epistemic_statuses add_all join_rows all_roots ◌>>=◌
  lineage_roots policy c =
      if not (all_in policy.relation_kinds relationship_kinds)
      then (raised (value_error "unknown relationship kinds in dependence policy"), [])
      else if not (all_in policy.epistemic_statuses epistemic_statuses)
      then (raised (value_error "unknown epistemic statuses in dependence policy"), [])
      else (do join_rows policy c; all_roots) (add_all o (map post_node c.posts) [])
