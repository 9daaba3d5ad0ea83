-- ===== src/Tests/Lineages.antt =====
-- The lineages of a small catalog.
use mathlib.Core.List.{Memᴰ}
use data_processing.Prelude.{
  ◌≤◌, length, List, [], ◌∷◌, ◌≡◌, ◌⊎◌, ◌↔◌, ◌&&◌, refl, sym, subst, false, true,
}
use data_processing.Effect.{returned}
use data_processing.Effect.Triple.{Post}
use data_processing.RemoteSync.Types.{other}
use data_processing.Lineage.{NodeOrder, Parents}
use data_processing.Lineage.Leads.{Connected, pair, back}
use data_processing.Lineage.Order.{tuple_order}
use data_processing.Lineage.Roots.{
  Node, Catalog, EdgeRow, lineage_roots, dependence, default_policy, all_in, relationship_kinds,
  epistemic_statuses,
}
use data_processing.Lineage.Roots.Answer.{Covers}
use data_processing.Lineage.Roots.Dependence.{
  lineage_roots-ends, lineage_roots-Connected, lineage_roots-first, lineage_roots-order,
}

-- About 900 calls fit under the default limit of 1000.
abbrev node_order : NodeOrder Node
unfolding tuple_order
node_order = tuple_order 900

abbrev media : Node
media = ("media_occurrence", 7)

abbrev repost : EdgeRow
repost = record {
  relation_kind = "reposted_from";
  epistemic_status = "observed";
  review_state = "pending";
  subject = ("post", 2);
  target = ("post", 1);
}

-- Post 2 is a repost of post 1, and post 3 stands alone.
abbrev example_catalog : Catalog
example_catalog = record {
  posts = 1 ∷ 2 ∷ 3 ∷ [];
  occurrences = (7, 2) ∷ [];
  works = [];
  representations = [];
  relationships = repost ∷ record repost { relation_kind = "parent_of"; target = ("post", 3) } ∷ [];
}

abbrev example_roots : List (Node × Node)
example_roots =
    (("media_occurrence", 7), ("media_occurrence", 7))
    ∷ (("post", 1), ("media_occurrence", 7))
    ∷ (("post", 2), ("media_occurrence", 7))
    ∷ (("post", 3), ("post", 3))
    ∷ []

abbrev example_parents : Parents Node
example_parents =
    (("post", 1), ("media_occurrence", 7))
    ∷ (("post", 2), ("media_occurrence", 7))
    ∷ (("post", 3), ("post", 3))
    ∷ (("media_occurrence", 7), ("media_occurrence", 7))
    ∷ []

lineage_test :
    lineage_roots node_order default_policy example_catalog
    ≡ (returned example_roots, example_parents)
unfolding lineage_roots default_policy tuple_order
lineage_test = refl

-- The same rows in another order.
abbrev reordered_catalog : Catalog
reordered_catalog = record example_catalog {
  relationships = record repost { relation_kind = "parent_of"; target = ("post", 3) } ∷ repost ∷ [];
}

reordered_test :
    lineage_roots node_order default_policy reordered_catalog
    ≡ (returned example_roots, example_parents)
unfolding lineage_roots default_policy tuple_order
reordered_test = refl

first_pair : Memᴰ (("media_occurrence", 7), ("post", 2)) (dependence default_policy example_catalog)
unfolding dependence default_policy
first_pair = Memᴰ.head refl

second_pair : Memᴰ (("post", 2), ("post", 1)) (dependence default_policy example_catalog)
unfolding dependence default_policy
second_pair = Memᴰ.tail (Memᴰ.head refl)

same_pairs : dependence default_policy example_catalog ≡ dependence default_policy reordered_catalog
unfolding dependence default_policy
same_pairs = refl

lineage_roots-ends_example :
    Post
      (λ roots _. Covers node_order default_policy example_catalog roots)
      (λ e m.
        ((all_in default_policy.relation_kinds relationship_kinds
            && all_in default_policy.epistemic_statuses epistemic_statuses)
          ≡ false)
        ⊎ ((e ≡ other "RecursionError") × (node_order.recursion_limit ≤ length m)))
      (lineage_roots node_order default_policy example_catalog)
lineage_roots-ends_example = lineage_roots-ends node_order default_policy example_catalog

lineage_roots-Connected_example :
    (media ≡ media) ↔ Connected (dependence default_policy example_catalog) ("post", 1) ("post", 2)
lineage_roots-Connected_example =
    lineage_roots-Connected node_order default_policy example_catalog example_roots example_parents
      ("post", 1) ("post", 2) ("media_occurrence", 7) ("media_occurrence", 7) lineage_test
      (Memᴰ.tail (Memᴰ.head refl)) (Memᴰ.tail (Memᴰ.tail (Memᴰ.head refl)))

lineage_roots-first_example :
    (media ≡ repost.subject) ⊎ (node_order.before ("media_occurrence", 7) ("post", 2) ≡ true)
lineage_roots-first_example =
    lineage_roots-first node_order default_policy example_catalog example_roots example_parents
      ("post", 1) ("post", 2) ("media_occurrence", 7) lineage_test (Memᴰ.tail (Memᴰ.head refl))
      (back (pair second_pair))

lineage_roots-order_example : media ≡ media
lineage_roots-order_example =
    lineage_roots-order node_order default_policy default_policy example_catalog reordered_catalog
      example_roots example_roots example_parents example_parents ("post", 2)
      ("media_occurrence", 7) ("media_occurrence", 7) lineage_test reordered_test
      (λ a b h. subst (λ ps. Memᴰ (a, b) ps) same_pairs h)
      (λ a b h. subst (λ ps. Memᴰ (a, b) ps) (sym same_pairs) h)
      (Memᴰ.tail (Memᴰ.tail (Memᴰ.head refl))) (Memᴰ.tail (Memᴰ.tail (Memᴰ.head refl)))
