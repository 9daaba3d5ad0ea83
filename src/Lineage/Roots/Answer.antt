-- ===== src/Lineage/Roots/Answer.antt =====
-- The answer of `lineage_components`: its roots are those of the least equivalence that has the pairs of
-- the selected rows.
use mathlib.Core.List.{Memᴰ}
use data_processing.Prelude.{
  List, [], ◌∷◌, Bool, true, false, not, ◌&&◌, ◌≡◌, ◌⊎◌, inl, inr, refl, sym, subst, map, All,
  if◌then◌else◌,
}
use data_processing.Effect.{Outcome, returned, raised, unfinished, and_then, ◌>>=◌}
use data_processing.Effect.Triple.{Post}
use data_processing.RemoteSync.Types.{Exception}
use data_processing.Lineage.{NodeOrder, Parents, add_all}
use data_processing.Lineage.Find.{Overflow}
use data_processing.Lineage.Leads.{HasKey, Sound, Leads-key}
use data_processing.Lineage.Union.{Grown, Kept-Grown}
use data_processing.Lineage.Partition.{
  AllJoined, AllJoined-keep, Extended, add_all-Grown, add_all-keys, empty-Sound, pairs-Connected,
}
use data_processing.Lineage.Roots.{
  Node, Catalog, DependencePolicy, find_all, nodes, join_rows, all_roots, lineage_roots, dependence,
  post_node, all_in, relationship_kinds, epistemic_statuses,
}
use data_processing.Lineage.Roots.Nodes.{nodes-Mem, nodes-keys}
use data_processing.Lineage.Roots.Laws.{Rooted, Roots, Loops, join_rows-Loops, find_all-Roots}

module _ (o : NodeOrder Node) where
  open o use {before}

  -- A node with its root is among these.
  abbrev pub Listed : List (Node × Node) → Node → Type 0
  Listed roots n = Memᴰ n (map (λ p. p.0) roots)

  -- All posts, and both objects of all pairs.
  abbrev pub Covers : DependencePolicy → Catalog → List (Node × Node) → Type 0
  Covers policy c roots =
      All (Listed roots) (map post_node c.posts)
      × All (λ p. Listed roots p.0 × Listed roots p.1) (dependence policy c)

  module _ (policy : DependencePolicy) (c : Catalog) where
    abbrev pub pairs : List (Node × Node)
    pairs = dependence policy c

    -- What the result is.
    pub record Answer (roots : List (Node × Node)) (m : Parents Node) : Type 0 where
      pub sound : Sound o pairs m
      pub joined : AllJoined o pairs pairs m
      pub rooted : Rooted o pairs roots m
      pub covers : Covers policy c roots

    abbrev pub Answers : Outcome Exception (List (Node × Node)) × Parents Node → Type 0
    Answers r =
        Post Answer
          (λ e m.
            ((all_in policy.relation_kinds relationship_kinds
                && all_in policy.epistemic_statuses epistemic_statuses)
              ≡ false)
            ⊎ Overflow o e m)
          r

    posts : Parents Node
    posts = add_all o (map post_node c.posts) []

    listed :
        (m : Parents Node) (roots : List (Node × Node)) (x : Node)
        → map (λ p. p.0) roots ≡ nodes o m
        → HasKey o m x
        → Listed roots x
    listed m roots x e h = subst (λ ns. Memᴰ x ns) (sym e) (nodes-Mem o x m h)

    cover :
        (m : Parents Node) (roots : List (Node × Node)) (todo : List (Node × Node))
        → map (λ p. p.0) roots ≡ nodes o m
        → AllJoined o pairs todo m
        → All (λ p. Listed roots p.0 × Listed roots p.1) todo
    cover m roots [] e j = tt
    cover m roots ((x, y) ∷ todo) e ((r, lx, ly), j) = (
      (listed m roots x e (Leads-key o m lx), listed m roots y e (Leads-key o m ly)),
      cover m roots todo e j,
    )

    cover-All :
        (m m' : Parents Node) (roots : List (Node × Node)) (ns : List Node)
        → map (λ p. p.0) roots ≡ nodes o m'
        → ((k : Node) → HasKey o m k → HasKey o m' k)
        → All (HasKey o m) ns
        → All (Listed roots) ns
    cover-All m m' roots [] e f h = tt
    cover-All m m' roots (n ∷ ns) e f h =
        (listed m' roots n e (f n h.0), cover-All m m' roots ns e f h.1)

    after-Roots :
        (m : Parents Node) (r : Outcome Exception (List (Node × Node)) × Parents Node)
        → Grown o pairs posts m
        → AllJoined o pairs pairs m
        → Roots o pairs m (nodes o m) r
        → Answers r
    unfolding posts
    after-Roots m (returned roots, t) g j (k, h, e) = record {
      sound = k.sound;
      joined = AllJoined-keep o pairs pairs m t (Kept-Grown o pairs m t k).joined j;
      rooted = h;
      covers = (
        cover-All posts m roots (map post_node c.posts) e g.keys
            (add_all-keys o pairs (map post_node c.posts) [] (empty-Sound o pairs)),
        cover m roots pairs e j,
      );
    }
    after-Roots m (raised x, t) g j q = inr q
    after-Roots m (unfinished, t) g j q = absurd q

    after_rows :
        (r : Outcome Exception (Unit {0}) × Parents Node)
        → Extended o pairs posts pairs r
        → Answers (and_then r (λ _. all_roots o))
    unfolding all_roots
    after_rows (returned u, m) (g, j) =
        after-Roots m (find_all o (nodes o m) m) g j
          (find_all-Roots o pairs (nodes o m) m g.sound (nodes-keys o m))
    after_rows (raised x, t) q = inr q
    after_rows (unfinished, t) q = absurd q

    known_or_not :
        {R : Type 0} (P : R → Type 0) (s t : Bool) (x y z : R)
        → ((s && t) ≡ false → P x)
        → ((s && t) ≡ false → P y)
        → P z
        → P (if not s then x else if not t then y else z)
    known_or_not P false t x y z f g h = f refl
    known_or_not P true false x y z f g h = g refl
    known_or_not P true true x y z f g h = h

    pub lineage_roots-Answers : Answers (lineage_roots o policy c)
    unfolding lineage_roots posts Loops ◌>>=◌
    lineage_roots-Answers =
        known_or_not Answers (all_in policy.relation_kinds relationship_kinds)
          (all_in policy.epistemic_statuses epistemic_statuses) _ _ _ (λ h. inl h) (λ h. inl h)
          (after_rows (join_rows o policy c posts) (
            join_rows-Loops o pairs policy c (pairs-Connected o pairs) posts
              (add_all-Grown o pairs (map post_node c.posts) [] (empty-Sound o pairs)).sound))
