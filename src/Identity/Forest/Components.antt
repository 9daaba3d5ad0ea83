-- ===== src/Identity/Forest/Components.antt =====
-- The components that are collected are the groups of the roots.
use mathlib.Core.List.{Memᴰ}
use data_processing.Prelude.{ℕ, List, [], ◌∷◌, ◌≡◌, ◌<◌, ◌+◌, refl, ap, ◌∙◌, arith, length}
use data_processing.Effect.{Outcome, returned, raised, unfinished, and_then, ◌>>=◌}
use data_processing.RemoteSync.Types.{Exception}
use data_processing.Lineage.{Parents, parent_of}
use data_processing.Lineage.Leads.{Connected, self}
use data_processing.Identity.Forest.{keys, append_to, collect, join_edges, components_of}
use data_processing.Identity.Forest.Ranked.{Ranked}
use data_processing.Identity.Forest.Nodes.{nodes_after}
use data_processing.Identity.Forest.Edge.{find_root-Found, Joins}
use data_processing.Identity.Forest.Joins.{join_edges-Joins}

-- The accounts in the groups of their roots.
unfoldable pub group : (ℕ → ℕ) → List ℕ → List (ℕ × List ℕ) → List (ℕ × List ℕ)
unfolding append_to
group R [] components = components
group R (a ∷ accounts) components = group R accounts (append_to (R a) a components)

collect-group :
    (pairs : List (ℕ × ℕ)) (R rank : ℕ → ℕ) (bound fuel : ℕ) (accounts : List ℕ)
    (components : List (ℕ × List ℕ)) (m : Parents ℕ)
    → Ranked pairs R rank bound m
    → bound < fuel
    → (collect fuel accounts components m).0 ≡ returned (group R accounts components)
unfolding collect group ◌>>=◌
collect-group pairs R rank bound fuel [] components m w l = refl
collect-group pairs R rank bound fuel (a ∷ accounts) components m w l =
    let f = find_root-Found pairs R rank bound fuel a m w l in
    ground (
      arith,
      f.result,
      collect-group pairs R rank bound fuel accounts (append_to (R a) a components) f.after f.ranked
          l,
    )

-- Roots that edges give.
pub record Classes (edges : List (ℕ × ℕ)) (R : ℕ → ℕ) : Type 0 where
  pub linked : (k : ℕ) → Connected edges k (R k)
  pub joined : (x y : ℕ) → Memᴰ (x, y) edges → R x ≡ R y

pub record Collected (edges : List (ℕ × ℕ)) (o : Outcome Exception (List (ℕ × List ℕ)))
    : Type 0 where
  pub roots : ℕ → ℕ
  pub classes : Classes edges roots
  pub result : o ≡ returned (group roots (nodes_after edges []) [])

after_join :
    (fuel : ℕ) (edges : List (ℕ × ℕ)) (o : Outcome Exception (Unit {0}) × Parents ℕ)
    (f : Unit {0} → Parents ℕ → Outcome Exception (List (ℕ × List ℕ)) × Parents ℕ)
    → length edges < fuel
    → ((m : Parents ℕ) → (f tt m).0 ≡ (collect fuel (keys m) [] m).0)
    → Joins edges (λ n. n) 0 edges [] o
    → Collected edges (and_then o f).0
after_join fuel edges (returned u, m) f l e p = record {
  roots = p.roots;
  classes = record { linked = p.ranked.linked; joined = p.joined };
  result =
      e m
      ∙ collect-group edges p.roots p.ranks (0 + length edges) fuel (keys m) [] m p.ranked
          (omega (arith, l))
      ∙ ap (λ ns. returned (group p.roots ns [])) p.nodes;
}
after_join fuel edges (raised x, m) f l e p = absurd p
after_join fuel edges (unfinished, m) f l e p = absurd p

-- The empty dictionary.
Ranked-empty : (edges : List (ℕ × ℕ)) → Ranked edges (λ n. n) (λ n. 0) 0 []
unfolding parent_of
Ranked-empty edges = record {
  closed = λ k v h. ground (arith, h);
  same_root = λ k v h. ground (arith, h);
  fixed = λ k h. ground (arith, h);
  absent = λ k h. (refl, refl);
  lower = λ k v h n. ground (arith, h);
  bounded = λ k. omega arith;
  linked = λ k. self;
}

pub components_of-Collected :
    (fuel : ℕ) (edges : List (ℕ × ℕ))
    → length edges < fuel
    → Collected edges (components_of fuel edges []).0
unfolding components_of ◌>>=◌
components_of-Collected fuel edges l =
    after_join fuel edges (join_edges fuel edges []) (λ _ m. collect fuel (keys m) [] m) l
      (λ m. refl)
      (join_edges-Joins edges (λ n. n) (λ n. 0) 0 fuel edges [] (Ranked-empty edges)
        (omega (arith, l)) (λ x y h. h))
