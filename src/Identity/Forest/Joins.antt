-- ===== src/Identity/Forest/Joins.antt =====
-- The loop over the edges joins the ends of each, and nothing that the edges do not connect.
use mathlib.Core.List.{Memᴰ}
use mathlib.Core.List.Memᴰ
use data_processing.Prelude.{
  ℕ, suc, List, [], ◌∷◌, ◌≡◌, ◌<◌, ◌+◌, refl, ap, ◌∙◌, inl, inr, arith, length,
}
use data_processing.Effect.{Outcome, returned, raised, unfinished, and_then, ◌>>=◌}
use data_processing.RemoteSync.Types.{Exception}
use data_processing.Lineage.{Parents}
use data_processing.Identity.Forest.{join_ends, join_edges}
use data_processing.Identity.Forest.Ranked.{Ranked}
use data_processing.Identity.Forest.Nodes.{nodes_after}
use data_processing.Identity.Forest.Edge.{Joins, Partition, Ranked-wider, join_ends-Joins}

module _ (pairs : List (ℕ × ℕ)) where
  Partition-nil :
      (R rank : ℕ → ℕ) (bound : ℕ) (m : Parents ℕ)
      → Ranked pairs R rank bound m
      → Partition pairs R bound [] m m
  unfolding nodes_after
  Partition-nil R rank bound m w = record {
    roots = R;
    ranks = rank;
    ranked = Ranked-wider pairs R rank bound (bound + length {A = ℕ × ℕ} []) m w (omega arith);
    joined = λ x y h. absurd (Memᴰ.not-nil h);
    coarser = λ x y h. h;
    nodes = refl;
  }

  -- The ends of the first edge stay joined.
  joined_cons :
      (a b x y : ℕ) (edges : List (ℕ × ℕ)) (R S : ℕ → ℕ)
      → ((u v : ℕ) → Memᴰ {A = ℕ × ℕ} (u, v) ((a, b) ∷ []) → R u ≡ R v)
      → ((u v : ℕ) → R u ≡ R v → S u ≡ S v)
      → ((u v : ℕ) → Memᴰ (u, v) edges → S u ≡ S v)
      → Memᴰ {A = ℕ × ℕ} (x, y) ((a, b) ∷ edges)
      → S x ≡ S y
  joined_cons a b x y edges R S one keep rest h = elim (Memᴰ.cases_cons h) [
    | inl e ↦ keep x y (one x y (Memᴰ.head e))
    | inr t ↦ rest x y t
  ]

  Partition-cons :
      (R : ℕ → ℕ) (bound a b : ℕ) (edges : List (ℕ × ℕ)) (m m' : Parents ℕ)
      (p : Partition pairs R bound ((a, b) ∷ []) m m')
      (o : Outcome Exception (Unit {0}) × Parents ℕ)
      → Joins pairs p.roots (suc bound) edges m' o
      → Joins pairs R bound ((a, b) ∷ edges) m o
  unfolding nodes_after
  Partition-cons R bound a b edges m m' p (returned u, t) q = record {
    roots = q.roots;
    ranks = q.ranks;
    ranked =
        Ranked-wider pairs q.roots q.ranks (suc bound + length edges)
          (bound + length {A = ℕ × ℕ} ((a, b) ∷ edges)) t q.ranked (omega arith);
    joined = λ x y h. joined_cons a b x y edges p.roots q.roots p.joined q.coarser q.joined h;
    coarser = λ x y h. q.coarser x y (p.coarser x y h);
    nodes = q.nodes ∙ ap (nodes_after edges) p.nodes;
  }
  Partition-cons R bound a b edges m m' p (raised x, t) q = q
  Partition-cons R bound a b edges m m' p (unfinished, t) q = q

  then-Joins :
      (R : ℕ → ℕ) (bound a b : ℕ) (edges : List (ℕ × ℕ)) (m : Parents ℕ)
      (o : Outcome Exception (Unit {0}) × Parents ℕ)
      (f : Unit {0} → Parents ℕ → Outcome Exception (Unit {0}) × Parents ℕ)
      → Joins pairs R bound ((a, b) ∷ []) m o
      → ((S rank : ℕ → ℕ) (t : Parents ℕ)
          → Ranked pairs S rank (suc bound) t
          → Joins pairs S (suc bound) edges t (f tt t))
      → Joins pairs R bound ((a, b) ∷ edges) m (and_then o f)
  then-Joins R bound a b edges m (returned u, t) f p rest =
      Partition-cons R bound a b edges m t p (f tt t) (
        rest p.roots p.ranks t (
          Ranked-wider pairs p.roots p.ranks (bound + length {A = ℕ × ℕ} ((a, b) ∷ [])) (suc bound)
            t p.ranked (omega arith)))
  then-Joins R bound a b edges m (raised x, t) f p rest = p
  then-Joins R bound a b edges m (unfinished, t) f p rest = p

  -- The loop over edges of the graph ends, joins the ends of each and keeps what was joined.
  pub join_edges-Joins :
      (R rank : ℕ → ℕ) (bound fuel : ℕ) (edges : List (ℕ × ℕ)) (m : Parents ℕ)
      → Ranked pairs R rank bound m
      → bound + length edges < fuel
      → ((x y : ℕ) → Memᴰ (x, y) edges → Memᴰ (x, y) pairs)
      → Joins pairs R bound edges m (join_edges fuel edges m)
  unfolding join_edges ◌>>=◌
  join_edges-Joins R rank bound fuel [] m w l c = Partition-nil R rank bound m w
  join_edges-Joins R rank bound fuel ((a, b) ∷ edges) m w l c =
      then-Joins R bound a b edges m (join_ends fuel a b m) (λ _. join_edges fuel edges)
        (join_ends-Joins pairs R rank bound fuel a b m w (omega (arith, l))
          (c a b (Memᴰ.head refl)))
        (λ S rank' t w'.
          join_edges-Joins S rank' (suc bound) fuel edges t w' (omega (arith, l))
            (λ x y h. c x y (Memᴰ.tail h)))
