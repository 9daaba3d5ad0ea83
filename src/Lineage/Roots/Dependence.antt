-- ===== src/Lineage/Roots/Dependence.antt =====
-- What the lineages of `lineage_components` are.
use mathlib.Core.List.{Memᴰ}
use data_processing.Prelude.{
  List, ◌≤◌, length, ◌&&◌, ◌≡◌, ◌⊎◌, inl, inr, ◌↔◌, sym, subst, arith, true, false,
}
use data_processing.Effect.{returned}
use data_processing.Effect.Triple.{Post, Post-weaken}
use data_processing.RemoteSync.Types.{other}
use data_processing.Lineage.{NodeOrder, Parents}
use data_processing.Lineage.Leads.{Connected, pair, self, back, join, Leads, Leads-Connected}
use data_processing.Lineage.Partition.{All-mem}
use data_processing.Lineage.Classes.{Leads-Connected_iff, Leads-first}
use data_processing.Lineage.Roots.{
  Node, Catalog, DependencePolicy, lineage_roots, dependence, all_in, relationship_kinds,
  epistemic_statuses,
}
use data_processing.Lineage.Roots.Answer.{Answer, Answers, Covers, lineage_roots-Answers}

Connected-mono :
    {N : Type 0} (ps qs : List (N × N)) {x y : N}
    → ((a b : N) → Memᴰ (a, b) ps → Memᴰ (a, b) qs)
    → Connected ps x y
    → Connected qs x y
Connected-mono ps qs f (pair {a} {b} h) = pair (f a b h)
Connected-mono ps qs f self = self
Connected-mono ps qs f (back c) = back (Connected-mono ps qs f c)
Connected-mono ps qs f (join c d) = join (Connected-mono ps qs f c) (Connected-mono ps qs f d)

module _ (o : NodeOrder Node) where
  open o use {before}

  -- `lineage_components` ends for every policy and catalog. Where it returns, every post, and both objects
  -- of every pair of a row, has a root. It raises only where the policy names an unknown kind or status, or
  -- a RecursionError, and this only where the union-find has at least as many objects as nested calls of
  -- `find` fit under the recursion limit.
  pub lineage_roots-ends :
      (policy : DependencePolicy) (c : Catalog)
      → Post
          (λ roots _. Covers o policy c roots)
          (λ e m.
            ((all_in policy.relation_kinds relationship_kinds
                && all_in policy.epistemic_statuses epistemic_statuses)
              ≡ false)
            ⊎ ((e ≡ other "RecursionError") × (o.recursion_limit ≤ length m)))
          (lineage_roots o policy c)
  lineage_roots-ends policy c =
      Post-weaken (lineage_roots o policy c) (λ roots m a. a.covers) (λ _ _ h. h)
        (lineage_roots-Answers o policy c)

  the_answer :
      (policy : DependencePolicy) (c : Catalog) (roots : List (Node × Node)) (m : Parents Node)
      → lineage_roots o policy c ≡ (returned roots, m)
      → Answer o policy c roots m
  the_answer policy c roots m h = subst (Answers o policy c) h (lineage_roots-Answers o policy c)

  leads :
      (policy : DependencePolicy) (c : Catalog) (roots : List (Node × Node)) (m : Parents Node)
      (x r : Node)
      → Answer o policy c roots m
      → Memᴰ (x, r) roots
      → Leads o m x r
  leads policy c roots m x r a h = All-mem (λ p. Leads o m p.0 p.1) roots (x, r) a.rooted h

  -- Where `lineage_components` returns, two objects have one root exactly where the least equivalence that
  -- has the pairs of the selected rows connects them.
  pub lineage_roots-Connected :
      (policy : DependencePolicy) (c : Catalog) (roots : List (Node × Node)) (m : Parents Node)
      (x y r s : Node)
      → lineage_roots o policy c ≡ (returned roots, m)
      → Memᴰ (x, r) roots
      → Memᴰ (y, s) roots
      → (r ≡ s) ↔ Connected (dependence policy c) x y
  lineage_roots-Connected policy c roots m x y r s h hx hy =
      let a = the_answer policy c roots m h in
      Leads-Connected_iff o m (dependence policy c) x y r s a.sound a.joined
        (leads policy c roots m x r a hx) (leads policy c roots m y s a hy)

  -- Where `lineage_components` returns, the root of an object is the first, in the order of the nodes, of
  -- all objects that are connected with it.
  pub lineage_roots-first :
      (policy : DependencePolicy) (c : Catalog) (roots : List (Node × Node)) (m : Parents Node)
      (x y r : Node)
      → lineage_roots o policy c ≡ (returned roots, m)
      → Memᴰ (x, r) roots
      → Connected (dependence policy c) x y
      → (r ≡ y) ⊎ (before r y ≡ true)
  lineage_roots-first policy c roots m x y r h hx k =
      let a = the_answer policy c roots m h in
      Leads-first o m (dependence policy c) x y r a.sound a.joined (leads policy c roots m x r a hx)
        k

  root-Connected :
      (policy : DependencePolicy) (c : Catalog) (roots : List (Node × Node)) (m : Parents Node)
      (x r : Node)
      → lineage_roots o policy c ≡ (returned roots, m)
      → Memᴰ (x, r) roots
      → Connected (dependence policy c) x r
  root-Connected policy c roots m x r h hx =
      let a = the_answer policy c roots m h in
      Leads-Connected o (dependence policy c) m a.sound (leads policy c roots m x r a hx)

  -- Two catalogs with the same pairs, in any order and number, give an object the same root, where both
  -- calls return and list the object.
  pub lineage_roots-order :
      (policy other_policy : DependencePolicy) (c d : Catalog)
      (roots other_roots : List (Node × Node)) (m n : Parents Node) (x r s : Node)
      → lineage_roots o policy c ≡ (returned roots, m)
      → lineage_roots o other_policy d ≡ (returned other_roots, n)
      → ((a b : Node) → Memᴰ (a, b) (dependence policy c) → Memᴰ (a, b) (dependence other_policy d))
      → ((a b : Node) → Memᴰ (a, b) (dependence other_policy d) → Memᴰ (a, b) (dependence policy c))
      → Memᴰ (x, r) roots
      → Memᴰ (x, s) other_roots
      → r ≡ s
  lineage_roots-order policy other_policy c d roots other_roots m n x r s h k f g hx kx =
      let there : Connected (dependence other_policy d) x r =
        Connected-mono (dependence policy c) (dependence other_policy d) f
          (root-Connected policy c roots m x r h hx) in
      let here : Connected (dependence policy c) x s =
        Connected-mono (dependence other_policy d) (dependence policy c) g
          (root-Connected other_policy d other_roots n x s k kx) in
      one_first r s (lineage_roots-first policy c roots m x s r h hx here)
        (lineage_roots-first other_policy d other_roots n x r s k kx there)
    where
      one_first :
          (a b : Node) → (a ≡ b) ⊎ (before a b ≡ true) → (b ≡ a) ⊎ (before b a ≡ true) → a ≡ b
      one_first a b (inl e) q = e
      one_first a b (inr p) (inl e) = sym e
      one_first a b (inr p) (inr q) =
          absurd (ground (arith, o.before_trans a b a p q, o.before_irrefl a))
