-- ===== src/Identity/Forest/Ranked.antt =====
-- The trees of the dictionary `parent`, with the root of each node, and a rank that falls on the way up.
use data_processing.Prelude.{
  ℕ, suc, none, some, List, [], ◌∷◌, ◌≡◌, ◌≢◌, ◌≤◌, ◌<◌, ◌==◌, sym, subst, inl, inr, if◌then◌else◌,
  arith, Bool-cases, ==_iff,
}
use data_processing.Lineage.{Parents, parent_of, put, add}
use data_processing.Lineage.Leads.{Connected, back, join, HasKey}
use data_processing.Lineage.Compress.{parent_of-put, parent_of-put_other}
use data_processing.Identity.Forest.{ids}

pub record Ranked (pairs : List (ℕ × ℕ)) (R rank : ℕ → ℕ) (bound : ℕ) (m : Parents ℕ) : Type 0 where
  pub closed : (k v : ℕ) → parent_of ids k m ≡ some v → HasKey ids m v
  pub same_root : (k v : ℕ) → parent_of ids k m ≡ some v → R v ≡ R k
  pub fixed : (k : ℕ) → parent_of ids k m ≡ some k → (R k ≡ k) × (rank k ≡ 0)
  pub absent : (k : ℕ) → parent_of ids k m ≡ none → (R k ≡ k) × (rank k ≡ 0)
  pub lower : (k v : ℕ) → parent_of ids k m ≡ some v → v ≢ k → rank v < rank k
  pub bounded : (k : ℕ) → rank k ≤ bound
  pub linked : (k : ℕ) → Connected pairs k (R k)

-- What is read after a write.
pub parent_after :
    (s f k : ℕ) (m : Parents ℕ)
    → parent_of ids k (put ids s f m) ≡ (if s == k then some f else parent_of ids k m)
parent_after s f k m = ground (arith, parent_of-put ids s f m, parent_of-put_other ids s f k m)

-- What is read after a node is added.
pub parent_added :
    (a k : ℕ) (m : Parents ℕ)
    → parent_of ids k (add ids a m)
      ≡ elim (parent_of ids k m) [ some v ↦ some v | none ↦ if a == k then some a else none ]
unfolding parent_of add
parent_added a k [] = ground arith
parent_added a k ((j, q) ∷ m) = ground (arith, parent_added a k m)

put-HasKey : (s f k : ℕ) (m : Parents ℕ) → HasKey ids m k → HasKey ids (put ids s f m) k
put-HasKey s f k m h z = absurd (h (ground (arith, z, parent_after s f k m)))

module _ (pairs : List (ℕ × ℕ)) (R rank : ℕ → ℕ) (bound : ℕ) (m : Parents ℕ) where
  -- A new node is its own root.
  pub Ranked-add : (a : ℕ) → Ranked pairs R rank bound m → Ranked pairs R rank bound (add ids a m)
  Ranked-add a w = record {
    closed = λ k v h z. ground (arith, h, z, parent_added a k m, parent_added a v m, w.closed k v);
    same_root = λ k v h. ground (arith, h, parent_added a k m, w.same_root k v);
    fixed = λ k h. ground (arith, h, parent_added a k m, w.fixed k, w.absent k);
    absent = λ k h. ground (arith, h, parent_added a k m, w.absent k);
    lower = λ k v h n. ground (arith, h, n, parent_added a k m, w.lower k v);
    bounded = w.bounded;
    linked = w.linked;
  }

  -- A node hung under its grandparent.
  pub Ranked-halve :
      (a p g : ℕ)
      → Ranked pairs R rank bound m
      → parent_of ids a m ≡ some p
      → p ≢ a
      → parent_of ids p m ≡ some g
      → Ranked pairs R rank bound (put ids a g m)
  Ranked-halve a p g w e ne f = record {
    closed = λ k v h z.
        ground
          (arith, h, z, parent_after a g k m, parent_after a g v m, w.closed k v, w.closed p g f);
    same_root = λ k v h.
        ground
          (arith, h, parent_after a g k m, w.same_root k v, w.same_root a p e, w.same_root p g f);
    fixed = λ k h.
        ground (arith, h, parent_after a g k m, w.fixed k, w.lower a p e ne, w.lower p g f, ne);
    absent = λ k h. ground (arith, h, parent_after a g k m, w.absent k);
    lower = λ k v h n.
        ground
          (arith, h, n, parent_after a g k m, w.lower k v, w.lower a p e ne, w.lower p g f, ne);
    bounded = w.bounded;
    linked = w.linked;
  }

-- The roots after the tree of `s` is hung under `f`.
unfoldable pub merged : (ℕ → ℕ) → ℕ → ℕ → ℕ → ℕ
merged R f s n = if R n == s then f else R n

unfoldable pub raised_rank : (ℕ → ℕ) → (ℕ → ℕ) → ℕ → ℕ → ℕ
raised_rank R rank s n = if R n == s then suc (rank n) else rank n

merged-linked :
    (pairs : List (ℕ × ℕ)) (R : ℕ → ℕ) (f s k : ℕ)
    → ((n : ℕ) → Connected pairs n (R n))
    → Connected pairs f s
    → Connected pairs k (merged R f s k)
unfolding merged
merged-linked pairs R f s k l c = elim (Bool-cases (R k == s)) [
  | inl e ↦
      subst (λ x. Connected pairs k (if x then f else R k)) (sym e)
        (join (subst (λ x. Connected pairs k x) ((==_iff (R k) s).0 e) (l k)) (back c))
  | inr e ↦ subst (λ x. Connected pairs k (if x then f else R k)) (sym e) (l k)
]

pub Ranked-hang :
    (pairs : List (ℕ × ℕ)) (R rank : ℕ → ℕ) (bound : ℕ) (m : Parents ℕ) (f s : ℕ)
    → Ranked pairs R rank bound m
    → parent_of ids f m ≡ some f
    → parent_of ids s m ≡ some s
    → f ≢ s
    → Connected pairs f s
    → Ranked pairs (merged R f s) (raised_rank R rank s) (suc bound) (put ids s f m)
unfolding merged raised_rank
Ranked-hang pairs R rank bound m f s w rf rs ne c = record {
  closed =
      λ k v h z. ground (arith, h, z, parent_after s f k m, parent_after s f v m, w.closed k v, rf);
  same_root = λ k v h.
      ground (arith, h, ne, parent_after s f k m, w.same_root k v, w.fixed f rf, w.fixed s rs);
  fixed = λ k h. ground (arith, h, ne, parent_after s f k m, w.fixed k, w.fixed s rs);
  absent = λ k h. ground (arith, h, rs, parent_after s f k m, w.absent k);
  lower = λ k v h n. ground (
    arith,
    h,
    n,
    ne,
    parent_after s f k m,
    w.lower k v,
    w.same_root k v,
    w.fixed f rf,
    w.fixed s rs,
  );
  bounded = λ k. ground (arith, w.bounded k);
  linked = λ k. unfold merged in merged-linked pairs R f s k w.linked c;
}
