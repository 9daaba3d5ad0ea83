-- ===== src/Lineage/Roots/Nodes.antt =====
-- The sorted nodes are the keys of the dictionary.
use mathlib.Core.List.{Memᴰ}
use mathlib.Core.List.Memᴰ
use data_processing.Prelude.{List, [], ◌∷◌, inl, inr, refl, subst, arith, All, either_way}
use data_processing.Lineage.{NodeOrder, Parents, parent_of}
use data_processing.Lineage.Leads.{HasKey}
use data_processing.Lineage.Compress.{differs}
use data_processing.Lineage.Find.{node_cases}
use data_processing.Lineage.Roots.{Node, insert_node, nodes}

module _ (o : NodeOrder Node) where
  open o use {same, before}

  insert_node-All :
      (P : Node → Type 0) (n : Node) (ks : List Node) → P n → All P ks → All P (insert_node o n ks)
  unfolding insert_node
  insert_node-All P n [] p h = (p, tt)
  insert_node-All P n (k ∷ ks) p h =
      either_way (All P) (before k n) (k ∷ insert_node o n ks) (n ∷ k ∷ ks)
        (h.0, insert_node-All P n ks p h.1) (p, h)

  parent_of-here : (k p : Node) (rest : Parents Node) → HasKey o ((k, p) ∷ rest) k
  unfolding parent_of
  parent_of-here k p rest = ground (arith, o.same_refl k)

  parent_of-older :
      (k p j : Node) (rest : Parents Node) → HasKey o rest j → HasKey o ((k, p) ∷ rest) j
  unfolding parent_of
  parent_of-older k p j rest h = ground (arith, h)

  pub nodes-keys : (m : Parents Node) → All (HasKey o m) (nodes o m)
  unfolding nodes
  nodes-keys [] = tt
  nodes-keys ((k, p) ∷ rest) =
      insert_node-All (HasKey o ((k, p) ∷ rest)) k (nodes o rest) (parent_of-here k p rest)
        (older (nodes o rest) (nodes-keys rest))
    where
      older : (ks : List Node) → All (HasKey o rest) ks → All (HasKey o ((k, p) ∷ rest)) ks
      older [] h = tt
      older (j ∷ ks) h = (parent_of-older k p j rest h.0, older ks h.1)

  insert_node-new : (n : Node) (ks : List Node) → Memᴰ n (insert_node o n ks)
  unfolding insert_node
  insert_node-new n [] = Memᴰ.head refl
  insert_node-new n (k ∷ ks) =
      either_way (Memᴰ n) (before k n) (k ∷ insert_node o n ks) (n ∷ k ∷ ks)
        (Memᴰ.tail (insert_node-new n ks)) (Memᴰ.head refl)

  insert_node-old : (n x : Node) (ks : List Node) → Memᴰ x ks → Memᴰ x (insert_node o n ks)
  unfolding insert_node
  insert_node-old n x [] h = absurd (Memᴰ.not-nil h)
  insert_node-old n x (k ∷ ks) h =
      either_way (Memᴰ x) (before k n) (k ∷ insert_node o n ks) (n ∷ k ∷ ks)
        (elim (Memᴰ.cases_cons h) [
          | inl e ↦ Memᴰ.head e
          | inr q ↦ Memᴰ.tail (insert_node-old n x ks q)
        ])
        (Memᴰ.tail h)

  pub nodes-Mem : (x : Node) (m : Parents Node) → HasKey o m x → Memᴰ x (nodes o m)
  unfolding nodes parent_of
  nodes-Mem x [] h = absurd (h refl)
  nodes-Mem x ((k, p) ∷ rest) h = elim (node_cases o k x) [
    | inl e ↦
        subst (λ z. Memᴰ z (insert_node o k (nodes o rest))) e (insert_node-new k (nodes o rest))
    | inr d ↦
        insert_node-old k x (nodes o rest)
          (nodes-Mem x rest (λ z. h (ground (arith, z, differs o k x d))))
  ]
