-- ===== src/Identity/Forest/Nodes.antt =====
-- The nodes that the edges add to the dictionary, each once.
use data_processing.Prelude.{
  ℕ, List, [], ◌∷◌, ◌++◌, Bool, true, false, ◌≡◌, refl, sym, ap, inl, inr, subst, Bool-cases,
  if◌then◌else◌, ◌==◌, arith,
}
use data_processing.Lineage.{Parents, parent_of, add}
use data_processing.Lineage.Leads.{HasKey}
use data_processing.Identity.{contains}
use data_processing.Identity.Forest.{ids, keys}

unfoldable pub add_node : ℕ → List ℕ → List ℕ
unfolding contains
add_node a nodes = if contains nodes a then nodes else nodes ++ a ∷ []

-- The nodes after the edges.
unfoldable pub nodes_after : List (ℕ × ℕ) → List ℕ → List ℕ
unfolding add_node
nodes_after [] nodes = nodes
nodes_after ((a, b) ∷ edges) nodes = nodes_after edges (add_node b (add_node a nodes))

add_node-cons :
    (a j : ℕ) (nodes : List ℕ)
    → add_node a (j ∷ nodes) ≡ (if j == a then j ∷ nodes else j ∷ add_node a nodes)
unfolding add_node contains
add_node-cons a j nodes = ground arith

pub keys-add : (a : ℕ) (m : Parents ℕ) → keys (add ids a m) ≡ add_node a (keys m)
unfolding add
keys-add a [] = unfold add_node contains in refl
keys-add a ((j, q) ∷ m) = ground (arith, keys-add a m, add_node-cons a j (keys m))

pub HasKey→contains : (a : ℕ) (m : Parents ℕ) → HasKey ids m a → contains (keys m) a ≡ true
unfolding parent_of contains
HasKey→contains a [] h = absurd (h refl)
HasKey→contains a ((j, q) ∷ m) h = ground (arith, HasKey→contains a m, h)

pub contains→HasKey : (a : ℕ) (m : Parents ℕ) → contains (keys m) a ≡ true → HasKey ids m a
unfolding parent_of contains
contains→HasKey a [] h = absurd (ground (arith, h))
contains→HasKey a ((j, q) ∷ m) h = λ z. ground (arith, contains→HasKey a m, h, z)

pub contains-append :
    (xs ys : List ℕ) (a : ℕ)
    → contains (xs ++ ys) a ≡ (if contains xs a then true else contains ys a)
unfolding contains
contains-append [] ys a = ground arith
contains-append (x ∷ xs) ys a = ground (arith, contains-append xs ys a)

pub contains-add_node :
    (a b : ℕ) (nodes : List ℕ)
    → contains (add_node a nodes) b ≡ (if a == b then true else contains nodes b)
unfolding add_node contains
contains-add_node a b nodes = ground (arith, contains-append nodes (a ∷ []) b, ap (contains nodes))

-- Whether one of the edges has the node as an end.
unfoldable pub is_end : List (ℕ × ℕ) → ℕ → Bool
is_end [] n = false
is_end ((a, b) ∷ edges) n = if a == n then true else if b == n then true else is_end edges n

pub contains-nodes_after :
    (edges : List (ℕ × ℕ)) (nodes : List ℕ) (n : ℕ)
    → contains (nodes_after edges nodes) n ≡ (if contains nodes n then true else is_end edges n)
unfolding nodes_after is_end
contains-nodes_after [] nodes n = ground arith
contains-nodes_after ((a, b) ∷ edges) nodes n = ground (
  arith,
  contains-nodes_after edges (add_node b (add_node a nodes)) n,
  contains-add_node b n (add_node a nodes),
  contains-add_node a n nodes,
)

-- No node stands twice.
abbrev pub IsDistinct : List ℕ → Type 0
IsDistinct [] = Unit
IsDistinct (a ∷ nodes) = (contains nodes a ≡ false) × IsDistinct nodes

pub IsDistinct-last :
    (nodes : List ℕ) (a : ℕ)
    → IsDistinct nodes
    → contains nodes a ≡ false
    → IsDistinct (nodes ++ a ∷ [])
unfolding contains
IsDistinct-last [] a d h = (refl, tt)
IsDistinct-last (n ∷ nodes) a d h = (
  ground (arith, d.0, h, contains-append nodes (a ∷ []) n),
  IsDistinct-last nodes a d.1 (ground (arith, h)),
)

add_node-IsDistinct : (a : ℕ) (nodes : List ℕ) → IsDistinct nodes → IsDistinct (add_node a nodes)
unfolding add_node
add_node-IsDistinct a nodes d = elim (Bool-cases (contains nodes a)) [
  | inl e ↦ subst (λ b. IsDistinct (if b then nodes else nodes ++ a ∷ [])) (sym e) d
  | inr e ↦
      subst (λ b. IsDistinct (if b then nodes else nodes ++ a ∷ [])) (sym e)
        (IsDistinct-last nodes a d e)
]

pub nodes_after-IsDistinct :
    (edges : List (ℕ × ℕ)) (nodes : List ℕ)
    → IsDistinct nodes
    → IsDistinct (nodes_after edges nodes)
unfolding nodes_after
nodes_after-IsDistinct [] nodes d = d
nodes_after-IsDistinct ((a, b) ∷ edges) nodes d =
    nodes_after-IsDistinct edges _ (add_node-IsDistinct b _ (add_node-IsDistinct a nodes d))
