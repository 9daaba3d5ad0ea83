-- ===== src/Lineage.antt =====
-- relationships/dependence.py: `_Components`, the union-find over the objects of the catalog.
pub mod Leads
pub mod Compress
pub mod Find
pub mod Union
pub mod Partition
pub mod Classes
pub mod Order
pub mod Roots
use data_processing.Prelude.{
  ℕ, zero, suc, Option, none, some, List, [], ◌∷◌, Bool, true, false, ◌≡◌, ◌⊎◌, length,
  if◌then◌else◌,
}
use data_processing.Effect.{Outcome, returned, raised, unfinished, Step, pure, raise, ◌>>=◌, ◌>>◌}
use data_processing.RemoteSync.Types.{Exception, other}

-- Equality and order of the nodes, which are pairs of a kind and an id in the code; and how many calls of
-- `find`, one in another, fit under Python's recursion limit, the same at each call from outside.
pub record NodeOrder (N : Type 0) : Type 0 where
  pub same : N → N → Bool
  pub before : N → N → Bool
  pub recursion_limit : ℕ
  pub same_refl : (a : N) → same a a ≡ true
  pub eq_of_same : (a b : N) → same a b ≡ true → a ≡ b
  pub before_irrefl : (a : N) → before a a ≡ false
  pub before_trans : (a b c : N) → before a b ≡ true → before b c ≡ true → before a c ≡ true
  pub before_total : (a b : N) → same a b ≡ false → before a b ≡ false → before b a ≡ true

-- The dictionary `_parent`, in the order of insertion.
abbrev pub Parents : Type 0 → Type 0
Parents N = List (N × N)

module _ {N : Type 0} (o : NodeOrder N) where
  open o use {same, before, recursion_limit}

  unfoldable pub parent_of : N → Parents N → Option N
  parent_of n [] = none
  parent_of n ((k, p) ∷ rest) = if same k n then some p else parent_of n rest

  -- `_parent[node] = p`
  unfoldable pub put : N → N → Parents N → Parents N
  put n p [] = (n, p) ∷ []
  put n p ((k, q) ∷ rest) = if same k n then (k, p) ∷ rest else (k, q) ∷ put n p rest

  -- `add`: `setdefault`
  unfoldable pub add : N → Parents N → Parents N
  add n [] = (n, n) ∷ []
  add n ((k, p) ∷ rest) = if same k n then (k, p) ∷ rest else (k, p) ∷ add n rest

  -- `_parent[node]`
  unfoldable pub read : N → Step Exception (Parents N) N
  unfolding parent_of
  read n m = elim (parent_of n m) [
    | none ↦ (raised (other "KeyError"), m)
    | some p ↦ (returned p, m)
  ]

  unfoldable pub assign : N → N → Step Exception (Parents N) (Unit {0})
  unfolding put
  assign n p m = (returned tt, put n p m)

  -- `find`, with the number of nested calls that still fit. One that does not fit raises.
  unfoldable pub find_within : ℕ → N → Step Exception (Parents N) N
  unfolding read assign ◌>>=◌
  find_within zero n = raise (other "RecursionError")
  find_within (suc fuel) n = do
    parent ← read n
    (let compress = (do root ← find_within fuel parent; assign n root) in
        if same parent n then pure tt else compress)
    read n

  -- `find`
  unfoldable pub find : N → Step Exception (Parents N) N
  unfolding find_within
  find n = find_within recursion_limit n

  -- The smaller of two different roots becomes the parent of the other.
  unfoldable pub link : N → N → Step Exception (Parents N) (Unit {0})
  unfolding assign
  link first second m =
      if same first second
      then (returned tt, m)
      else if before first second
      then assign second first m
      else assign first second m

  -- `union`
  unfoldable pub union : N → N → Step Exception (Parents N) (Unit {0})
  unfolding add find link ◌>>=◌
  union first second m =
      (do first_root ← find first; second_root ← find second; link first_root second_root)
        (add second (add first m))

  -- The unions of these pairs, one after the other.
  unfoldable pub union_all : List (N × N) → Step Exception (Parents N) (Unit {0})
  unfolding union ◌>>=◌
  union_all [] = pure tt
  union_all ((a, b) ∷ rest) = do union a b; union_all rest

  -- The objects that are added alone, in their order.
  unfoldable pub add_all : List N → Parents N → Parents N
  unfolding add
  add_all [] m = m
  add_all (n ∷ nodes) m = add_all nodes (add n m)
