-- ===== src/Identity/Forest.antt =====
-- discovery/review.py: the union-find inside `rebuild_identity_component`, whose dictionary `parent`
-- is that of the union-find over relationships, with account ids as its nodes.
pub mod Ranked
pub mod Find
pub mod Nodes
pub mod Edge
pub mod Joins
pub mod Components
pub mod Grouped
use data_processing.Prelude.{
  ℕ, zero, suc, List, [], ◌∷◌, Bool, true, false, ◌≡◌, refl, ◌==◌, ltb, if◌then◌else◌, arith, map,
  ◌++◌,
}
use data_processing.Effect.{returned, unfinished, Step, pure, ◌>>=◌, ◌>>◌}
use data_processing.RemoteSync.Types.{Exception}
use data_processing.Lineage.{NodeOrder, Parents, parent_of, put, add, read, assign}

pub same_refl : (a : ℕ) → (a == a) ≡ true
same_refl a = ground arith

pub eq_of_same : (a b : ℕ) → (a == b) ≡ true → a ≡ b
eq_of_same a b h = ground arith

pub before_irrefl : (a : ℕ) → ltb a a ≡ false
before_irrefl a = ground arith

pub before_trans : (a b c : ℕ) → ltb a b ≡ true → ltb b c ≡ true → ltb a c ≡ true
before_trans a b c h k = ground arith

pub before_total : (a b : ℕ) → (a == b) ≡ false → ltb a b ≡ false → ltb b a ≡ true
before_total a b h k = ground arith

-- Equality of account ids. Their order is not used, nor is the limit: this `find` is a loop.
abbrev pub ids : NodeOrder ℕ
ids = record {
  same = ◌==◌;
  before = ltb;
  recursion_limit = 0;
  same_refl = same_refl;
  eq_of_same = eq_of_same;
  before_irrefl = before_irrefl;
  before_trans = before_trans;
  before_total = before_total;
}

-- The loop of `find`: each node on the way is hung under its grandparent.
unfoldable pub climb : ℕ → ℕ → Step Exception (Parents ℕ) ℕ
unfolding ◌>>=◌ read assign
climb zero a = λ m. (unfinished, m)
climb (suc fuel) a = do
  parent ← read ids a
  (let halve = (do
    grandparent ← read ids parent
    assign ids a grandparent
    next ← read ids a
    climb fuel next) in
      if parent == a then pure a else halve)

-- `find`
unfoldable pub find_root : ℕ → ℕ → Step Exception (Parents ℕ) ℕ
unfolding climb add
find_root fuel a m = climb fuel a (add ids a m)

-- The second root is hung under the first.
unfoldable pub hang : ℕ → ℕ → Step Exception (Parents ℕ) (Unit {0})
unfolding assign
hang first_root second_root m =
    if first_root == second_root then (returned tt, m) else assign ids second_root first_root m

unfoldable pub join_ends : ℕ → ℕ → ℕ → Step Exception (Parents ℕ) (Unit {0})
unfolding ◌>>=◌ find_root hang
join_ends fuel first second = do
  first_root ← find_root fuel first
  second_root ← find_root fuel second
  hang first_root second_root

-- The loop over the edges.
unfoldable pub join_edges : ℕ → List (ℕ × ℕ) → Step Exception (Parents ℕ) (Unit {0})
unfolding ◌>>=◌ join_ends
join_edges fuel [] = pure tt
join_edges fuel ((first, second) ∷ edges) = do join_ends fuel first second; join_edges fuel edges

-- `components.setdefault(root, []).append(account_id)`
unfoldable pub append_to : ℕ → ℕ → List (ℕ × List ℕ) → List (ℕ × List ℕ)
append_to root a [] = (root, a ∷ []) ∷ []
append_to root a ((r, accounts) ∷ rest) =
    if r == root then (r, accounts ++ a ∷ []) ∷ rest else (r, accounts) ∷ append_to root a rest

-- The keys of the dictionary, with their roots.
unfoldable pub collect :
    ℕ → List ℕ → List (ℕ × List ℕ) → Step Exception (Parents ℕ) (List (ℕ × List ℕ))
unfolding ◌>>=◌ find_root append_to
collect fuel [] components = pure components
collect fuel (a ∷ accounts) components = do
  root ← find_root fuel a
  collect fuel accounts (append_to root a components)

abbrev pub keys : Parents ℕ → List ℕ
keys m = map (λ (e : ℕ × ℕ). e.0) m

-- The components of a graph of edges, each with its root.
unfoldable pub components_of : ℕ → List (ℕ × ℕ) → Step Exception (Parents ℕ) (List (ℕ × List ℕ))
unfolding ◌>>=◌ join_edges collect
components_of fuel edges = do join_edges fuel edges; λ m. collect fuel (keys m) [] m
