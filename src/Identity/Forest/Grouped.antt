-- ===== src/Identity/Forest/Grouped.antt =====
-- What the groups of the roots contain: each account once, with the accounts of its tree.
use data_processing.Prelude.{
  ℕ, List, [], ◌∷◌, ◌++◌, Bool, true, false, ◌≡◌, ◌≢◌, ◌==◌, refl, sym, ap, subst, inl, inr,
  if◌then◌else◌, arith, Bool-cases,
}
use data_processing.Identity.{contains}
use data_processing.Identity.Forest.{append_to}
use data_processing.Identity.Forest.Nodes.{contains-append, IsDistinct, IsDistinct-last}
use data_processing.Identity.Forest.Components.{group}

-- Whether an account stands in one of the components.
unfoldable pub in_components : List (ℕ × List ℕ) → ℕ → Bool
unfolding contains
in_components [] a = false
in_components ((root, accounts) ∷ rest) a =
    if contains accounts a then true else in_components rest a

-- The accounts of each component have its root, which no other component has.
abbrev pub IsGrouped : (ℕ → ℕ) → List (ℕ × List ℕ) → Type 0
IsGrouped R [] = Unit
IsGrouped R ((root, accounts) ∷ rest) =
    ((a : ℕ) → contains accounts a ≡ true → R a ≡ root)
    × IsDistinct accounts
    × ((a : ℕ) → in_components rest a ≡ true → R a ≢ root)
    × IsGrouped R rest

in_components-append_to :
    (root a b : ℕ) (components : List (ℕ × List ℕ))
    → in_components (append_to root a components) b
      ≡ (if a == b then true else in_components components b)
unfolding in_components append_to contains
in_components-append_to root a b [] = ground arith
in_components-append_to root a b ((r, accounts) ∷ rest) =
    ground (arith, in_components-append_to root a b rest, contains-append accounts (a ∷ []) b)

append_to-IsGrouped :
    (R : ℕ → ℕ) (a : ℕ) (components : List (ℕ × List ℕ))
    → IsGrouped R components
    → in_components components a ≡ false
    → IsGrouped R (append_to (R a) a components)
unfolding append_to in_components
append_to-IsGrouped R a [] g h = (
  λ b z. unfold contains in ground (arith, z),
  (unfold contains in refl, tt),
  λ b z. absurd (ground (arith, z)),
  tt,
)
append_to-IsGrouped R a ((r, accounts) ∷ rest) g h = elim (Bool-cases (r == R a)) [
  | inl e ↦
      subst
        (λ q.
          IsGrouped R
            (if q then (r, accounts ++ a ∷ []) ∷ rest else (r, accounts) ∷ append_to (R a) a rest))
        (sym e)
        (
          λ b z.
              unfold contains in ground (arith, z, e, g.0 b, contains-append accounts (a ∷ []) b),
          IsDistinct-last accounts a g.1 (ground (arith, h)),
          g.2,
          g.3,
        )
  | inr e ↦
      subst
        (λ q.
          IsGrouped R
            (if q then (r, accounts ++ a ∷ []) ∷ rest else (r, accounts) ∷ append_to (R a) a rest))
        (sym e)
        (
          g.0,
          g.1,
          (λ b z w. ground (arith, z, w, e, g.2 b, in_components-append_to (R a) a b rest)),
          append_to-IsGrouped R a rest g.3 (ground (arith, h)),
        )
]

pub in_components-group :
    (R : ℕ → ℕ) (accounts : List ℕ) (components : List (ℕ × List ℕ)) (b : ℕ)
    → in_components (group R accounts components) b
      ≡ (if in_components components b then true else contains accounts b)
unfolding group contains
in_components-group R [] components b = ground arith
in_components-group R (a ∷ accounts) components b = ground (
  arith,
  in_components-group R accounts (append_to (R a) a components) b,
  in_components-append_to (R a) a b components,
)

pub group-IsGrouped :
    (R : ℕ → ℕ) (accounts : List ℕ) (components : List (ℕ × List ℕ))
    → IsDistinct accounts
    → IsGrouped R components
    → ((a : ℕ) → contains accounts a ≡ true → in_components components a ≡ false)
    → IsGrouped R (group R accounts components)
unfolding group
group-IsGrouped R [] components d g h = g
group-IsGrouped R (a ∷ accounts) components d g h =
    group-IsGrouped R accounts (append_to (R a) a components) d.1
      (append_to-IsGrouped R a components g (h a (unfold contains in ground arith)))
      (λ b z.
        let k : contains (a ∷ accounts) b ≡ true = unfold contains in ground (arith, z) in
        ground (
          arith,
          z,
          d.0,
          h b k,
          ap (contains accounts),
          in_components-append_to (R a) a b components,
        ))
