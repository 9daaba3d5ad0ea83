-- ===== src/Identity/Closure.antt =====
-- One pass over the edges leaves out no account.
pub mod Loop
use mathlib.Core.List.{Memᴰ}
use mathlib.Core.List.Memᴰ
use data_processing.Prelude.{
  ℕ, zero, suc, List, [], ◌∷◌, Bool, true, false, ◌&&◌, ◌||◌, not, ◌≡◌, ◌≤◌, ◌<◌, ◌+◌, ◌==◌, refl,
  sym, ap, ◌∙◌, subst, inl, inr, if◌then◌else◌, arith, length, All, Bool-cases,
}
use data_processing.Effect.{Outcome, returned, raised, unfinished}
use data_processing.RemoteSync.Types.{Exception}
use data_processing.Identity.{contains}
use data_processing.Identity.Rebuild.{Edge, close_over, include, is_inside, is_touched, sweep}

-- Every account of one list stands in the other.
abbrev pub Includes : List ℕ → List ℕ → Type 0
Includes xs ys = (a : ℕ) → contains xs a ≡ true → contains ys a ≡ true

pub contains-include :
    (a b : ℕ) (involved : List ℕ)
    → contains (include a involved) b ≡ (if a == b then true else contains involved b)
unfolding contains include
contains-include a b involved = ground (arith, ap (contains involved))

-- The edge is followed, or it leads nowhere new.
unfoldable pub is_settled : List ℕ → Edge → Bool
unfolding is_touched is_inside
is_settled involved edge = not (is_touched involved edge && not (is_inside involved edge))

unfoldable pub absorbed : Edge → List ℕ → List ℕ
unfolding include
absorbed edge involved = include edge.target (include edge.subject involved)

pub sweep-cons :
    (edge : Edge) (edges : List Edge) (involved : List ℕ) (changed : Bool)
    → sweep (edge ∷ edges) (involved, changed) ≡ (
        if is_settled involved edge
        then sweep edges (involved, changed)
        else sweep edges (absorbed edge involved, true))
unfolding sweep is_settled absorbed
sweep-cons edge edges involved changed = ground arith

pub absorbed-Includes :
    (edge : Edge) (involved : List ℕ) → Includes involved (absorbed edge involved)
unfolding absorbed
absorbed-Includes edge involved a h = ground (
  arith,
  h,
  contains-include edge.target a (include edge.subject involved),
  contains-include edge.subject a involved,
)

pub absorbed_inside :
    (edge : Edge) (involved : List ℕ) → is_inside (absorbed edge involved) edge ≡ true
unfolding absorbed is_inside
absorbed_inside edge involved = ground (
  arith,
  contains-include edge.target edge.target (include edge.subject involved),
  contains-include edge.target edge.subject (include edge.subject involved),
  contains-include edge.subject edge.subject involved,
)

pub is_inside_mono :
    (edge : Edge) (xs ys : List ℕ)
    → Includes xs ys
    → is_inside xs edge ≡ true
    → is_inside ys edge ≡ true
unfolding is_inside
is_inside_mono edge xs ys i h = ground (arith, h, i edge.subject, i edge.target)

-- A pass leaves out no account.
pub sweep-Includes :
    (edges : List Edge) (involved : List ℕ) (changed : Bool)
    → Includes involved (sweep edges (involved, changed)).0
unfolding sweep
sweep-Includes [] involved changed a h = h
sweep-Includes (edge ∷ edges) involved changed a h = elim (Bool-cases (is_settled involved edge)) [
  | inl e ↦ ground (
    arith,
    h,
    e,
    ap (λ (p : List ℕ × Bool). contains p.0 a) (sweep-cons edge edges involved changed),
    sweep-Includes edges involved changed a h,
  )
  | inr e ↦ ground (
    arith,
    h,
    e,
    ap (λ (p : List ℕ × Bool). contains p.0 a) (sweep-cons edge edges involved changed),
    sweep-Includes edges (absorbed edge involved) true a (absorbed-Includes edge involved a h),
  )
]
