-- ===== src/Persistence/Last.antt =====
-- Tables as lists of rows: the row with a property that was added last.
use mathlib.Core.List.{reverse, reverse-cons}
use data_processing.Prelude.{
  none, some, Option, List, [], ◌∷◌, ◌++◌, Bool, true, false, ◌≡◌, refl, ap, ◌∙◌, All, arith,
}
use data_processing.Persistence.Tables.{find}

module _ {A : Type 0} where
  -- The row is in the table.
  abbrev pub IsIn : A → List A → Type 0
  IsIn row rows = (before : List A) × (after : List A) × (rows ≡ before ++ row ∷ after)

  -- The row is in the table and has the property, and no row after it has it.
  abbrev pub IsLast : (A → Type 0) → A → List A → Type 0
  IsLast P row rows =
      (before : List A) × (after : List A) × (rows ≡ before ++ row ∷ after)
      × P row
      × All (λ r. ¬ (P r)) after

module _ {A : Type 0} (p : A → Bool) where
  pub find-IsIn : (rows : List A) (row : A) → find p rows ≡ some row → IsIn row rows
  unfolding find
  find-IsIn [] row h = absurd (ground (arith, h))
  find-IsIn (r ∷ rows) row h = here (p r) refl (find-IsIn rows row)
    where
      here : (b : Bool) → p r ≡ b → (find p rows ≡ some row → IsIn row rows) → IsIn row (r ∷ rows)
      here true e ih = ([], rows, ap (λ x. x ∷ rows) (ground (arith, h, e)))
      here false e ih =
          let (before, after, s) = ih (ground (arith, h, e)) in
          (r ∷ before, after, ap (λ l. r ∷ l) s)

  find-last :
      (rows : List A) (row : A)
      → find p (rows ++ row ∷ [])
        ≡ elim (find p rows) [ none ↦ find p (row ∷ []) | some found ↦ some found ]
  unfolding find
  find-last [] row = ground arith
  find-last (r ∷ rows) row = ground (arith, find-last rows row)

  -- The rows of the reversed table, one by one: from the last to the first.
  find-reverse_cons :
      (r : A) (rows : List A)
      → find p (reverse (r ∷ rows))
        ≡ elim (find p (reverse rows)) [ none ↦ find p (r ∷ []) | some found ↦ some found ]
  find-reverse_cons r rows = ap (find p) (reverse-cons r rows) ∙ find-last (reverse rows) r

  nothing_passes : (rows : List A) → find p (reverse rows) ≡ none → All (λ r. ¬ (p r ≡ true)) rows
  unfolding find
  nothing_passes [] h = tt
  nothing_passes (r ∷ rows) h = (
    (λ e. ground (arith, h, e, find-reverse_cons r rows)),
    nothing_passes rows (ground (arith, h, find-reverse_cons r rows)),
  )

  -- What is found in the reversed table is the last row that passes the test.
  pub find-reverse-IsLast :
      (rows : List A) (row : A)
      → find p (reverse rows) ≡ some row
      → IsLast (λ r. p r ≡ true) row rows
  unfolding find
  find-reverse-IsLast [] row h = absurd (ground (arith, h))
  find-reverse-IsLast (r ∷ rows) row h =
      later (find p (reverse rows)) refl (find-reverse-IsLast rows row)
    where
      later :
          (o : Option A)
          → find p (reverse rows) ≡ o
          → (find p (reverse rows) ≡ some row → IsLast (λ x. p x ≡ true) row rows)
          → IsLast (λ x. p x ≡ true) row (r ∷ rows)
      later none e ih = (
        [],
        rows,
        ap (λ x. x ∷ rows) (ground (arith, h, e, find-reverse_cons r rows)),
        ground (arith, h, e, find-reverse_cons r rows),
        nothing_passes rows e,
      )
      later (some found) e ih =
          let (before, after, s, q, n) = ih (ground (arith, h, e, find-reverse_cons r rows)) in
          (r ∷ before, after, ap (λ l. r ∷ l) s, q, n)

-- A test for a property finds the last row that has the property.
pub IsLast-weaken :
    {A : Type 0} (P Q : A → Type 0) (row : A) (rows : List A)
    → ((r : A) → P r → Q r)
    → ((r : A) → Q r → P r)
    → IsLast P row rows
    → IsLast Q row rows
IsLast-weaken {A = A} P Q row rows f g (before, after, s, h, n) =
    (before, after, s, f row h, none_have after n)
  where
    none_have : (rest : List A) → All (λ r. ¬ (P r)) rest → All (λ r. ¬ (Q r)) rest
    none_have [] a = tt
    none_have (r ∷ rest) a = ((λ q. a.0 (g r q)), none_have rest a.1)
