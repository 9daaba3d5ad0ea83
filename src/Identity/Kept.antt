-- ===== src/Identity/Kept.antt =====
-- What the deletions and the choice of edges in a rebuild leave.
use mathlib.Core.List.{Memᴰ}
use mathlib.Core.List.Memᴰ
use data_processing.Prelude.{
  ℕ, suc, none, some, List, [], ◌∷◌, Bool, true, false, ◌≡◌, ◌⊎◌, refl, sym, ap, subst, inl, inr,
  if◌then◌else◌, arith, Bool-cases, length,
}
use data_processing.Identity.{Member, contains, identity_of}
use data_processing.Identity.Closure.{is_settled}
use data_processing.Identity.Closure.Loop.{AllSettled}
use data_processing.Identity.Rebuild.{Edge, ends_of, has_member, is_inside, is_touched, keep}

-- The rows of accounts that pass a test.
pub identity_of-keep :
    (p : ℕ → Bool) (a : ℕ) (rows : List Member)
    → identity_of a (keep (λ row. p row.account_id) rows)
      ≡ (if p a then identity_of a rows else none)
unfolding identity_of keep
identity_of-keep p a [] = ground arith
identity_of-keep p a (row ∷ rows) = ground (arith, identity_of-keep p a rows, ap p)

pub contains-keep :
    (p : ℕ → Bool) (ids : List ℕ) (i : ℕ)
    → contains (keep p ids) i ≡ (if p i then contains ids i else false)
unfolding contains keep
contains-keep p [] i = ground arith
contains-keep p (j ∷ ids) i = ground (arith, contains-keep p ids i, ap p)

-- An identity that an account has is not deleted.
pub has_member-identity_of :
    (rows : List Member) (a i : ℕ) → identity_of a rows ≡ some i → has_member rows i ≡ true
unfolding identity_of has_member
has_member-identity_of [] a i h = absurd (ground (arith, h))
has_member-identity_of (row ∷ rows) a i h = ground (arith, h, has_member-identity_of rows a i)

pub length-ends_of : (edges : List Edge) → length (ends_of edges) ≡ length edges
length-ends_of [] = refl
length-ends_of (edge ∷ edges) = ap suc (length-ends_of edges)

keep-passing :
    {A : Type 0} (p : A → Bool) (x : A) (xs : List A) → p x ≡ true → keep p (x ∷ xs) ≡ x ∷ keep p xs
unfolding keep
keep-passing p x xs h = ground (arith, h)

keep-failing :
    {A : Type 0} (p : A → Bool) (x : A) (xs : List A) → p x ≡ false → keep p (x ∷ xs) ≡ keep p xs
unfolding keep
keep-failing p x xs h = ground (arith, h)

module _ (involved : List ℕ) where
  kept_later :
      (edge : Edge) (edges : List Edge) (x y : ℕ)
      → Memᴰ (x, y) (ends_of (keep (is_touched involved) edges))
      → Memᴰ (x, y) (ends_of (keep (is_touched involved) (edge ∷ edges)))
  kept_later edge edges x y t = elim (Bool-cases (is_touched involved edge)) [
    | inl e ↦
        subst (λ (l : List Edge). Memᴰ {A = ℕ × ℕ} (x, y) (ends_of l))
          (sym (keep-passing (is_touched involved) edge edges e)) (Memᴰ.tail t)
    | inr e ↦
        subst (λ (l : List Edge). Memᴰ {A = ℕ × ℕ} (x, y) (ends_of l))
          (sym (keep-failing (is_touched involved) edge edges e)) t
  ]

  -- An edge that touches what is involved is kept, and lies inside.
  pub touched_kept :
      (edges : List Edge) (x y : ℕ)
      → Memᴰ (x, y) (ends_of edges)
      → (contains involved x ≡ true) ⊎ (contains involved y ≡ true)
      → Memᴰ (x, y) (ends_of (keep (is_touched involved) edges))
  touched_kept [] x y m h = absurd (Memᴰ.not-nil m)
  touched_kept (edge ∷ edges) x y m h = elim (Memᴰ.cases_cons m) [
    | inl e ↦
        let p : x ≡ edge.subject = ap (λ (q : ℕ × ℕ). q.0) e in
        let q : y ≡ edge.target = ap (λ (r : ℕ × ℕ). r.1) e in
        let t : is_touched involved edge ≡ true =
          unfold is_touched in
          ground (arith, h, ap (contains involved) p, ap (contains involved) q) in
        subst (λ (l : List Edge). Memᴰ {A = ℕ × ℕ} (x, y) (ends_of l))
          (sym (keep-passing (is_touched involved) edge edges t)) (Memᴰ.head e)
    | inr t ↦ kept_later edge edges x y (touched_kept edges x y t h)
  ]

  pub kept_touched :
      (edges : List Edge) (x y : ℕ)
      → Memᴰ (x, y) (ends_of (keep (is_touched involved) edges))
      → Memᴰ (x, y) (ends_of edges) × ((contains involved x ≡ true) ⊎ (contains involved y ≡ true))
  kept_touched [] x y m = unfold keep in absurd (Memᴰ.not-nil m)
  kept_touched (edge ∷ edges) x y m = elim (Bool-cases (is_touched involved edge)) [
    | inl e ↦
        let m' : Memᴰ {A = ℕ × ℕ} (x, y) (ends_of (edge ∷ keep (is_touched involved) edges)) =
          subst (λ (l : List Edge). Memᴰ {A = ℕ × ℕ} (x, y) (ends_of l))
            (keep-passing (is_touched involved) edge edges e) m in
        elim (Memᴰ.cases_cons m') [
          | inl q ↦
              let u : x ≡ edge.subject = ap (λ (r : ℕ × ℕ). r.0) q in
              let v : y ≡ edge.target = ap (λ (r : ℕ × ℕ). r.1) q in
              (
                Memᴰ.head q,
                unfold is_touched in
                    ground (arith, e, ap (contains involved) u, ap (contains involved) v),
              )
          | inr t ↦ let r = kept_touched edges x y t in (Memᴰ.tail r.0, r.1)
        ]
    | inr e ↦
        let m' : Memᴰ {A = ℕ × ℕ} (x, y) (ends_of (keep (is_touched involved) edges)) =
          subst (λ (l : List Edge). Memᴰ {A = ℕ × ℕ} (x, y) (ends_of l))
            (keep-failing (is_touched involved) edge edges e) m in
        let r = kept_touched edges x y m' in (Memᴰ.tail r.0, r.1)
  ]

  -- No settled edge leads out of what is involved.
  pub same_side :
      (edges : List Edge) (x y : ℕ)
      → AllSettled involved edges
      → Memᴰ (x, y) (ends_of edges)
      → contains involved x ≡ contains involved y
  same_side [] x y s m = absurd (Memᴰ.not-nil m)
  same_side (edge ∷ edges) x y s m = elim (Memᴰ.cases_cons m) [
    | inl e ↦
        let p : x ≡ edge.subject = ap (λ (q : ℕ × ℕ). q.0) e in
        let q : y ≡ edge.target = ap (λ (r : ℕ × ℕ). r.1) e in
        unfold is_settled is_touched is_inside in
        ground (arith, s.0, ap (contains involved) p, ap (contains involved) q)
    | inr t ↦ same_side edges x y s.1 t
  ]
