-- ===== src/Identity/Pairs.antt =====
-- The pairs of accounts that confirmed candidates give, and how a review changes them.
use mathlib.Core.List.{Memᴰ}
use mathlib.Core.List.Memᴰ
use data_processing.Prelude.{
  ℕ, none, some, List, [], ◌∷◌, true, ◌≡◌, refl, sym, ap, ◌∙◌, subst, inl, inr, arith, Option-cases,
}
use data_processing.Identity.{AccountEnds, Candidate, Decision}
use data_processing.Identity.Rebuild.{
  Edge, edge_of, edges_of, ends_of, is_identity_edge, last_confirmed,
}

-- The pair of a row.
abbrev pub IsPair : Candidate AccountEnds → ℕ → ℕ → Type 0
IsPair row x y =
    (is_identity_edge row ≡ true)
    × (row.ends.subject_account_id ≡ x)
    × (row.ends.target_account_id ≡ some y)

abbrev pub pairs_of : List Decision → List (Candidate AccountEnds) → List (ℕ × ℕ)
pairs_of decisions rows = ends_of (edges_of decisions rows)

edge-IsPair :
    (ds : List Decision) (row : Candidate AccountEnds) (edge : Edge)
    → edge_of ds row ≡ some edge
    → IsPair row edge.subject edge.target
unfolding edge_of
edge-IsPair ds row edge h = (ground (arith, h), ground (arith, h), ground (arith, h))

IsPair-edge :
    (ds : List Decision) (row : Candidate AccountEnds) (x y : ℕ)
    → IsPair row x y
    → (edge : Edge) × (edge_of ds row ≡ some edge) × (edge.subject ≡ x) × (edge.target ≡ y)
unfolding edge_of
IsPair-edge ds row x y h = (
  record {
    candidate_id = row.candidate_id;
    subject = row.ends.subject_account_id;
    target = y;
    decision_id = last_confirmed row.candidate_id 0 ds;
  },
  ground (arith, h.0, h.2),
  h.1,
  refl,
)

edges-some :
    (ds : List Decision) (row : Candidate AccountEnds) (rows : List (Candidate AccountEnds))
    (edge : Edge)
    → edge_of ds row ≡ some edge
    → edges_of ds (row ∷ rows) ≡ edge ∷ edges_of ds rows
unfolding edges_of
edges-some ds row rows edge h = ground (arith, h)

edges-none :
    (ds : List Decision) (row : Candidate AccountEnds) (rows : List (Candidate AccountEnds))
    → edge_of ds row ≡ none
    → edges_of ds (row ∷ rows) ≡ edges_of ds rows
unfolding edges_of
edges-none ds row rows h = ground (arith, h)

-- The row that a pair comes from.
pub row_of :
    (ds : List Decision) (rows : List (Candidate AccountEnds)) (x y : ℕ)
    → Memᴰ (x, y) (pairs_of ds rows)
    → (row : Candidate AccountEnds) × Memᴰ row rows × IsPair row x y
row_of ds [] x y m = unfold edges_of in absurd (Memᴰ.not-nil m)
row_of ds (row ∷ rows) x y m = elim (Option-cases (edge_of ds row)) [
  | inl e ↦
      let m' : Memᴰ {A = ℕ × ℕ} (x, y) (pairs_of ds rows) =
        subst (λ (l : List Edge). Memᴰ {A = ℕ × ℕ} (x, y) (ends_of l)) (edges-none ds row rows e)
          m in
      let (r, k, q) = row_of ds rows x y m' in (r, Memᴰ.tail k, q)
  | inr (edge, e) ↦
      let m' : Memᴰ {A = ℕ × ℕ} (x, y) (ends_of (edge ∷ edges_of ds rows)) =
        subst (λ (l : List Edge). Memᴰ {A = ℕ × ℕ} (x, y) (ends_of l))
          (edges-some ds row rows edge e) m in
      elim (Memᴰ.cases_cons m') [
        | inl q ↦
            let u : x ≡ edge.subject = ap (λ (r : ℕ × ℕ). r.0) q in
            let v : y ≡ edge.target = ap (λ (r : ℕ × ℕ). r.1) q in
            let i = edge-IsPair ds row edge e in
            (row, Memᴰ.head refl, (i.0, i.1 ∙ sym u, i.2 ∙ ap some (sym v)))
        | inr t ↦ let (r, k, q) = row_of ds rows x y t in (r, Memᴰ.tail k, q)
      ]
]

pub of_row :
    (ds : List Decision) (rows : List (Candidate AccountEnds)) (row : Candidate AccountEnds)
    (x y : ℕ)
    → Memᴰ row rows
    → IsPair row x y
    → Memᴰ (x, y) (pairs_of ds rows)
of_row ds [] row x y m i = absurd (Memᴰ.not-nil m)
of_row ds (r ∷ rows) row x y m i = elim (Memᴰ.cases_cons m) [
  | inl e ↦
      let (edge, f, u, v) = IsPair-edge ds row x y i in
      subst (λ (l : List Edge). Memᴰ {A = ℕ × ℕ} (x, y) (ends_of l))
        (sym (edges-some ds r rows edge (ap (edge_of ds) (sym e) ∙ f)))
        (Memᴰ.head (λ k. (sym u k, sym v k)))
  | inr t ↦
      let later = of_row ds rows row x y t i in
      elim (Option-cases (edge_of ds r)) [
        | inl e ↦
            subst (λ (l : List Edge). Memᴰ {A = ℕ × ℕ} (x, y) (ends_of l))
              (sym (edges-none ds r rows e)) later
        | inr (edge, e) ↦
            subst (λ (l : List Edge). Memᴰ {A = ℕ × ℕ} (x, y) (ends_of l))
              (sym (edges-some ds r rows edge e)) (Memᴰ.tail later)
      ]
]
