-- ===== src/Identity/Changes.antt =====
-- How the change of one candidate's row changes the pairs.
use mathlib.Core.List.{Memᴰ}
use data_processing.Prelude.{
  ℕ, some, List, false, ◌≡◌, ◌⊎◌, ◌==◌, sym, ap, ◌∙◌, subst, inl, inr, arith, Bool-cases, ==_iff,
}
use data_processing.Identity.{AccountEnds, Candidate, Decision, Member}
use data_processing.Identity.Groups.{Connected-mono, Grouped, is_end_mono}
use data_processing.Identity.Joining.{Extends}
use data_processing.Identity.Pairs.{IsPair, of_row, pairs_of, row_of}
use data_processing.Identity.Rebuild.{is_identity_edge}
use data_processing.Identity.Remaining.{Lessens}
use data_processing.Identity.Rows.{At, SameElsewhere}

-- The same pairs have the same classes.
pub Grouped-same :
    (pairs more : List (ℕ × ℕ)) (members : List Member) (identities : List ℕ)
    → ((x y : ℕ) → Memᴰ (x, y) pairs → Memᴰ (x, y) more)
    → ((x y : ℕ) → Memᴰ (x, y) more → Memᴰ (x, y) pairs)
    → Grouped pairs members identities
    → Grouped more members identities
Grouped-same pairs more members identities f b g = record {
  sound = λ x y i h k. Connected-mono f (g.sound x y i h k);
  covered = λ x y m. g.covered x y (b x y m);
  given = λ x h. g.given x (is_end_mono more pairs b x h);
  only = λ x i h. is_end_mono pairs more f x (g.only x i h);
  known = g.known;
  positive = g.positive;
}

module _ (id : ℕ) (ds es : List Decision) (rows more : List (Candidate AccountEnds))
    (row next : Candidate AccountEnds) (a : At id rows row) (b : At id more next)
    (s : SameElsewhere id rows more) where
  -- A pair is the row's, or stays.
  stays_or_row :
      (x y : ℕ) → Memᴰ (x, y) (pairs_of ds rows) → Memᴰ (x, y) (pairs_of es more) ⊎ IsPair row x y
  stays_or_row x y m =
      let (r, k, q) = row_of ds rows x y m in
      elim (Bool-cases (r.candidate_id == id)) [
        | inl e ↦ inr (subst (λ o. IsPair o x y) (a.unique r k ((==_iff r.candidate_id id).0 e)) q)
        | inr e ↦ inl (of_row es more r x y (s.there r k (λ z. ground (arith, e, z))) q)
      ]

  was_or_next :
      (x y : ℕ) → Memᴰ (x, y) (pairs_of es more) → Memᴰ (x, y) (pairs_of ds rows) ⊎ IsPair next x y
  was_or_next x y m =
      let (r, k, q) = row_of es more x y m in
      elim (Bool-cases (r.candidate_id == id)) [
        | inl e ↦ inr (subst (λ o. IsPair o x y) (b.unique r k ((==_iff r.candidate_id id).0 e)) q)
        | inr e ↦ inl (of_row ds rows r x y (s.here r k (λ z. ground (arith, e, z))) q)
      ]

  -- The row gets a pair, and had no other.
  pub pairs-Extends :
      (x y : ℕ)
      → IsPair next x y
      → ((u v : ℕ) → IsPair row u v → (u ≡ x) × (v ≡ y))
      → Extends (pairs_of ds rows) (pairs_of es more) x y
  pairs-Extends x y i only = record {
    keeps = λ u v m. elim (stays_or_row u v m) [
      | inl k ↦ k
      | inr q ↦
          let e = only u v q in
          of_row es more next u v b.is_in (i.0, i.1 ∙ sym e.0, i.2 ∙ ap some (sym e.1))
    ];
    adds = of_row es more next x y b.is_in i;
    nothing_else = λ u v m. elim (was_or_next u v m) [
      | inl k ↦ inl k
      | inr q ↦ inr (sym q.1 ∙ i.1, ground (arith, q.2, i.2))
    ];
  }

  -- The row has no pair any more.
  pub pairs-Lessens :
      is_identity_edge next ≡ false
      → Lessens
          (pairs_of ds rows)
          (pairs_of es more)
          row.ends.subject_account_id
          row.ends.target_account_id
  pairs-Lessens n = record {
    keeps =
        λ u v m. elim (was_or_next u v m) [ inl k ↦ k | inr q ↦ absurd (ground (arith, n, q.0)) ];
    loses = λ u v m. elim (stays_or_row u v m) [ inl k ↦ inl k | inr q ↦ inr (sym q.1, q.2) ];
  }

  -- The row had no pair, and has none.
  pub pairs-same :
      (members : List Member) (identities : List ℕ)
      → is_identity_edge row ≡ false
      → is_identity_edge next ≡ false
      → Grouped (pairs_of ds rows) members identities
      → Grouped (pairs_of es more) members identities
  pairs-same members identities n n' g =
      Grouped-same (pairs_of ds rows) (pairs_of es more) members identities
        (λ u v m. elim (stays_or_row u v m) [ inl k ↦ k | inr q ↦ absurd (ground (arith, n, q.0)) ])
        (λ u v m. elim (was_or_next u v m) [ inl k ↦ k | inr q ↦ absurd (ground (arith, n', q.0)) ])
        g
