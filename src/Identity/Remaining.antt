-- ===== src/Identity/Remaining.antt =====
-- Pairs that lie outside of what a rebuild involves connect the same accounts before and after it.
use mathlib.Core.List.{Memᴰ}
use data_processing.Prelude.{
  ℕ, Option, some, List, true, false, ◌≡◌, ◌⊎◌, refl, sym, ap, ◌∙◌, subst, inl, inr, arith,
}
use data_processing.Lineage.Leads.{Connected, pair, self, back, join}
use data_processing.Identity.{contains}
use data_processing.Identity.Forest.Nodes.{is_end}
use data_processing.Identity.Groups.{is_end-pair, pair_of}

-- The pairs after a review of the candidate of these accounts: none is new, and only theirs can be
-- missing.
pub record Lessens (pairs less : List (ℕ × ℕ)) (subject : ℕ) (target : Option ℕ) : Type 0 where
  pub keeps : (x y : ℕ) → Memᴰ (x, y) less → Memᴰ (x, y) pairs
  pub loses : (x y : ℕ) → Memᴰ (x, y) pairs → Memᴰ (x, y) less ⊎ ((x ≡ subject) × (target ≡ some y))

-- What is involved: both accounts are in it, and no remaining pair leads out of it.
pub record Encloses (less : List (ℕ × ℕ)) (subject : ℕ) (target : Option ℕ) (involved : List ℕ)
    : Type 0 where
  pub has_subject : contains involved subject ≡ true
  pub has_target : (t : ℕ) → target ≡ some t → contains involved t ≡ true
  pub closed : (x y : ℕ) → Memᴰ (x, y) less → contains involved x ≡ contains involved y

module _ (pairs less : List (ℕ × ℕ)) (subject : ℕ) (target : Option ℕ) (involved : List ℕ)
    (l : Lessens pairs less subject target) (e : Encloses less subject target involved) where
  pair_side : (x y : ℕ) → Memᴰ (x, y) pairs → contains involved x ≡ contains involved y
  pair_side x y m = elim (l.loses x y m) [
    | inl k ↦ e.closed x y k
    | inr q ↦ ap (contains involved) q.0 ∙ e.has_subject ∙ sym (e.has_target y q.1)
  ]

  pair_remains : (x y : ℕ) → Memᴰ (x, y) pairs → contains involved x ≡ false → Memᴰ (x, y) less
  pair_remains x y m h = elim (l.loses x y m) [
    | inl k ↦ k
    | inr q ↦ absurd (ground (arith, h, e.has_subject, ap (contains involved) q.0))
  ]

  pub Connected-side : {a b : ℕ} → Connected pairs a b → contains involved a ≡ contains involved b
  Connected-side (pair {a} {b} m) = pair_side a b m
  Connected-side self = refl
  Connected-side (back c) = sym (Connected-side c)
  Connected-side (join c d) = Connected-side c ∙ Connected-side d

  pub Connected-remains :
      {a b : ℕ} → Connected pairs a b → contains involved a ≡ false → Connected less a b
  Connected-remains (pair {a} {b} m) h = pair (pair_remains a b m h)
  Connected-remains self h = self
  Connected-remains (back c) h = back (Connected-remains c (Connected-side c ∙ h))
  Connected-remains (join c d) h =
      join (Connected-remains c h) (Connected-remains d (sym (Connected-side c) ∙ h))

  pub end_remains :
      (a : ℕ) → is_end pairs a ≡ true → contains involved a ≡ false → is_end less a ≡ true
  end_remains a h n =
      let p = pair_of pairs a h in
      let side = pair_side p.first p.second p.is_in in
      elim p.side [
        | inl q ↦
            let m = pair_remains p.first p.second p.is_in (ap (contains involved) (sym q) ∙ n) in
            subst (λ x. is_end less x ≡ true) (sym q) (is_end-pair less p.first p.second m).0
        | inr q ↦
            let m =
              pair_remains p.first p.second p.is_in (side ∙ ap (contains involved) (sym q) ∙ n) in
            subst (λ x. is_end less x ≡ true) (sym q) (is_end-pair less p.first p.second m).1
      ]
