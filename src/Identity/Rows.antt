-- ===== src/Identity/Rows.antt =====
-- The row of a candidate in its table, and the other rows, across an update.
use mathlib.Core.List.{Memᴰ}
use mathlib.Core.List.Memᴰ
use data_processing.Prelude.{
  ℕ, none, some, List, [], ◌∷◌, Bool, true, ◌≡◌, ◌≢◌, ◌==◌, refl, sym, ap, ◌∙◌, subst, inl, inr,
  if◌then◌else◌, arith, Bool-cases, Option-cases, ==_iff,
}
use data_processing.Persistence.Tables.{find, update}
use data_processing.Identity.{Candidate, is_candidate}

module _ {E : Type 0} where
  -- No two rows share an id.
  abbrev pub Keyed : List (Candidate E) → Type 0
  Keyed rows =
      (r q : Candidate E) → Memᴰ r rows → Memᴰ q rows → r.candidate_id ≡ q.candidate_id → r ≡ q

  -- The row with the id.
  pub record At (id : ℕ) (rows : List (Candidate E)) (row : Candidate E) : Type 0 where
    pub is_in : Memᴰ row rows
    pub has_id : row.candidate_id ≡ id
    pub unique : (r : Candidate E) → Memᴰ r rows → r.candidate_id ≡ id → r ≡ row

  -- Two tables that differ in rows of this id alone.
  pub record SameElsewhere (id : ℕ) (rows more : List (Candidate E)) : Type 0 where
    pub there : (r : Candidate E) → Memᴰ r rows → r.candidate_id ≢ id → Memᴰ r more
    pub here : (r : Candidate E) → Memᴰ r more → r.candidate_id ≢ id → Memᴰ r rows

  pub SameElsewhere-trans :
      (id : ℕ) (a b c : List (Candidate E))
      → SameElsewhere id a b
      → SameElsewhere id b c
      → SameElsewhere id a c
  SameElsewhere-trans id a b c h k = record {
    there = λ r m n. k.there r (h.there r m n) n;
    here = λ r m n. h.here r (k.here r m n) n;
  }

  find_in :
      (id : ℕ) (rows : List (Candidate E)) (row : Candidate E)
      → find (is_candidate id) rows ≡ some row
      → Memᴰ row rows × (row.candidate_id ≡ id)
  unfolding find is_candidate
  find_in id [] row h = absurd (ground (arith, h))
  find_in id (r ∷ rows) row h = elim (Bool-cases (r.candidate_id == id)) [
    | inl e ↦
        let same : row ≡ r = ground (arith, h, e) in
        (
          Memᴰ.head same,
          ap (λ (o : Candidate E). o.candidate_id) same ∙ (==_iff r.candidate_id id).0 e,
        )
    | inr e ↦ let t = find_in id rows row (ground (arith, h, e)) in (Memᴰ.tail t.0, t.1)
  ]

  not_found :
      (id : ℕ) (rows : List (Candidate E)) (row : Candidate E)
      → Memᴰ row rows
      → row.candidate_id ≡ id
      → find (is_candidate id) rows ≢ none
  unfolding find is_candidate
  not_found id [] row m e h = absurd (Memᴰ.not-nil m)
  not_found id (r ∷ rows) row m e h = elim (Memᴰ.cases_cons m) [
    | inl q ↦ ground (arith, h, e, ap (λ (o : Candidate E). o.candidate_id) q)
    | inr t ↦ not_found id rows row t e (ground (arith, h))
  ]

  pub find-At :
      (id : ℕ) (rows : List (Candidate E)) (row : Candidate E)
      → Keyed rows
      → find (is_candidate id) rows ≡ some row
      → At id rows row
  find-At id rows row k h =
      let f = find_in id rows row h in
      record { is_in = f.0; has_id = f.1; unique = λ r m e. k r row m f.0 (e ∙ sym f.1) }

  -- The row is the one that is found.
  pub At-find :
      (id : ℕ) (rows : List (Candidate E)) (row : Candidate E)
      → At id rows row
      → find (is_candidate id) rows ≡ some row
  At-find id rows row a = elim (Option-cases (find (is_candidate id) rows)) [
    | inl e ↦ absurd (not_found id rows row a.is_in a.has_id e)
    | inr (q, e) ↦ let f = find_in id rows q e in e ∙ ap some (a.unique q f.0 f.1)
  ]

  mem-update :
      (p : Candidate E → Bool) (f : Candidate E → Candidate E) (rows : List (Candidate E))
      (r : Candidate E)
      → Memᴰ r (update p f rows)
      → (q : Candidate E) × Memᴰ q rows × (r ≡ (if p q then f q else q))
  unfolding update
  mem-update p f [] r m = absurd (Memᴰ.not-nil m)
  mem-update p f (q ∷ rows) r m = elim (Memᴰ.cases_cons m) [
    | inl e ↦ (q, Memᴰ.head refl, e)
    | inr t ↦ let (o, k, e) = mem-update p f rows r t in (o, Memᴰ.tail k, e)
  ]

  update-mem :
      (p : Candidate E → Bool) (f : Candidate E → Candidate E) (rows : List (Candidate E))
      (q : Candidate E)
      → Memᴰ q rows
      → Memᴰ (if p q then f q else q) (update p f rows)
  unfolding update
  update-mem p f [] q m = absurd (Memᴰ.not-nil m)
  update-mem p f (r ∷ rows) q m = elim (Memᴰ.cases_cons m) [
    | inl e ↦ Memᴰ.head (ap (λ o. if p o then f o else o) e)
    | inr t ↦ Memᴰ.tail (update-mem p f rows q t)
  ]

  module _ (id : ℕ) (p : Candidate E → Bool) (f : Candidate E → Candidate E)
      (rows : List (Candidate E)) (row : Candidate E) (a : At id rows row)
      (only : (r : Candidate E) → p r ≡ true → r.candidate_id ≡ id) (passes : p row ≡ true)
      (keeps : (f row).candidate_id ≡ id) where
    pub update-At : At id (update p f rows) (f row)
    update-At = record {
      is_in =
          subst (λ b. Memᴰ (if b then f row else row) (update p f rows)) passes
            (update-mem p f rows row a.is_in);
      has_id = keeps;
      unique = λ r m e.
          let (q, k, w) = mem-update p f rows r m in
          elim (Bool-cases (p q)) [
            | inl t ↦
                let same : q ≡ row = a.unique q k (only q t) in
                w ∙ ap (λ b. if b then f q else q) t ∙ ap f same
            | inr t ↦
                let w' : r ≡ q = w ∙ ap (λ b. if b then f q else q) t in
                let same : q ≡ row =
                  a.unique q k (ap (λ (o : Candidate E). o.candidate_id) (sym w') ∙ e) in
                absurd (ground (arith, t, passes, ap p same))
          ];
    }

    pub update-SameElsewhere : SameElsewhere id rows (update p f rows)
    update-SameElsewhere = record {
      there = λ r m n. elim (Bool-cases (p r)) [
        | inl t ↦ absurd (n (only r t))
        | inr t ↦
            subst (λ b. Memᴰ (if b then f r else r) (update p f rows)) t (update-mem p f rows r m)
      ];
      here = λ r m n.
          let (q, k, w) = mem-update p f rows r m in
          elim (Bool-cases (p q)) [
            | inl t ↦
                let same : q ≡ row = a.unique q k (only q t) in
                let w' : r ≡ f row = w ∙ ap (λ b. if b then f q else q) t ∙ ap f same in
                absurd (n (ap (λ (o : Candidate E). o.candidate_id) w' ∙ keeps))
            | inr t ↦ subst (λ o. Memᴰ o rows) (sym (w ∙ ap (λ b. if b then f q else q) t)) k
          ];
    }

  -- A table stays keyed when one row takes the place of the row with its id.
  pub Keyed-replaced :
      (id : ℕ) (rows more : List (Candidate E)) (row : Candidate E)
      → Keyed rows
      → SameElsewhere id rows more
      → At id more row
      → Keyed more
  Keyed-replaced id rows more row k s a r q m n e = elim (Bool-cases (r.candidate_id == id)) [
    | inl t ↦
        let z : r.candidate_id ≡ id = (==_iff r.candidate_id id).0 t in
        a.unique r m z ∙ sym (a.unique q n (sym e ∙ z))
    | inr t ↦
        let d : r.candidate_id ≢ id = λ z. ground (arith, t, z) in
        k r q (s.here r m d) (s.here q n (λ z. d (e ∙ z))) e
  ]
