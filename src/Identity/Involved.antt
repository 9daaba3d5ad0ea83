-- ===== src/Identity/Involved.antt =====
-- What is involved at first, and which identities may be used again.
use data_processing.Prelude.{
  ℕ, Option, none, some, List, [], ◌∷◌, Bool, true, false, ◌≡◌, ◌⊎◌, ◌==◌, sym, ap, subst, inl, inr,
  if◌then◌else◌, arith, Bool-cases,
}
use data_processing.Identity.{Member, contains, identity_of}
use data_processing.Identity.Closure.{Includes, contains-include}
use data_processing.Identity.Rebuild.{
  first_involved, identity_of_target, include, include_all, include_target, is_one_of, keep,
  old_members, or_minus_one,
}

include_all-Includes :
    (rows : List Member) (involved : List ℕ) → Includes involved (include_all rows involved)
unfolding include_all
include_all-Includes [] involved a h = h
include_all-Includes (row ∷ rows) involved a h =
    include_all-Includes rows (include row.account_id involved) a
      (ground (arith, h, contains-include row.account_id a involved))

-- A member of an identity that a test accepts is included.
member_included :
    (p : ℕ → Bool) (a i : ℕ) (rows : List Member) (involved : List ℕ)
    → identity_of a rows ≡ some i
    → p i ≡ true
    → contains (include_all (keep (λ row. p row.identity_id) rows) involved) a ≡ true
unfolding identity_of keep include_all
member_included p a i [] involved h k = absurd (ground (arith, h))
member_included p a i (row ∷ rows) involved h k = elim (Bool-cases (p row.identity_id)) [
  | inl e ↦
      subst
        (λ b.
          contains
            (include_all
              (if b
                then row ∷ keep (λ (r : Member). p r.identity_id) rows
                else keep (λ (r : Member). p r.identity_id) rows)
              involved)
            a
          ≡ true)
        (sym e)
        (elim (Bool-cases (row.account_id == a)) [
          | inl q ↦
              include_all-Includes (keep (λ (r : Member). p r.identity_id) rows)
                (include row.account_id involved) a
                (ground (arith, q, contains-include row.account_id a involved))
          | inr q ↦
              member_included p a i rows (include row.account_id involved) (ground (arith, h, q)) k
        ])
  | inr e ↦
      let differs : (row.account_id == a) ≡ false = ground (arith, h, k, e, ap p) in
      subst
        (λ b.
          contains
            (include_all
              (if b
                then row ∷ keep (λ (r : Member). p r.identity_id) rows
                else keep (λ (r : Member). p r.identity_id) rows)
              involved)
            a
          ≡ true)
        (sym e) (member_included p a i rows involved (ground (arith, h, differs)) k)
]

-- A row that is kept passes the test.
kept_passes :
    (p : ℕ → Bool) (a i : ℕ) (list : List Member)
    → identity_of a (keep (λ row. p row.identity_id) list) ≡ some i
    → p i ≡ true
unfolding keep identity_of
kept_passes p a i [] h = absurd (ground (arith, h))
kept_passes p a i (row ∷ list) h = ground (arith, h, kept_passes p a i list, ap p)

one_of : (x y : Option ℕ) (i : ℕ) → is_one_of x y i ≡ true → (x ≡ some i) ⊎ (y ≡ some i)
unfolding is_one_of
one_of (some x) (some y) i h = ground (arith, h)
one_of (some x) none i h = ground (arith, h)
one_of none (some y) i h = ground (arith, h)
one_of none none i h = absurd (ground (arith, h))

module _ (subject : ℕ) (target : Option ℕ) (rows : List Member) where
  pub subject_involved : contains (first_involved subject target rows) subject ≡ true
  unfolding first_involved include_target
  subject_involved =
      include_all-Includes (old_members subject target rows) (include_target target (subject ∷ []))
        subject (first target)
    where
      first : (o : Option ℕ) → contains (include_target o (subject ∷ [])) subject ≡ true
      first none = unfold contains in ground arith
      first (some t) = unfold contains in ground (arith, contains-include t subject (subject ∷ []))

  pub target_involved :
      (t : ℕ) → target ≡ some t → contains (first_involved subject target rows) t ≡ true
  unfolding first_involved include_target
  target_involved t e =
      include_all-Includes (old_members subject target rows) (include_target target (subject ∷ []))
        t (first target e)
    where
      first : (o : Option ℕ) → o ≡ some t → contains (include_target o (subject ∷ [])) t ≡ true
      first none h = absurd (ground (arith, h))
      first (some u) h = ground (arith, h, contains-include u t (subject ∷ []))

  -- Whether an identity is that of the subject or of the target.
  unfoldable pub concerned : ℕ → Bool
  unfolding is_one_of identity_of_target or_minus_one
  concerned i =
      is_one_of (identity_of subject rows) (identity_of_target (or_minus_one target) rows) i

  pub member_involved :
      (a i : ℕ)
      → identity_of a rows ≡ some i
      → concerned i ≡ true
      → contains (first_involved subject target rows) a ≡ true
  unfolding first_involved old_members concerned
  member_involved a i h k =
      member_included
        (is_one_of (identity_of subject rows) (identity_of_target (or_minus_one target) rows)) a i
        rows (include_target target (subject ∷ [])) h k

  -- The identities of the old members are concerned.
  pub old-concerned :
      (a i : ℕ) → identity_of a (old_members subject target rows) ≡ some i → concerned i ≡ true
  unfolding old_members concerned
  old-concerned a i h =
      kept_passes
        (is_one_of (identity_of subject rows) (identity_of_target (or_minus_one target) rows)) a i
        rows h

  of_target :
      (o : Option ℕ) (i : ℕ)
      → identity_of_target o rows ≡ some i
      → (a : ℕ) × (identity_of a rows ≡ some i)
  unfolding identity_of_target
  of_target none i h = absurd (ground (arith, h))
  of_target (some t) i h = (t, h)

  -- A concerned identity is some account's.
  pub concerned_account : (i : ℕ) → concerned i ≡ true → (a : ℕ) × (identity_of a rows ≡ some i)
  unfolding concerned
  concerned_account i h =
      elim (one_of (identity_of subject rows) (identity_of_target (or_minus_one target) rows) i h) [
        | inl e ↦ (subject, e)
        | inr e ↦ of_target (or_minus_one target) i e
      ]
