-- ===== src/Identity/Joining.antt =====
-- `confirm_identity`: the accounts of a confirmed candidate come into one identity.
use mathlib.Core.List.{Memᴰ}
use data_processing.Prelude.{
  ℕ, none, some, List, [], ◌∷◌, ◌++◌, true, false, ◌≡◌, ◌≢◌, ◌⊎◌, ◌==◌, sym, ap, ◌∙◌, subst, inl,
  inr, if◌then◌else◌, arith, Bool-cases, Option-cases, ==_iff,
}
use data_processing.Lineage.Leads.{Connected, pair, self, back, join}
use data_processing.Identity.{Member, contains, identity_of}
use data_processing.Identity.Confirm.{add_member, member_row}
use data_processing.Identity.Forest.Nodes.{is_end}
use data_processing.Identity.Groups.{Grouped, Connected-mono, is_end_mono, is_end-pair, pair_of}

pub identity_of-append :
    (a : ℕ) (rows : List Member) (row : Member)
    → identity_of a (rows ++ row ∷ []) ≡ elim (identity_of a rows) [
      | some i ↦ some i
      | none ↦ if row.account_id == a then some row.identity_id else none
    ]
unfolding identity_of
identity_of-append a [] row = ground arith
identity_of-append a (r ∷ rows) row = ground (arith, identity_of-append a rows row)

identity_of-add_member :
    (a : ℕ) (row : Member) (rows : List Member)
    → identity_of a (add_member row rows) ≡ elim (identity_of a rows) [
      | some i ↦ some i
      | none ↦ if row.account_id == a then some row.identity_id else none
    ]
unfolding add_member
identity_of-add_member a row rows =
    ground (arith, identity_of-append a rows row, ap (λ (x : ℕ). identity_of x rows))

-- The pairs after one is added to them.
pub record Extends (pairs more : List (ℕ × ℕ)) (s t : ℕ) : Type 0 where
  pub keeps : (x y : ℕ) → Memᴰ (x, y) pairs → Memᴰ (x, y) more
  pub adds : Memᴰ (s, t) more
  pub nothing_else : (x y : ℕ) → Memᴰ (x, y) more → Memᴰ (x, y) pairs ⊎ ((x ≡ s) × (y ≡ t))

-- Both accounts get the identity `i` where they have none.
unfoldable pub with_both : ℕ → ℕ → ℕ → ℕ → ℕ → List Member → List Member
unfolding add_member member_row
with_both i s t candidate_id decision_id rows =
    add_member (member_row i t candidate_id decision_id)
      (add_member (member_row i s candidate_id decision_id) rows)

pub identity_of-with_both :
    (i s t c d a : ℕ) (rows : List Member)
    → identity_of a (with_both i s t c d rows) ≡ elim (identity_of a rows) [
      | some j ↦ some j
      | none ↦ if s == a then some i else if t == a then some i else none
    ]
unfolding with_both member_row
identity_of-with_both i s t c d a rows = ground (
  arith,
  identity_of-add_member a (member_row i t c d) (add_member (member_row i s c d) rows),
  identity_of-add_member a (member_row i s c d) rows,
)

-- The identity that `confirm_identity` gives to both accounts: one that they have, or a new one.
pub record Chosen (s t i : ℕ) (rows : List Member) (identities more : List ℕ) : Type 0 where
  pub of_first : (identity_of s rows ≡ none) ⊎ (identity_of s rows ≡ some i)
  pub of_second : (identity_of t rows ≡ none) ⊎ (identity_of t rows ≡ some i)
  pub fresh :
      identity_of s rows ≡ none → identity_of t rows ≡ none → (a : ℕ) → identity_of a rows ≢ some i
  pub listed : contains more i ≡ true
  pub widens : (j : ℕ) → contains identities j ≡ true → contains more j ≡ true
  pub above : contains more 0 ≡ false

module _ (pairs more : List (ℕ × ℕ)) (s t i c d : ℕ) (rows : List Member)
    (identities wider : List ℕ) (g : Grouped pairs rows identities) (e : Extends pairs more s t)
    (ch : Chosen s t i rows identities wider) where
  -- Whoever has the identity is connected with the first account.
  to_first : (a : ℕ) → identity_of a (with_both i s t c d rows) ≡ some i → Connected more a s
  to_first a h = elim (Option-cases (identity_of a rows)) [
    | inr (j, f) ↦
        let q : identity_of a rows ≡ some i =
          ground (arith, f, h, identity_of-with_both i s t c d a rows) in
        elim ch.of_first [
          | inr fs ↦ Connected-mono e.keeps (g.sound a s i q fs)
          | inl ns ↦ elim ch.of_second [
            | inr ft ↦ join (Connected-mono e.keeps (g.sound a t i q ft)) (back (pair e.adds))
            | inl nt ↦ absurd (ch.fresh ns nt a q)
          ]
        ]
    | inl n ↦ elim (Bool-cases (s == a)) [
      | inl q ↦ subst (λ x. Connected more x s) ((==_iff s a).0 q) self
      | inr q ↦
          let z : t ≡ a = ground (arith, h, n, q, identity_of-with_both i s t c d a rows) in
          subst (λ x. Connected more x s) z (back (pair e.adds))
    ]
  ]

  -- An account with another identity had it before.
  had_before :
      (a j : ℕ)
      → identity_of a (with_both i s t c d rows) ≡ some j
      → j ≢ i
      → identity_of a rows ≡ some j
  had_before a j h ne = ground (arith, h, ne, identity_of-with_both i s t c d a rows)

  joined_sound :
      (a b j : ℕ)
      → identity_of a (with_both i s t c d rows) ≡ some j
      → identity_of b (with_both i s t c d rows) ≡ some j
      → Connected more a b
  joined_sound a b j h k = elim (Bool-cases (j == i)) [
    | inl q ↦
        let z : j ≡ i = (==_iff j i).0 q in
        join (to_first a (h ∙ ap some z)) (back (to_first b (k ∙ ap some z)))
    | inr q ↦
        let ne : j ≢ i = λ z. ground (arith, q, z) in
        Connected-mono e.keeps (g.sound a b j (had_before a j h ne) (had_before b j k ne))
  ]

  joined_covered :
      (a b : ℕ)
      → Memᴰ (a, b) more
      → identity_of a (with_both i s t c d rows) ≡ identity_of b (with_both i s t c d rows)
  joined_covered a b h = elim (e.nothing_else a b h) [
    | inl m ↦ ground (
      arith,
      g.covered a b m,
      g.given a (is_end-pair pairs a b m).0,
      identity_of-with_both i s t c d a rows,
      identity_of-with_both i s t c d b rows,
    )
    | inr q ↦ ground (
      arith,
      q.0,
      q.1,
      ch.of_first,
      ch.of_second,
      ap (λ (x : ℕ). identity_of x rows) q.0,
      ap (λ (x : ℕ). identity_of x rows) q.1,
      identity_of-with_both i s t c d a rows,
      identity_of-with_both i s t c d b rows,
    )
  ]

  -- An end of a pair was one before, or is one of the two accounts.
  end_before : (a : ℕ) → is_end more a ≡ true → (is_end pairs a ≡ true) ⊎ ((a ≡ s) ⊎ (a ≡ t))
  end_before a h =
      let p = pair_of more a h in
      elim (e.nothing_else p.first p.second p.is_in) [
        | inl m ↦ elim p.side [
          | inl q ↦
              inl (
                subst (λ x. is_end pairs x ≡ true) (sym q) (is_end-pair pairs p.first p.second m).0)
          | inr q ↦
              inl (
                subst (λ x. is_end pairs x ≡ true) (sym q) (is_end-pair pairs p.first p.second m).1)
        ]
        | inr m ↦ elim p.side [ inl q ↦ inr (inl (q ∙ m.0)) | inr q ↦ inr (inr (q ∙ m.1)) ]
      ]

  pub joined-Grouped : Grouped more (with_both i s t c d rows) wider
  joined-Grouped = record {
    sound = joined_sound;
    covered = joined_covered;
    given = λ a h z. elim (end_before a h) [
      | inl m ↦ ground (arith, z, g.given a m, identity_of-with_both i s t c d a rows)
      | inr q ↦ ground (arith, z, q, identity_of-with_both i s t c d a rows)
    ];
    only = λ a j h. elim (Option-cases (identity_of a rows)) [
      | inr (k, f) ↦ is_end_mono pairs more e.keeps a (g.only a k f)
      | inl n ↦
          let ends = is_end-pair more s t e.adds in
          let z : (a ≡ s) ⊎ (a ≡ t) =
            ground (arith, h, n, identity_of-with_both i s t c d a rows) in
          elim z [
            | inl q ↦ subst (λ x. is_end more x ≡ true) (sym q) ends.0
            | inr q ↦ subst (λ x. is_end more x ≡ true) (sym q) ends.1
          ]
    ];
    known = λ a j h. elim (Option-cases (identity_of a rows)) [
      | inr (k, f) ↦
          ch.widens j (g.known a j (ground (arith, h, f, identity_of-with_both i s t c d a rows)))
      | inl n ↦
          let z : j ≡ i = ground (arith, h, n, identity_of-with_both i s t c d a rows) in
          subst (λ x. contains wider x ≡ true) (sym z) ch.listed
    ];
    positive = ch.above;
  }
