-- ===== src/Identity/Placing.antt =====
-- The loop over the components: each component gets an identity that no other account has.
use data_processing.Prelude.{
  ℕ, Option, none, some, List, [], ◌∷◌, true, false, ◌≡◌, ◌≢◌, refl, sym, ap, ◌∙◌, subst, inl, inr,
  if◌then◌else◌, arith, Option-cases, Bool-cases,
}
use data_processing.Effect.{Outcome, returned, raised, unfinished}
use data_processing.RemoteSync.Types.{Exception}
use data_processing.Identity.{Member, Tables, contains, identity_of, new_id}
use data_processing.Identity.Confirm.{identity_for}
use data_processing.Identity.Rebuild.{reusable}
use data_processing.Identity.Forest.Nodes.{contains-append}
use data_processing.Identity.Forest.Grouped.{IsGrouped, in_components}
use data_processing.Identity.Groups.{below-new_id, positive-new_id}
use data_processing.Identity.Inserting.{Inserted}

-- What `reusable` gives was the identity of an account, and is not used.
pub reusable_unused :
    (old : List Member) (used accounts : List ℕ) (i : ℕ)
    → reusable old used accounts ≡ some i
    → ((a : ℕ) × (identity_of a old ≡ some i)) × (contains used i ≡ false)
unfolding reusable
reusable_unused old used [] i h = absurd (ground (arith, h))
reusable_unused old used (a ∷ accounts) i h = elim (Option-cases (identity_of a old)) [
  | inl n ↦ reusable_unused old used accounts i (ground (arith, h, n))
  | inr (j, e) ↦ elim (Bool-cases (contains used j)) [
    | inl u ↦ reusable_unused old used accounts i (ground (arith, h, e, u))
    | inr u ↦
        let q : j ≡ i = ground (arith, h, e, u) in
        ((a, e ∙ ap some q), subst (λ x. contains used x ≡ false) q u)
  ]
]

module _ (conn : ℕ → ℕ → Type 0) (old : List Member) where
  -- What holds while components wait for their identities.
  pub record Placing (used : List ℕ) (waiting : List (ℕ × List ℕ)) (st : Tables) : Type 0 where
    pub sound :
        (a b i : ℕ)
        → identity_of a st.members ≡ some i
        → identity_of b st.members ≡ some i
        → conn a b
    pub known : (a i : ℕ) → identity_of a st.members ≡ some i → contains st.identities i ≡ true
    pub unused :
        (a b i : ℕ)
        → identity_of a old ≡ some i
        → contains used i ≡ false
        → identity_of b st.members ≢ some i
    pub old_known : (a i : ℕ) → identity_of a old ≡ some i → contains st.identities i ≡ true
    pub positive : contains st.identities 0 ≡ false
    pub without : (a : ℕ) → in_components waiting a ≡ true → identity_of a st.members ≡ none

  -- The identity of a component, and the tables with it on record.
  pub record Identified (used : List ℕ) (st : Tables) (i : ℕ) (after : Tables) : Type 0 where
    pub new_to : (b : ℕ) → identity_of b st.members ≢ some i
    pub listed : contains after.identities i ≡ true
    pub widens : (j : ℕ) → contains st.identities j ≡ true → contains after.identities j ≡ true
    pub above : contains after.identities 0 ≡ false
    pub members : after.members ≡ st.members
    pub candidates : after.account_candidates ≡ st.account_candidates

  abbrev pub Identifies : List ℕ → Tables → Outcome Exception ℕ × Tables → Type 0
  Identifies used st (returned i, after) = Identified used st i after
  Identifies used st (raised e, after) = ⊥
  Identifies used st (unfinished, after) = ⊥

  pub identity_for-Identifies :
      (used accounts : List ℕ) (waiting : List (ℕ × List ℕ)) (st : Tables) (o : Option ℕ)
      → Placing used waiting st
      → reusable old used accounts ≡ o
      → Identifies used st (identity_for o st)
  unfolding identity_for
  identity_for-Identifies used accounts waiting st (some i) p h =
      let r = reusable_unused old used accounts i h in
      record {
        new_to = λ b. p.unused r.0.0 b i r.0.1 r.1;
        listed = p.old_known r.0.0 i r.0.1;
        widens = λ j k. k;
        above = p.positive;
        members = refl;
        candidates = refl;
      }
  identity_for-Identifies used accounts waiting st none p h =
      let n = new_id st.identities in
      record {
        new_to = λ b k. omega (arith, below-new_id st.identities n (p.known b n k));
        listed = unfold contains in ground (arith, contains-append st.identities (n ∷ []) n);
        widens = λ j k. ground (arith, k, contains-append st.identities (n ∷ []) j);
        above =
            unfold contains in
            ground (
              arith,
              p.positive,
              positive-new_id st.identities,
              contains-append st.identities (n ∷ []) 0,
            );
        members = refl;
        candidates = refl;
      }

  -- After the rows of a component are added, the others wait.
  pub Placing-next :
      (R : ℕ → ℕ) (used accounts : List ℕ) (root i : ℕ) (rest : List (ℕ × List ℕ)) (st t u : Tables)
      → ((a b : ℕ) → R a ≡ R b → conn a b)
      → IsGrouped R ((root, accounts) ∷ rest)
      → Placing used ((root, accounts) ∷ rest) st
      → Identified used st i t
      → Inserted i accounts t u
      → Placing (i ∷ used) rest u
  unfolding in_components
  Placing-next R used accounts root i rest st t u c g p d n =
      let same : (b : ℕ)
          → identity_of b u.members
            ≡ (if contains accounts b then some i else identity_of b st.members) =
        λ b. ground (arith, n.given b, ap (identity_of b) d.members) in
      record {
        sound = λ a b j h k. elim (Bool-cases (contains accounts a)) [
          | inl x ↦ elim (Bool-cases (contains accounts b)) [
            | inl y ↦ c a b (g.0 a x ∙ sym (g.0 b y))
            | inr y ↦ absurd (ground (arith, same a, same b, h, k, x, y, d.new_to b))
          ]
          | inr x ↦ elim (Bool-cases (contains accounts b)) [
            | inl y ↦ absurd (ground (arith, same a, same b, h, k, x, y, d.new_to a))
            | inr y ↦ p.sound a b j (ground (arith, same a, h, x)) (ground (arith, same b, k, y))
          ]
        ];
        known = λ a j h. elim (Bool-cases (contains accounts a)) [
          | inl x ↦
              let q : i ≡ j = ground (arith, same a, h, x) in
              subst (λ ids. contains ids j ≡ true) (sym n.identities)
                (subst (λ y. contains t.identities y ≡ true) q d.listed)
          | inr x ↦
              subst (λ ids. contains ids j ≡ true) (sym n.identities)
                (d.widens j (p.known a j (ground (arith, same a, h, x))))
        ];
        unused = λ a b j h k z. elim (Bool-cases (contains accounts b)) [
          | inl x ↦ unfold contains in ground (arith, same b, x, z, k)
          | inr x ↦
              p.unused a b j h (unfold contains in ground (arith, k)) (ground (arith, same b, x, z))
        ];
        old_known = λ a j h.
            subst (λ ids. contains ids j ≡ true) (sym n.identities)
              (d.widens j (p.old_known a j h));
        positive = subst (λ ids. contains ids 0 ≡ false) (sym n.identities) d.above;
        without = λ a h. elim (Bool-cases (contains accounts a)) [
          | inl x ↦ absurd (g.2 a h (g.0 a x))
          | inr x ↦ ground (arith, same a, x, p.without a, h)
        ];
      }
