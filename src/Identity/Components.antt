-- ===== src/Identity/Components.antt =====
-- The loop over the components ends with each account of a component in the component's identity.
use data_processing.Prelude.{
  ℕ, none, some, List, [], ◌∷◌, true, false, ◌≡◌, ◌≢◌, refl, sym, ap, ◌∙◌, inl, inr, arith,
  Bool-cases,
}
use data_processing.Effect.{Outcome, returned, raised, unfinished, and_then, ◌>>=◌}
use data_processing.RemoteSync.Types.{Exception}
use data_processing.Identity.{Member, Tables, contains, identity_of}
use data_processing.Identity.Confirm.{identity_for}
use data_processing.Identity.Rebuild.{Edge, ends_of, insert_accounts, insert_components, reusable}
use data_processing.Identity.Forest.Nodes.{is_end}
use data_processing.Identity.Forest.Grouped.{IsGrouped, in_components}
use data_processing.Identity.Inserting.{Inserted, Inserts, insert_accounts-Inserts}
use data_processing.Identity.Placing.{
  Identified, Identifies, Placing, Placing-next, identity_for-Identifies,
}

module _ (conn : ℕ → ℕ → Type 0) (old : List Member) (R : ℕ → ℕ) where
  -- What the loop leaves.
  pub record Placed (waiting : List (ℕ × List ℕ)) (before after : Tables) : Type 0 where
    pub used : List ℕ
    pub rest : Placing conn old used [] after
    pub others :
        (a : ℕ)
        → in_components waiting a ≡ false
        → identity_of a after.members ≡ identity_of a before.members
    pub placed : (a : ℕ) → in_components waiting a ≡ true → identity_of a after.members ≢ none
    pub together :
        (a b : ℕ)
        → in_components waiting a ≡ true
        → in_components waiting b ≡ true
        → R a ≡ R b
        → identity_of a after.members ≡ identity_of b after.members
    pub candidates : after.account_candidates ≡ before.account_candidates

  abbrev pub Places : List (ℕ × List ℕ) → Tables → Outcome Exception (Unit {0}) × Tables → Type 0
  Places waiting before (returned u, after) = Placed waiting before after
  Places waiting before (raised e, after) = ⊥
  Places waiting before (unfinished, after) = ⊥

  Placed-cons :
      (accounts used : List ℕ) (root i : ℕ) (rest : List (ℕ × List ℕ)) (st t v u : Tables)
      → IsGrouped R ((root, accounts) ∷ rest)
      → Identified conn old used st i t
      → Inserted i accounts t v
      → Placed rest v u
      → Placed ((root, accounts) ∷ rest) st u
  unfolding in_components
  Placed-cons accounts used root i rest st t v u g d n p =
      let apart : (a : ℕ) → contains accounts a ≡ true → in_components rest a ≡ false =
        λ a x. ground (arith, g.0 a x, g.2 a) in
      let own : (a : ℕ) → contains accounts a ≡ true → identity_of a u.members ≡ some i =
        λ a x. p.others a (apart a x) ∙ ground (arith, n.given a, x) in
      record {
        used = p.used;
        rest = p.rest;
        others = λ a h.
            ground
              (arith, h, p.others a (ground (arith, h)), n.given a, ap (identity_of a) d.members);
        placed = λ a h z. elim (Bool-cases (contains accounts a)) [
          | inl x ↦ ground (arith, z, own a x)
          | inr x ↦ p.placed a (ground (arith, h, x)) z
        ];
        together = λ a b h k e. elim (Bool-cases (contains accounts a)) [
          | inl x ↦ elim (Bool-cases (contains accounts b)) [
            | inl y ↦ own a x ∙ sym (own b y)
            | inr y ↦ absurd (g.2 b (ground (arith, k, y)) (sym e ∙ g.0 a x))
          ]
          | inr x ↦ elim (Bool-cases (contains accounts b)) [
            | inl y ↦ absurd (g.2 a (ground (arith, h, x)) (e ∙ g.0 b y))
            | inr y ↦ p.together a b (ground (arith, h, x)) (ground (arith, k, y)) e
          ]
        ];
        candidates = p.candidates ∙ n.candidates ∙ d.candidates;
      }

  module _ (accounts used : List ℕ) (root : ℕ) (rest : List (ℕ × List ℕ)) (st : Tables)
      (g : IsGrouped R ((root, accounts) ∷ rest)) where
    then-Placed :
        (i : ℕ) (t v : Tables) (o : Outcome Exception (Unit {0}) × Tables)
        → Identified conn old used st i t
        → Inserted i accounts t v
        → Places rest v o
        → Places ((root, accounts) ∷ rest) st o
    then-Placed i t v (returned x, u) d n p = Placed-cons accounts used root i rest st t v u g d n p
    then-Placed i t v (raised e, u) d n p = p
    then-Placed i t v (unfinished, u) d n p = p

    then-Inserted :
        (i : ℕ) (t : Tables) (o : Outcome Exception (Unit {0}) × Tables)
        (f : Unit {0} → Tables → Outcome Exception (Unit {0}) × Tables)
        → Identified conn old used st i t
        → Inserts i accounts t o
        → ((v : Tables) → Inserted i accounts t v → Places rest v (f tt v))
        → Places ((root, accounts) ∷ rest) st (and_then o f)
    then-Inserted i t (returned x, v) f d n k = then-Placed i t v (f tt v) d n (k v n)
    then-Inserted i t (raised e, v) f d n k = n
    then-Inserted i t (unfinished, v) f d n k = n

    then-Identified :
        (o : Outcome Exception ℕ × Tables) (f : ℕ → Tables → Outcome Exception (Unit {0}) × Tables)
        → Identifies conn old used st o
        → ((i : ℕ) (t : Tables)
            → Identified conn old used st i t
            → Places ((root, accounts) ∷ rest) st (f i t))
        → Places ((root, accounts) ∷ rest) st (and_then o f)
    then-Identified (returned i, t) f d k = k i t d
    then-Identified (raised e, t) f d k = d
    then-Identified (unfinished, t) f d k = d

  pub insert_components-Places :
      (edges : List Edge) (used : List ℕ) (waiting : List (ℕ × List ℕ)) (st : Tables)
      → ((a b : ℕ) → R a ≡ R b → conn a b)
      → IsGrouped R waiting
      → ((a : ℕ) → in_components waiting a ≡ true → is_end (ends_of edges) a ≡ true)
      → Placing conn old used waiting st
      → Places waiting st (insert_components edges old used waiting st)
  unfolding insert_components ◌>>=◌ in_components
  insert_components-Places edges used [] st c g e p = record {
    used = used;
    rest = p;
    others = λ a h. refl;
    placed = λ a h. absurd (ground (arith, h));
    together = λ a b h. absurd (ground (arith, h));
    candidates = refl;
  }
  insert_components-Places edges used ((root, accounts) ∷ rest) st c g e p =
      then-Identified accounts used root rest st g (identity_for (reusable old used accounts) st)
        (λ i. insert_accounts edges i accounts >>= λ _. insert_components edges old (i ∷ used) rest)
        (identity_for-Identifies conn old used accounts ((root, accounts) ∷ rest) st
          (reusable old used accounts) p refl)
        (λ i t d.
          then-Inserted accounts used root rest st g i t (insert_accounts edges i accounts t)
            (λ _. insert_components edges old (i ∷ used) rest) d
            (insert_accounts-Inserts edges i accounts t g.1
              (λ a x. ground (arith, ap (identity_of a) d.members, p.without a (ground (arith, x))))
              (λ a x. e a (ground (arith, x))))
            (λ v n.
              insert_components-Places edges (i ∷ used) rest v c g.3
                (λ a x. e a (ground (arith, x)))
                (Placing-next conn old R used accounts root i rest st t v c g p d n)))
