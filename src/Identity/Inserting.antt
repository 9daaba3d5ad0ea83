-- ===== src/Identity/Inserting.antt =====
-- The rows of one component: each of its accounts gets the identity, and no other account's changes.
use data_processing.Prelude.{
  ℕ, Option, none, some, List, [], ◌∷◌, ◌++◌, true, false, ◌≡◌, refl, sym, ap, ◌∙◌, subst, inl, inr,
  if◌then◌else◌, arith, Option-cases,
}
use data_processing.Effect.{Outcome, returned, raised, unfinished, and_then, ◌>>=◌}
use data_processing.RemoteSync.Types.{Exception, other}
use data_processing.Identity.{Tables, contains, identity_of}
use data_processing.Identity.Rebuild.{Edge, ends_of, evidence_of, insert_accounts, insert_rebuilt}
use data_processing.Identity.Forest.Nodes.{is_end, IsDistinct}
use data_processing.Identity.Joining.{identity_of-append}

-- An end of an edge has evidence.
pub evidence_found :
    (edges : List Edge) (a : ℕ)
    → is_end (ends_of edges) a ≡ true
    → (edge : Edge) × (evidence_of a edges ≡ some edge)
unfolding is_end evidence_of
evidence_found [] a h = absurd (ground (arith, h))
evidence_found (edge ∷ edges) a h = elim (Option-cases (evidence_of a (edge ∷ edges))) [
  | inr e ↦ e
  | inl e ↦
      let t = evidence_found edges a (ground (arith, h, e)) in absurd (ground (arith, h, e, t.1))
]

-- What the rows of accounts leave.
pub record Inserted (identity : ℕ) (accounts : List ℕ) (before after : Tables) : Type 0 where
  pub given :
      (b : ℕ)
      → identity_of b after.members
        ≡ (if contains accounts b then some identity else identity_of b before.members)
  pub identities : after.identities ≡ before.identities
  pub candidates : after.account_candidates ≡ before.account_candidates

abbrev pub Inserts : ℕ → List ℕ → Tables → Outcome Exception (Unit {0}) × Tables → Type 0
Inserts identity accounts before (returned u, after) = Inserted identity accounts before after
Inserts identity accounts before (raised e, after) = ⊥
Inserts identity accounts before (unfinished, after) = ⊥

one_row :
    (identity a : ℕ) (edge : Edge) (st : Tables)
    → identity_of a st.members ≡ none
    → Inserts identity (a ∷ []) st (insert_rebuilt identity a (some edge) st)
unfolding insert_rebuilt contains
one_row identity a edge st n =
    subst
      (λ (o : Option ℕ). Inserts identity (a ∷ []) st (elim o [
        | some id ↦ (raised (other "IntegrityError"), st)
        | none ↦ (
          returned tt,
          record st {
            members =
                st.members
                ++ record {
                  identity_id = identity;
                  account_id = a;
                  account_candidate_id = edge.candidate_id;
                  decision_id = edge.decision_id;
                }
                  ∷ [];
          },
        )
      ]))
      (sym n)
      (record {
        given = λ b. ground (
          arith,
          n,
          ap (λ (x : ℕ). identity_of x st.members),
          identity_of-append b st.members (record {
            identity_id = identity;
            account_id = a;
            account_candidate_id = edge.candidate_id;
            decision_id = edge.decision_id;
          }),
        );
        identities = refl;
        candidates = refl;
      })

Inserted-cons :
    (identity a : ℕ) (accounts : List ℕ) (st t u : Tables)
    → Inserted identity (a ∷ []) st t
    → Inserted identity accounts t u
    → Inserted identity (a ∷ accounts) st u
unfolding contains
Inserted-cons identity a accounts st t u i j = record {
  given = λ b. ground (arith, i.given b, j.given b);
  identities = j.identities ∙ i.identities;
  candidates = j.candidates ∙ i.candidates;
}

then-Inserts :
    (identity a : ℕ) (accounts : List ℕ) (st : Tables) (o : Outcome Exception (Unit {0}) × Tables)
    (f : Unit {0} → Tables → Outcome Exception (Unit {0}) × Tables)
    → Inserts identity (a ∷ []) st o
    → ((t : Tables) → Inserted identity (a ∷ []) st t → Inserts identity accounts t (f tt t))
    → Inserts identity (a ∷ accounts) st (and_then o f)
then-Inserts identity a accounts st (returned x, t) f i rest = last (f tt t) (rest t i)
  where
    last :
        (o : Outcome Exception (Unit {0}) × Tables)
        → Inserts identity accounts t o
        → Inserts identity (a ∷ accounts) st o
    last (returned y, u) j = Inserted-cons identity a accounts st t u i j
    last (raised e, u) j = j
    last (unfinished, u) j = j
then-Inserts identity a accounts st (raised e, t) f i rest = i
then-Inserts identity a accounts st (unfinished, t) f i rest = i

-- The later accounts still have no identity.
still_none :
    (a b : ℕ) (accounts : List ℕ) (st t : Tables) (identity : ℕ)
    → Inserted identity (a ∷ []) st t
    → contains accounts a ≡ false
    → ((c : ℕ) → contains (a ∷ accounts) c ≡ true → identity_of c st.members ≡ none)
    → contains accounts b ≡ true
    → identity_of b t.members ≡ none
unfolding contains
still_none a b accounts st t identity i d n k =
    ground (arith, k, d, i.given b, n b, ap (contains accounts))

pub insert_accounts-Inserts :
    (edges : List Edge) (identity : ℕ) (accounts : List ℕ) (st : Tables)
    → IsDistinct accounts
    → ((a : ℕ) → contains accounts a ≡ true → identity_of a st.members ≡ none)
    → ((a : ℕ) → contains accounts a ≡ true → is_end (ends_of edges) a ≡ true)
    → Inserts identity accounts st (insert_accounts edges identity accounts st)
unfolding insert_accounts ◌>>=◌
insert_accounts-Inserts edges identity [] st d n e = record {
  given = λ b. unfold contains in refl;
  identities = refl;
  candidates = refl;
}
insert_accounts-Inserts edges identity (a ∷ accounts) st d n e =
    let here : contains (a ∷ accounts) a ≡ true = unfold contains in ground arith in
    let (edge, f) = evidence_found edges a (e a here) in
    then-Inserts identity a accounts st (insert_rebuilt identity a (evidence_of a edges) st)
      (λ _. insert_accounts edges identity accounts)
      (subst (λ o. Inserts identity (a ∷ []) st (insert_rebuilt identity a o st)) (sym f)
        (one_row identity a edge st (n a here)))
      (λ t i.
        insert_accounts-Inserts edges identity accounts t d.1
          (λ b k. still_none a b accounts st t identity i d.0 n k)
          (λ b k. e b (unfold contains in ground (arith, k))))
