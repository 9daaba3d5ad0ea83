-- ===== src/Identity/Confirming.antt =====
-- `confirm_identity`, once the target is known, keeps the identities the classes of the pairs.
use data_processing.Prelude.{
  ℕ, zero, suc, Option, none, some, List, [], ◌∷◌, ◌++◌, true, false, ◌≡◌, ◌≢◌, ◌⊎◌, refl, sym,
  subst, inl, inr, arith, Bool-cases, Option-cases,
}
use data_processing.Effect.{Outcome, returned, raised, unfinished, ◌>>=◌}
use data_processing.RemoteSync.Types.{Exception, value_error}
use data_processing.Identity.{Member, Tables, contains, identity_of, new_id}
use data_processing.Identity.Confirm.{conflict, identity_for, insert_member, join_identity, or_else}
use data_processing.Identity.Forest.Nodes.{contains-append}
use data_processing.Identity.Groups.{Grouped, below-new_id, positive-new_id}
use data_processing.Identity.Joining.{
  Chosen, Extends, identity_of-with_both, joined-Grouped, with_both,
}

-- The identities belong to the pairs, and the reviewed candidates are left alone.
abbrev pub JoinsAccounts : List (ℕ × ℕ) → ℕ → ℕ → Tables → Outcome Exception ℕ × Tables → Type 0
JoinsAccounts more s t before (returned i, after) =
    Grouped more after.members after.identities
    × (identity_of s after.members ≡ some i)
    × (identity_of t after.members ≡ some i)
    × (after.account_candidates ≡ before.account_candidates)
JoinsAccounts more s t before (raised e, after) =
    conflict (identity_of s before.members) (identity_of t before.members) ≡ true
JoinsAccounts more s t before (unfinished, after) = ⊥

join-old :
    (s t c d i : ℕ) (st : Tables)
    → conflict (identity_of s st.members) (identity_of t st.members) ≡ false
    → or_else (identity_of s st.members) (identity_of t st.members) ≡ some i
    → join_identity s t c d st
      ≡ (returned i, record st { members = with_both i s t c d st.members })
unfolding join_identity ◌>>=◌ identity_for insert_member with_both
join-old s t c d i st h k = ground (arith, h, k)

join-new :
    (s t c d : ℕ) (st : Tables)
    → conflict (identity_of s st.members) (identity_of t st.members) ≡ false
    → or_else (identity_of s st.members) (identity_of t st.members) ≡ none
    → join_identity s t c d st ≡ (
      returned (new_id st.identities),
      record st {
        identities = st.identities ++ new_id st.identities ∷ [];
        members = with_both (new_id st.identities) s t c d st.members;
      },
    )
unfolding join_identity ◌>>=◌ identity_for insert_member with_both
join-new s t c d st h k = ground (arith, h, k)

-- What the choice between two identities that do not conflict gives.
chosen_of :
    (a b : Option ℕ) (i : ℕ)
    → conflict a b ≡ false
    → a ≢ some 0
    → b ≢ some 0
    → or_else a b ≡ some i
    → ((a ≡ none) ⊎ (a ≡ some i)) × ((b ≡ none) ⊎ (b ≡ some i)) × ((a ≡ some i) ⊎ (b ≡ some i))
unfolding conflict or_else
chosen_of none none i f za zb h = absurd (ground (arith, h))
chosen_of none (some b) i f za zb h = (inl refl, inr h, inr h)
chosen_of (some zero) b i f za zb h = absurd (za refl)
chosen_of (some (suc a)) none i f za zb h = (inr h, inl refl, inl h)
chosen_of (some (suc a)) (some b) i f za zb h = (inr h, inr (ground (arith, f, h)), inl h)

none_chosen :
    (a b : Option ℕ) → a ≢ some 0 → b ≢ some 0 → or_else a b ≡ none → (a ≡ none) × (b ≡ none)
unfolding or_else
none_chosen none b za zb h = (refl, h)
none_chosen (some zero) b za zb h = absurd (za refl)
none_chosen (some (suc a)) b za zb h = absurd (ground (arith, h))

module _ (pairs : List (ℕ × ℕ)) (rows : List Member) (identities : List ℕ)
    (g : Grouped pairs rows identities) where
  no_zero : (a : ℕ) → identity_of a rows ≢ some 0
  no_zero a h = ground (arith, g.known a 0 h, g.positive)

  old-Chosen :
      (s t i : ℕ)
      → conflict (identity_of s rows) (identity_of t rows) ≡ false
      → or_else (identity_of s rows) (identity_of t rows) ≡ some i
      → Chosen s t i rows identities identities
  old-Chosen s t i free h =
      let c =
        chosen_of (identity_of s rows) (identity_of t rows) i free (no_zero s) (no_zero t) h in
      record {
        of_first = c.0;
        of_second = c.1;
        fresh = λ ns nt a k. ground (arith, ns, nt, c.2);
        listed = elim c.2 [ inl e ↦ g.known s i e | inr e ↦ g.known t i e ];
        widens = λ j k. k;
        above = g.positive;
      }

new-Chosen :
    (pairs : List (ℕ × ℕ)) (s t : ℕ) (rows : List Member) (identities : List ℕ)
    → Grouped pairs rows identities
    → identity_of s rows ≡ none
    → identity_of t rows ≡ none
    → Chosen s t (new_id identities) rows identities (identities ++ new_id identities ∷ [])
new-Chosen pairs s t rows identities g ns nt = record {
  of_first = inl ns;
  of_second = inl nt;
  fresh = λ _ _ a h. absurd (
      omega (arith, below-new_id identities (new_id identities) (g.known a (new_id identities) h)));
  listed =
      unfold contains in
      ground (arith, contains-append identities (new_id identities ∷ []) (new_id identities));
  widens = λ j k. ground (arith, k, contains-append identities (new_id identities ∷ []) j);
  above =
      unfold contains in
      ground (
        arith,
        g.positive,
        positive-new_id identities,
        contains-append identities (new_id identities ∷ []) 0,
      );
}

module _ (pairs more : List (ℕ × ℕ)) (s t c d : ℕ) (st : Tables)
    (g : Grouped pairs st.members st.identities) (e : Extends pairs more s t) where
  -- Both accounts have the identity afterwards.
  both_have :
      (i : ℕ) (identities : List ℕ)
      → Chosen s t i st.members st.identities identities
      → (identity_of s (with_both i s t c d st.members) ≡ some i)
        × (identity_of t (with_both i s t c d st.members) ≡ some i)
  both_have i identities ch = (
    ground (arith, ch.of_first, identity_of-with_both i s t c d s st.members),
    ground (arith, ch.of_second, identity_of-with_both i s t c d t st.members),
  )

  pub join_identity-JoinsAccounts : JoinsAccounts more s t st (join_identity s t c d st)
  join_identity-JoinsAccounts =
      elim (Bool-cases (conflict (identity_of s st.members) (identity_of t st.members))) [
        | inl x ↦
            subst (λ o. JoinsAccounts more s t st o)
              {x = (
                raised (
                    value_error
                      "identity conflict: accounts already belong to different identities"),
                st,
              )}
              (unfold join_identity in ground (arith, x)) x
        | inr x ↦
            elim (Option-cases (or_else (identity_of s st.members) (identity_of t st.members))) [
              | inr (i, h) ↦
                  let ch = old-Chosen pairs st.members st.identities g s t i x h in
                  let b = both_have i st.identities ch in
                  subst (λ o. JoinsAccounts more s t st o) (sym (join-old s t c d i st x h))
                    (
                      joined-Grouped pairs more s t i c d st.members st.identities st.identities g e
                          ch,
                      b.0,
                      b.1,
                      refl,
                    )
              | inl h ↦
                  let n =
                    none_chosen _ _ (no_zero pairs st.members st.identities g s)
                      (no_zero pairs st.members st.identities g t) h in
                  let ch = new-Chosen pairs s t st.members st.identities g n.0 n.1 in
                  let b =
                    both_have (new_id st.identities) (st.identities ++ new_id st.identities ∷ [])
                      ch in
                  subst (λ o. JoinsAccounts more s t st o) (sym (join-new s t c d st x h))
                    (
                      joined-Grouped pairs more s t (new_id st.identities) c d st.members
                          st.identities (st.identities ++ new_id st.identities ∷ []) g e ch,
                      b.0,
                      b.1,
                      refl,
                    )
            ]
      ]
