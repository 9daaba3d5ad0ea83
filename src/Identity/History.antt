-- ===== src/Identity/History.antt =====
-- Histories of reviews: what the identities are after any of them.
use data_processing.Prelude.{
  ℕ, String, Option, none, some, List, [], ◌∷◌, true, false, ◌≡◌, ◌↔◌, sym, ◌∙◌, subst, arith, inl,
  inr, Option-cases, Bool-cases,
}
use data_processing.Effect.{Outcome, returned, raised, unfinished}
use data_processing.RemoteSync.Types.{Exception}
use data_processing.Lineage.Leads.{Connected}
use data_processing.Identity.{Tables, identity_of}
use data_processing.Identity.Following.{Consistent}
use data_processing.Identity.Forest.Nodes.{is_end}
use data_processing.Identity.Groups.{Connected-identity}
use data_processing.Identity.Pairs.{pairs_of}
use data_processing.Identity.Review.{Report, review}
use data_processing.Identity.Reviewing.{Safe, review-Safe}

-- The arguments of a call of `review`.
pub record Call : Type 0 where
  pub match_ref : String
  pub decision : String
  pub note : Option String
  pub expected_generation : Option ℕ
  pub expected_revision : Option ℕ

-- The tables after calls, whatever each of them returns or raises.
unfoldable pub after_calls : List Call → Tables → Tables
unfolding review
after_calls [] s = s
after_calls (c ∷ calls) s =
    after_calls calls
      (review c.match_ref c.decision c.note c.expected_generation c.expected_revision s).1

pub Safe-Consistent :
    (s : Tables) (o : Outcome Exception Report × Tables) → Consistent s → Safe s o → Consistent o.1
Safe-Consistent s (returned r, t) c h = h
Safe-Consistent s (raised e, t) c h = subst Consistent (sym h) c
Safe-Consistent s (unfinished, t) c h = absurd h

pub after_calls-Consistent :
    (calls : List Call) (s : Tables) → Consistent s → Consistent (after_calls calls s)
unfolding after_calls
after_calls-Consistent [] s c = c
after_calls-Consistent (x ∷ calls) s c = after_calls-Consistent calls _ (
    Safe-Consistent s
      (review x.match_ref x.decision x.note x.expected_generation x.expected_revision s) c
      (review-Safe x.match_ref x.decision x.note x.expected_generation x.expected_revision s c))

-- The pairs of accounts that the tables confirm.
abbrev pub confirmed_pairs : Tables → List (ℕ × ℕ)
confirmed_pairs s = pairs_of s.account_candidates.decisions s.account_candidates.candidates

-- Both accounts have an identity, and it is the same.
abbrev pub SameIdentity : Tables → ℕ → ℕ → Type 0
SameIdentity s a b =
    (i : ℕ) × (identity_of a s.members ≡ some i) × (identity_of b s.members ≡ some i)

same_class :
    (s : Tables) (a b : ℕ)
    → Consistent s
    → SameIdentity s a b
      ↔ ((is_end (confirmed_pairs s) a ≡ true) × Connected (confirmed_pairs s) a b)
same_class s a b c = (
  (λ e. (c.grouped.only a e.0 e.1, c.grouped.sound a b e.0 e.1 e.2)),
  (λ k. elim (Option-cases (identity_of a s.members)) [
    | inl n ↦ absurd (c.grouped.given a k.0 n)
    | inr (i, e) ↦ (
      i,
      e,
      sym (Connected-identity (confirmed_pairs s) s.members s.identities c.grouped k.1) ∙ e,
    )
  ]),
)

no_class :
    (s : Tables) (a : ℕ)
    → Consistent s
    → (identity_of a s.members ≡ none) ↔ (is_end (confirmed_pairs s) a ≡ false)
no_class s a c = (
  (λ n. elim (Bool-cases (is_end (confirmed_pairs s) a)) [
    | inl h ↦ absurd (c.grouped.given a h n)
    | inr h ↦ h
  ]),
  (λ h. elim (Option-cases (identity_of a s.members)) [
    | inl n ↦ n
    | inr (i, k) ↦ absurd (ground (arith, h, c.grouped.only a i k))
  ]),
)

-- After any calls of `review` from consistent tables, two accounts have the same identity exactly where
-- the first is in a confirmed pair and confirmed pairs connect it with the second, and an account has
-- no identity exactly where it is in no confirmed pair.
pub after_calls-identities :
    (calls : List Call) (s : Tables) (a b : ℕ)
    → Consistent s
    → (SameIdentity (after_calls calls s) a b ↔ (
        (is_end (confirmed_pairs (after_calls calls s)) a ≡ true)
        × Connected (confirmed_pairs (after_calls calls s)) a b))
      × ((identity_of a (after_calls calls s).members ≡ none)
          ↔ (is_end (confirmed_pairs (after_calls calls s)) a ≡ false))
after_calls-identities calls s a b c =
    let k = after_calls-Consistent calls s c in
    (same_class (after_calls calls s) a b k, no_class (after_calls calls s) a k)
