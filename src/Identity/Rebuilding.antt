-- ===== src/Identity/Rebuilding.antt =====
-- `rebuild_identity_component` ends, and makes the identities the classes of the remaining pairs.
use mathlib.Core.List.{Memᴰ}
use data_processing.Prelude.{
  ℕ, Option, none, some, List, [], true, false, not, ◌≡◌, ◌≢◌, refl, sym, ap, ◌∙◌, subst, inl, inr,
  if◌then◌else◌, arith, Bool-cases,
}
use data_processing.Lineage.Leads.{Connected}
use data_processing.Identity.{Member, Tables, contains, identity_of}
use data_processing.Identity.Closure.Loop.{AllSettled}
use data_processing.Identity.Components.{Placed}
use data_processing.Identity.Forest.Nodes.{
  contains-nodes_after, is_end, nodes_after, nodes_after-IsDistinct,
}
use data_processing.Identity.Forest.Components.{Classes, group}
use data_processing.Identity.Forest.Grouped.{
  IsGrouped, group-IsGrouped, in_components, in_components-group,
}
use data_processing.Identity.Groups.{Grouped, is_end-pair, is_end_mono, pair_of}
use data_processing.Identity.Involved.{concerned, concerned_account, old-concerned}
use data_processing.Identity.Kept.{
  contains-keep, has_member-identity_of, identity_of-keep, kept_touched, same_side, touched_kept,
}
use data_processing.Identity.Placing.{Placing}
use data_processing.Identity.Rebuild.{Edge, ends_of, has_member, is_touched, keep, old_members}
use data_processing.Identity.Remaining.{Encloses, Lessens, Connected-remains, end_remains}

-- What a rebuild starts from, once the involved accounts are known.
pub record Setting (pairs : List (ℕ × ℕ)) (edges : List Edge) (subject : ℕ) (target : Option ℕ)
    (involved : List ℕ) (st : Tables) : Type 0 where
  pub grouped : Grouped pairs st.members st.identities
  pub lessens : Lessens pairs (ends_of edges) subject target
  pub settled : AllSettled involved edges
  pub encloses : Encloses (ends_of edges) subject target involved
  pub all_involved :
      (a i : ℕ)
      → identity_of a st.members ≡ some i
      → concerned subject target st.members i ≡ true
      → contains involved a ≡ true

abbrev pub kept : List ℕ → List Edge → List Edge
kept involved edges = keep (is_touched involved) edges

abbrev pub remaining : List ℕ → Tables → List Member
remaining involved st = keep (λ row. not (contains involved row.account_id)) st.members

abbrev pub cleared : List ℕ → Tables → Tables
cleared involved st = record st { members = remaining involved st }

abbrev pub components : (ℕ → ℕ) → List Edge → List (ℕ × List ℕ)
components R edges = group R (nodes_after (ends_of edges) []) []

pub in_components-end :
    (R : ℕ → ℕ) (edges : List Edge) (a : ℕ)
    → in_components (components R edges) a ≡ is_end (ends_of edges) a
unfolding in_components contains
in_components-end R edges a =
    in_components-group R (nodes_after (ends_of edges) []) [] a
    ∙ contains-nodes_after (ends_of edges) [] a

pub components-IsGrouped : (R : ℕ → ℕ) (edges : List Edge) → IsGrouped R (components R edges)
components-IsGrouped R edges =
    group-IsGrouped R (nodes_after (ends_of edges) []) []
      (nodes_after-IsDistinct (ends_of edges) [] tt) tt (λ a h. unfold in_components in refl)

module _ (pairs : List (ℕ × ℕ)) (edges : List Edge) (subject : ℕ) (target : Option ℕ)
    (involved : List ℕ) (st : Tables) (x : Setting pairs edges subject target involved st) where
  identity_of-remaining :
      (a : ℕ)
      → identity_of a (remaining involved st)
        ≡ (if not (contains involved a) then identity_of a st.members else none)
  identity_of-remaining a = identity_of-keep (λ b. not (contains involved b)) a st.members

  -- The ends of the edges that are kept are the ends of edges that are involved.
  pub kept_end :
      (a : ℕ)
      → is_end (ends_of (kept involved edges)) a ≡ true
      → (is_end (ends_of edges) a ≡ true) × (contains involved a ≡ true)
  kept_end a h =
      let p = pair_of (ends_of (kept involved edges)) a h in
      let k = kept_touched involved edges p.first p.second p.is_in in
      let s = same_side involved edges p.first p.second x.settled k.0 in
      let n = is_end-pair (ends_of edges) p.first p.second k.0 in
      elim p.side [
        | inl q ↦ (
          subst (λ z. is_end (ends_of edges) z ≡ true) (sym q) n.0,
          ground (arith, ap (contains involved) q, k.1, s),
        )
        | inr q ↦ (
          subst (λ z. is_end (ends_of edges) z ≡ true) (sym q) n.1,
          ground (arith, ap (contains involved) q, k.1, s),
        )
      ]

  end_kept :
      (a : ℕ)
      → is_end (ends_of edges) a ≡ true
      → contains involved a ≡ true
      → is_end (ends_of (kept involved edges)) a ≡ true
  end_kept a h c =
      let p = pair_of (ends_of edges) a h in
      elim p.side [
        | inl q ↦
            let m =
              touched_kept involved edges p.first p.second p.is_in
                (inl (ap (contains involved) (sym q) ∙ c)) in
            subst (λ z. is_end (ends_of (kept involved edges)) z ≡ true) (sym q)
              (is_end-pair (ends_of (kept involved edges)) p.first p.second m).0
        | inr q ↦
            let m =
              touched_kept involved edges p.first p.second p.is_in
                (inr (ap (contains involved) (sym q) ∙ c)) in
            subst (λ z. is_end (ends_of (kept involved edges)) z ≡ true) (sym q)
              (is_end-pair (ends_of (kept involved edges)) p.first p.second m).1
      ]

  module _ (R : ℕ → ℕ) (classes : Classes (ends_of (kept involved edges)) R) where
    -- The accounts that wait have no identity once the involved ones are deleted.
    pub start-Placing :
        Placing
          (Connected (ends_of edges))
          (old_members subject target st.members)
          []
          (components R (kept involved edges))
          (cleared involved st)
    start-Placing = record {
      sound = λ a b i h k.
          Connected-remains pairs (ends_of edges) subject target involved x.lessens x.encloses
            (x.grouped.sound a b i (ground (arith, h, identity_of-remaining a))
              (ground (arith, k, identity_of-remaining b)))
            (ground (arith, h, identity_of-remaining a));
      known = λ a i h. x.grouped.known a i (ground (arith, h, identity_of-remaining a));
      unused = λ a b i h u k. ground (
        arith,
        k,
        identity_of-remaining b,
        x.all_involved b i (ground (arith, k, identity_of-remaining b))
            (old-concerned subject target st.members a i h),
      );
      old_known = λ a i h.
          let c =
            concerned_account subject target st.members i
              (old-concerned subject target st.members a i h) in
          x.grouped.known c.0 i c.1;
      positive = x.grouped.positive;
      without = λ a h. ground (
        arith,
        identity_of-remaining a,
        kept_end a (ground (arith, h, in_components-end R (kept involved edges) a)),
      );
    }

    module _ (u : Tables)
        (p : Placed
          (Connected (ends_of edges))
          (old_members subject target st.members)
          R
          (components R (kept involved edges))
          (cleared involved st)
          u) where
      -- An account that is not involved keeps its identity.
      stays :
          (a : ℕ) → contains involved a ≡ false → identity_of a u.members ≡ identity_of a st.members
      stays a h =
          let n : in_components (components R (kept involved edges)) a ≡ false =
            elim (Bool-cases (in_components (components R (kept involved edges)) a)) [
              | inl c ↦ absurd (
                  ground
                    (arith, h, kept_end a (sym (in_components-end R (kept involved edges) a) ∙ c)))
              | inr c ↦ c
            ] in
          p.others a n ∙ ground (arith, identity_of-remaining a, h)

      rebuilt_covered :
          (a b : ℕ)
          → Memᴰ (a, b) (ends_of edges)
          → identity_of a u.members ≡ identity_of b u.members
      rebuilt_covered a b m = elim (Bool-cases (contains involved a)) [
        | inl c ↦
            let k = touched_kept involved edges a b m (inl c) in
            let n = is_end-pair (ends_of (kept involved edges)) a b k in
            p.together a b (in_components-end R (kept involved edges) a ∙ n.0)
              (in_components-end R (kept involved edges) b ∙ n.1) (classes.joined a b k)
        | inr c ↦
            stays a c
            ∙ x.grouped.covered a b (x.lessens.keeps a b m)
            ∙ sym (stays b (sym (same_side involved edges a b x.settled m) ∙ c))
      ]

      rebuilt_given : (a : ℕ) → is_end (ends_of edges) a ≡ true → identity_of a u.members ≢ none
      rebuilt_given a h z = elim (Bool-cases (contains involved a)) [
        | inl c ↦ p.placed a (in_components-end R (kept involved edges) a ∙ end_kept a h c) z
        | inr c ↦
            x.grouped.given a (is_end_mono (ends_of edges) pairs x.lessens.keeps a h)
              (sym (stays a c) ∙ z)
      ]

      rebuilt_only : (a i : ℕ) → identity_of a u.members ≡ some i → is_end (ends_of edges) a ≡ true
      rebuilt_only a i h =
          elim (Bool-cases (in_components (components R (kept involved edges)) a)) [
            | inl c ↦ (kept_end a (sym (in_components-end R (kept involved edges) a) ∙ c)).0
            | inr c ↦
                let old : identity_of a (remaining involved st) ≡ some i = sym (p.others a c) ∙ h in
                end_remains pairs (ends_of edges) subject target involved x.lessens x.encloses a
                  (x.grouped.only a i (ground (arith, old, identity_of-remaining a)))
                  (ground (arith, old, identity_of-remaining a))
          ]

      pub rebuilt-Grouped :
          Grouped (ends_of edges) u.members (keep (has_member u.members) u.identities)
      rebuilt-Grouped = record {
        sound = p.rest.sound;
        covered = rebuilt_covered;
        given = rebuilt_given;
        only = rebuilt_only;
        known = λ a i h. ground (
          arith,
          contains-keep (has_member u.members) u.identities i,
          has_member-identity_of u.members a i h,
          p.rest.known a i h,
        );
        positive =
            ground (arith, contains-keep (has_member u.members) u.identities 0, p.rest.positive);
      }
