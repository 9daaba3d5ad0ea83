-- ===== src/Identity/Groups.antt =====
-- What the identities of accounts are to be: the classes of the confirmed pairs of accounts.
use mathlib.Core.List.{Memᴰ}
use mathlib.Core.List.Memᴰ
use data_processing.Prelude.{
  subst, ℕ, none, some, List, [], ◌∷◌, true, false, ◌≡◌, ◌≢◌, ◌⊎◌, ◌<◌, ◌==◌, refl, sym, ap, ◌∙◌,
  inl, inr, arith, Bool-cases, ==_iff,
}
use data_processing.Lineage.Leads.{Connected, pair, self, back, join}
use data_processing.Identity.{Member, contains, identity_of, larger, new_id}
use data_processing.Identity.Forest.Nodes.{is_end}

-- Accounts have the same identity exactly where confirmed pairs connect them, and an identity exactly
-- where they are in such a pair; every identity that is given is on record, and none is 0.
pub record Grouped (pairs : List (ℕ × ℕ)) (members : List Member) (identities : List ℕ)
    : Type 0 where
  pub sound :
      (a b i : ℕ)
      → identity_of a members ≡ some i
      → identity_of b members ≡ some i
      → Connected pairs a b
  pub covered : (a b : ℕ) → Memᴰ (a, b) pairs → identity_of a members ≡ identity_of b members
  pub given : (a : ℕ) → is_end pairs a ≡ true → identity_of a members ≢ none
  pub only : (a i : ℕ) → identity_of a members ≡ some i → is_end pairs a ≡ true
  pub known : (a i : ℕ) → identity_of a members ≡ some i → contains identities i ≡ true
  pub positive : contains identities 0 ≡ false

-- Connected accounts have the same identity.
pub Connected-identity :
    (pairs : List (ℕ × ℕ)) (members : List Member) (identities : List ℕ) {a b : ℕ}
    → Grouped pairs members identities
    → Connected pairs a b
    → identity_of a members ≡ identity_of b members
Connected-identity pairs members identities g (pair {a} {b} h) = g.covered a b h
Connected-identity pairs members identities g self = refl
Connected-identity pairs members identities g (back c) =
    sym (Connected-identity pairs members identities g c)
Connected-identity pairs members identities g (join c d) =
    Connected-identity pairs members identities g c
    ∙ Connected-identity pairs members identities g d

-- The ends of a pair.
pub is_end-pair :
    (pairs : List (ℕ × ℕ)) (x y : ℕ)
    → Memᴰ (x, y) pairs
    → (is_end pairs x ≡ true) × (is_end pairs y ≡ true)
is_end-pair [] x y h = absurd (Memᴰ.not-nil h)
is_end-pair ((a, b) ∷ pairs) x y h = elim (Memᴰ.cases_cons h) [
  | inl e ↦
      let p : x ≡ a = ap (λ (q : ℕ × ℕ). q.0) e in
      let q : y ≡ b = ap (λ (r : ℕ × ℕ). r.1) e in unfold is_end in ground (arith, p, q)
  | inr t ↦ later a b x y pairs (is_end-pair pairs x y t)
]
  where
    later :
        (a b x y : ℕ) (pairs : List (ℕ × ℕ))
        → (is_end pairs x ≡ true) × (is_end pairs y ≡ true)
        → (is_end ((a, b) ∷ pairs) x ≡ true) × (is_end ((a, b) ∷ pairs) y ≡ true)
    later a b x y pairs h = unfold is_end in ground (arith, h.0, h.1)

-- The pair that an end belongs to.
pub record PairOf (pairs : List (ℕ × ℕ)) (a : ℕ) : Type 0 where
  pub first : ℕ
  pub second : ℕ
  pub is_in : Memᴰ (first, second) pairs
  pub side : (a ≡ first) ⊎ (a ≡ second)

pub pair_of : (pairs : List (ℕ × ℕ)) (a : ℕ) → is_end pairs a ≡ true → PairOf pairs a
unfolding is_end
pair_of [] a h = absurd (ground (arith, h))
pair_of ((x, y) ∷ pairs) a h = elim (Bool-cases (x == a)) [
  | inl e ↦ record {
    first = x;
    second = y;
    is_in = Memᴰ.head refl;
    side = inl (sym ((==_iff x a).0 e));
  }
  | inr e ↦ elim (Bool-cases (y == a)) [
    | inl f ↦ record {
      first = x;
      second = y;
      is_in = Memᴰ.head refl;
      side = inr (sym ((==_iff y a).0 f));
    }
    | inr f ↦
        let p = pair_of pairs a (ground (arith, h, e, f)) in
        record { first = p.first; second = p.second; is_in = Memᴰ.tail p.is_in; side = p.side }
  ]
]

-- An end of a pair is an end of the pair wherever it stands.
pub is_end_mono :
    (pairs more : List (ℕ × ℕ))
    → ((x y : ℕ) → Memᴰ (x, y) pairs → Memᴰ (x, y) more)
    → (a : ℕ) → is_end pairs a ≡ true
    → is_end more a ≡ true
is_end_mono pairs more f a h =
    let p = pair_of pairs a h in
    let k = is_end-pair more p.first p.second (f p.first p.second p.is_in) in
    elim p.side [
      | inl q ↦ subst (λ z. is_end more z ≡ true) (sym q) k.0
      | inr q ↦ subst (λ z. is_end more z ≡ true) (sym q) k.1
    ]

pub Connected-mono :
    {pairs more : List (ℕ × ℕ)} {a b : ℕ}
    → ((x y : ℕ) → Memᴰ (x, y) pairs → Memᴰ (x, y) more)
    → Connected pairs a b
    → Connected more a b
Connected-mono f (pair {a} {b} h) = pair (f a b h)
Connected-mono f self = self
Connected-mono f (back c) = back (Connected-mono f c)
Connected-mono f (join c d) = join (Connected-mono f c) (Connected-mono f d)

-- A new id is larger than every id on record.
pub below-new_id : (ids : List ℕ) (i : ℕ) → contains ids i ≡ true → i < new_id ids
unfolding contains new_id larger
below-new_id [] i h = absurd (ground (arith, h))
below-new_id (j ∷ ids) i h = ground (arith, h, below-new_id ids i)

pub positive-new_id : (ids : List ℕ) → 0 < new_id ids
unfolding new_id larger
positive-new_id [] = omega arith
positive-new_id (j ∷ ids) = ground (arith, positive-new_id ids)
