-- ===== src/Lineage/Leads.antt =====
-- The root to which the parents of a node lead, and the connected nodes.
use mathlib.Core.List.{Memᴰ}
use data_processing.Prelude.{
  none, some, List, true, ◌≡◌, ◌≢◌, ◌⊎◌, inl, inr, refl, sym, ap, ◌∙◌, subst, arith, Option-cases,
}
use data_processing.Lineage.{NodeOrder, Parents, parent_of}

-- The least equivalence that has these pairs.
pub data Connected {N : Type 0} (pairs : List (N × N)) : N → N → Type 0 where
  pair : {a b : N} → Memᴰ (a, b) pairs → Connected pairs a b
  self : {a : N} → Connected pairs a a
  back : {a b : N} → Connected pairs a b → Connected pairs b a
  join : {a b c : N} → Connected pairs a b → Connected pairs b c → Connected pairs a c

module _ {N : Type 0} (o : NodeOrder N) where
  open o use {same, before}

  -- `find` ends at `r` when it starts from the node.
  pub data Leads (m : Parents N) : N → N → Type 0 where
    root : {r : N} → parent_of o r m ≡ some r → Leads m r r
    up : {n p r : N} → parent_of o n m ≡ some p → p ≢ n → Leads m p r → Leads m n r

  abbrev pub HasKey : Parents N → N → Type 0
  HasKey m n = parent_of o n m ≢ none

  pub key_parent : (m : Parents N) (n : N) → HasKey m n → (p : N) × (parent_of o n m ≡ some p)
  key_parent m n h = elim (Option-cases (parent_of o n m)) [
    | inl e ↦ absurd (h e)
    | inr (p, e) ↦ (p, e)
  ]

  -- What the dictionary of a union-find over these pairs satisfies.
  pub record Sound (pairs : List (N × N)) (m : Parents N) : Type 0 where
    pub closed : (k v : N) → parent_of o k m ≡ some v → HasKey m v
    pub small : (k v : N) → parent_of o k m ≡ some v → (v ≡ k) ⊎ (before v k ≡ true)
    pub linked : (k v : N) → parent_of o k m ≡ some v → Connected pairs k v

  some_inj : {a b : N} → some a ≡ some b → a ≡ b
  some_inj {a} h = ap (λ x. elim x [ none ↦ a | some y ↦ y ]) h

  pub parent_unique :
      (m : Parents N) (n p q : N) → parent_of o n m ≡ some p → parent_of o n m ≡ some q → p ≡ q
  parent_unique m n p q h k = some_inj (sym h ∙ k)

  pub Leads-parent :
      (m : Parents N) {n r : N} (p : N)
      → Leads m n r
      → parent_of o n m ≡ some p
      → p ≢ n
      → Leads m p r
  Leads-parent m q (root {r} h) e ne = absurd (ne (parent_unique m r q r e h))
  Leads-parent m q (up {n} {p} {r} h ne' l) e ne =
      subst (λ x. Leads m x r) (parent_unique m n p q h e) l

  pub Leads-unique : (m : Parents N) {n r s : N} → Leads m n r → Leads m n s → r ≡ s
  Leads-unique m (root {r} h) (root k) = refl
  Leads-unique m (root {r} h) (up {p} k ne l) = absurd (ne (parent_unique m r p r k h))
  Leads-unique m (up {n} {p} h ne l) k = Leads-unique m l (Leads-parent m p k h ne)

  pub Leads-root : (m : Parents N) {n r : N} → Leads m n r → parent_of o r m ≡ some r
  Leads-root m (root h) = h
  Leads-root m (up h ne l) = Leads-root m l

  pub Leads-Connected :
      (pairs : List (N × N)) (m : Parents N) {n r : N}
      → Sound pairs m
      → Leads m n r
      → Connected pairs n r
  Leads-Connected pairs m s (root h) = self
  Leads-Connected pairs m s (up {n} {p} h ne l) =
      join (s.linked n p h) (Leads-Connected pairs m s l)

  pub Leads-key : (m : Parents N) {n r : N} → Leads m n r → HasKey m n
  Leads-key m (root h) z = absurd (ground (arith, h, z))
  Leads-key m (up h ne l) z = absurd (ground (arith, h, z))

  -- The root is the smallest node on the way.
  pub Leads-small :
      (pairs : List (N × N)) (m : Parents N) {n r : N}
      → Sound pairs m
      → Leads m n r
      → (r ≡ n) ⊎ (before r n ≡ true)
  Leads-small pairs m s (root h) = inl refl
  Leads-small pairs m s (up {n} {p} {r} h ne l) =
      ground (arith, s.small n p h, Leads-small pairs m s l, o.before_trans r p n, ne)

  -- More entries lead on.
  pub Leads-mono :
      (m m' : Parents N) {n r : N}
      → ((k v : N) → parent_of o k m ≡ some v → parent_of o k m' ≡ some v)
      → Leads m n r
      → Leads m' n r
  Leads-mono m m' f (root {r} h) = root (f r r h)
  Leads-mono m m' f (up {n} {p} h ne l) = up (f n p h) ne (Leads-mono m m' f l)
