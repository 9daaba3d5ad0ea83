-- ===== src/Lineage/Compress.antt =====
-- What the dictionary's writes do to the roots.
use data_processing.Prelude.{
  some, List, [], ◌∷◌, true, false, ◌≡◌, ◌≢◌, ◌⊎◌, inl, inr, sym, ap, ◌∙◌, subst, arith, Bool-cases,
}
use data_processing.Lineage.{NodeOrder, Parents, parent_of, put, add}
use data_processing.Lineage.Leads.{
  Connected, self, Leads, HasKey, key_parent, Sound, parent_unique, Leads-mono,
}

module _ {N : Type 0} (o : NodeOrder N) where
  open o use {same, before}

  pub differs : (a b : N) → a ≢ b → same a b ≡ false
  differs a b h = elim (Bool-cases (same a b)) [
    | inl e ↦ absurd (h (o.eq_of_same a b e))
    | inr e ↦ e
  ]

  pub parent_of-put : (n p : N) (m : Parents N) → parent_of o n (put o n p m) ≡ some p
  unfolding parent_of put
  parent_of-put n p [] = ground (arith, o.same_refl n)
  parent_of-put n p ((k, q) ∷ rest) = ground (arith, parent_of-put n p rest)

  -- An entry under the key of another is not the other's.
  same_key : (k n j : N) → same k n ≡ true → same k j ≡ true → n ≡ j
  same_key k n j h e = sym (o.eq_of_same k n h) ∙ o.eq_of_same k j e

  pub parent_of-put_other :
      (n p j : N) (m : Parents N) → n ≢ j → parent_of o j (put o n p m) ≡ parent_of o j m
  unfolding parent_of put
  parent_of-put_other n p j [] h = ground (arith, differs n j h)
  parent_of-put_other n p j ((k, q) ∷ rest) h =
      ground (arith, parent_of-put_other n p j rest h, same_key k n j, h)

  pub parent_of-add : (n : N) (m : Parents N) → HasKey o (add o n m) n
  unfolding parent_of add
  parent_of-add n [] = ground (arith, o.same_refl n)
  parent_of-add n ((k, q) ∷ rest) = ground (arith, parent_of-add n rest)

  -- What was in the dictionary stays, and what is new is a node that is its own parent.
  pub add-keeps :
      (n k v : N) (m : Parents N) → parent_of o k m ≡ some v → parent_of o k (add o n m) ≡ some v
  unfolding parent_of add
  add-keeps n k v [] h = ground (arith, h)
  add-keeps n k v ((j, q) ∷ rest) h = ground (arith, h, add-keeps n k v rest)

  pub add-new :
      (n k v : N) (m : Parents N)
      → parent_of o k (add o n m) ≡ some v
      → (parent_of o k m ≡ some v) ⊎ ((k ≡ n) × (v ≡ n))
  unfolding parent_of add
  add-new n k v [] h = ground (arith, h, o.eq_of_same n k)
  add-new n k v ((j, q) ∷ rest) h = ground (arith, h, add-new n k v rest)

  Connected-self : (pairs : List (N × N)) {a b : N} → a ≡ b → Connected pairs a b
  Connected-self pairs {a} e = subst (λ x. Connected pairs a x) e self

  pub Sound-add :
      (pairs : List (N × N)) (n : N) (m : Parents N) → Sound o pairs m → Sound o pairs (add o n m)
  Sound-add pairs n m s = record {
    closed = λ k v h. elim (add-new n k v m h) [
      | inl e ↦
          let (p, f) = key_parent o m v (s.closed k v e) in
          λ z. ground (arith, z, add-keeps n v p m f)
      | inr e ↦ subst (λ x. HasKey o (add o n m) x) (sym e.1) (parent_of-add n m)
    ];
    small =
        λ k v h. elim (add-new n k v m h) [ inl e ↦ s.small k v e | inr e ↦ inl (e.1 ∙ sym e.0) ];
    linked = λ k v h. elim (add-new n k v m h) [
      | inl e ↦ s.linked k v e
      | inr e ↦ Connected-self pairs (e.0 ∙ sym e.1)
    ];
  }

  pub Leads-add : (n : N) (m : Parents N) {x r : N} → Leads o m x r → Leads o (add o n m) x r
  Leads-add n m l = Leads-mono o m (add o n m) (λ k v. add-keeps n k v m) l

  -- A new parent for a node: what the dictionary has after it.
  pub put-new :
      (n p k v : N) (m : Parents N)
      → parent_of o k (put o n p m) ≡ some v
      → ((k ≡ n) × (v ≡ p)) ⊎ ((n ≢ k) × (parent_of o k m ≡ some v))
  put-new n p k v m h = elim (Bool-cases (same n k)) [
    | inl e ↦
        let q : k ≡ n = sym (o.eq_of_same n k e) in
        inl (
          q,
          parent_unique o (put o n p m) n v p
              (subst (λ x. parent_of o x (put o n p m) ≡ some v) q h) (parent_of-put n p m),
        )
    | inr e ↦
        let d : n ≢ k = λ q. ground (arith, e, ap (same n) q, o.same_refl n) in
        inr (d, sym (parent_of-put_other n p k m d) ∙ h)
  ]

  pub HasKey-put : (n p k : N) (m : Parents N) → HasKey o m k → HasKey o (put o n p m) k
  HasKey-put n p k m h = elim (Bool-cases (same n k)) [
    | inl e ↦ λ z. ground (
      arith,
      z,
      subst (λ x. parent_of o x (put o n p m) ≡ some p) (o.eq_of_same n k e) (parent_of-put n p m),
    )
    | inr e ↦
        let d : n ≢ k = λ q. ground (arith, e, ap (same n) q, o.same_refl n) in
        λ z. h (sym (parent_of-put_other n p k m d) ∙ z)
  ]

  -- A write of an earlier and connected node that has an entry.
  pub Sound-put :
      (pairs : List (N × N)) (n p : N) (m : Parents N)
      → Sound o pairs m
      → HasKey o m p
      → (p ≡ n) ⊎ (before p n ≡ true)
      → Connected pairs n p
      → Sound o pairs (put o n p m)
  Sound-put pairs n p m s key le c = record {
    closed = λ k v h. elim (put-new n p k v m h) [
      | inl e ↦ HasKey-put n p v m (subst (λ x. HasKey o m x) (sym e.1) key)
      | inr e ↦ HasKey-put n p v m (s.closed k v e.1)
    ];
    small = λ k v h. elim (put-new n p k v m h) [
      | inl e ↦
          subst (λ x. (x ≡ k) ⊎ (before x k ≡ true)) (sym e.1)
            (subst (λ y. (p ≡ y) ⊎ (before p y ≡ true)) (sym e.0) le)
      | inr e ↦ s.small k v e.1
    ];
    linked = λ k v h. elim (put-new n p k v m h) [
      | inl e ↦
          subst (λ x. Connected pairs k x) (sym e.1) (subst (λ y. Connected pairs y p) (sym e.0) c)
      | inr e ↦ s.linked k v e.1
    ];
  }
