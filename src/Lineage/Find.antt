-- ===== src/Lineage/Find.antt =====
-- `find` on a sound dictionary: the root that it gives, and what it keeps.
use data_processing.Prelude.{
  ℕ, zero, suc, none, some, List, [], ◌∷◌, true, false, ◌≡◌, ◌≢◌, ◌⊎◌, inl, inr, ◌≤◌, ◌<◌, sym, ap,
  ◌∙◌, subst, arith, length, if◌then◌else◌, Bool-cases, refl, ltb,
}
use data_processing.Effect.{Outcome, returned, raised, unfinished, and_then, pure, ◌>>=◌, ◌>>◌}
use data_processing.Effect.Triple.{Post}
use data_processing.RemoteSync.Types.{Exception, other}
use data_processing.Lineage.{NodeOrder, Parents, parent_of, put, read, assign, find_within, find}
use data_processing.Lineage.Leads.{
  Leads, root, up, HasKey, key_parent, Sound, parent_unique, Leads-unique, Leads-root,
  Leads-Connected, Leads-small,
}
use data_processing.Lineage.Compress.{parent_of-put, parent_of-put_other, HasKey-put, Sound-put}

lt_or_le : (a b : ℕ) → (a < b) ⊎ (b ≤ a)
lt_or_le a b = elim (Bool-cases (ltb a b)) [
  | inl e ↦ inl (ground (arith, e))
  | inr e ↦ inr (ground (arith, e))
]

module _ {N : Type 0} (o : NodeOrder N) where
  open o use {same, before}

  pub node_cases : (a b : N) → (a ≡ b) ⊎ (a ≢ b)
  node_cases a b = elim (Bool-cases (same a b)) [
    | inl e ↦ inl (o.eq_of_same a b e)
    | inr e ↦ inr (λ q. ground (arith, e, ap (same a) q, o.same_refl a))
  ]

  -- A root is not above another node.
  pub not_root :
      (m : Parents N) (n p : N) → parent_of o n m ≡ some p → p ≢ n → parent_of o n m ≢ some n
  not_root m n p h ne k = ne (parent_unique o m n p n h k)

  -- The root as the new parent of a node leads on as before.
  pub Leads-compress :
      (m : Parents N) (n r : N) {x y : N}
      → Leads o m n r
      → Leads o m x y
      → Leads o (put o n r m) x y
  Leads-compress m n r l (root {r = y} h) = elim (node_cases n y) [
    | inl e ↦
        let q : r ≡ y = Leads-unique o m (subst (λ z. Leads o m z r) e l) (root h) in
        root (
          subst (λ z. parent_of o y (put o n r m) ≡ some z) q
            (subst (λ z. parent_of o z (put o n r m) ≡ some r) e (parent_of-put o n r m)))
    | inr d ↦ root (parent_of-put_other o n r y m d ∙ h)
  ]
  Leads-compress m n r l (up {n = x} {p} {r = y} h ne k) = elim (node_cases n x) [
    | inl e ↦
        let q : r ≡ y = Leads-unique o m (subst (λ z. Leads o m z r) e l) (up h ne k) in
        let d : r ≢ x =
          λ z. not_root m x p h ne (subst (λ w. parent_of o w m ≡ some w) z (Leads-root o m l)) in
        subst (λ z. Leads o (put o n r m) x z) q
          (up (subst (λ z. parent_of o z (put o n r m) ≡ some r) e (parent_of-put o n r m)) d
            (root (parent_of-put_other o n r r m (λ z. d (sym z ∙ e)) ∙ Leads-root o m l)))
    | inr d ↦ up (parent_of-put_other o n r x m d ∙ h) ne (Leads-compress m n r l k)
  ]

  -- How many entries stand under an earlier node.
  unfoldable pub rank : N → Parents N → ℕ
  rank n [] = 0
  rank n ((k, q) ∷ rest) = elim (before k n) [ true ↦ suc (rank n rest) | false ↦ rank n rest ]

  rank-le : (n p : N) (m : Parents N) → before p n ≡ true → rank p m ≤ rank n m
  unfolding rank
  rank-le n p [] b = omega arith
  rank-le n p ((k, q) ∷ rest) b = ground (arith, b, rank-le n p rest b, o.before_trans k p n)

  rank-lt :
      (n p q : N) (m : Parents N)
      → before p n ≡ true
      → parent_of o p m ≡ some q
      → rank p m < rank n m
  unfolding rank parent_of
  rank-lt n p q [] b h = ground (arith, h)
  rank-lt n p q ((k, q') ∷ rest) b h = elim (Bool-cases (same k p)) [
    | inl e ↦
        subst (λ z. rank p ((z, q') ∷ rest) < rank n ((z, q') ∷ rest)) (sym (o.eq_of_same k p e))
          (ground (arith, b, o.before_irrefl p, rank-le n p rest b))
    | inr e ↦ ground (arith, b, h, e, rank-lt n p q rest b, o.before_trans k p n)
  ]

  rank-length : (n : N) (m : Parents N) → rank n m ≤ length m
  unfolding rank
  rank-length n [] = omega arith
  rank-length n ((k, q) ∷ rest) = ground (arith, rank-length n rest)

  -- A call of `find` that does not fit, in a dictionary with as many entries as there are calls that do.
  abbrev pub Overflow : Exception → Parents N → Type 0
  Overflow e m = (e ≡ other "RecursionError") × (o.recursion_limit ≤ length m)

  module _ (pairs : List (N × N)) where
    -- What `find` keeps.
    pub record Kept (m m' : Parents N) : Type 0 where
      pub sound : Sound o pairs m'
      pub leads : (x y : N) → Leads o m x y → Leads o m' x y
      pub keys : (k : N) → HasKey o m k → HasKey o m' k

    abbrev pub Finds : Parents N → N → Outcome Exception N × Parents N → Type 0
    Finds m n r = Post (λ a m'. Leads o m n a × Kept m m') Overflow r

    Kept-refl : (m : Parents N) → Sound o pairs m → Kept m m
    Kept-refl m s = record { sound = s; leads = λ x y l. l; keys = λ k h. h }

    -- The recursive call, the write of its answer, and the last reading.
    after_deeper :
        (m : Parents N) (n p : N) (first : Outcome Exception N × Parents N)
        → Sound o pairs m
        → parent_of o n m ≡ some p
        → p ≢ n
        → Finds m p first
        → Finds m n (and_then (and_then first (λ r. assign o n r)) (λ _. read o n))
    unfolding assign read
    after_deeper m n p (returned r, m') s h ne (l, k) =
        let here : Leads o m n r = up h ne l in
        let there : Leads o m' n r = k.leads n r here in
        let root' = Leads-root o m' there in
        let done : Leads o m n r × Kept m (put o n r m') = (
          here,
          record {
            sound =
                Sound-put o pairs n r m' k.sound (λ z. ground (arith, z, root'))
                  (Leads-small o pairs m' k.sound there) (Leads-Connected o pairs m' k.sound there);
            leads = λ x y q. Leads-compress m' n r there (k.leads x y q);
            keys = λ j q. HasKey-put o n r j m' (k.keys j q);
          },
        ) in
        subst
          (λ z. Finds m n (elim z as (λ _. Outcome Exception N × Parents N) [
            | none ↦ (raised (other "KeyError"), put o n r m')
            | some q ↦ (returned q, put o n r m')
          ]))
          (sym (parent_of-put o n r m')) done
    after_deeper m n p (raised e, m') s h ne bad = bad
    after_deeper m n p (unfinished, m') s h ne bad = absurd bad

    at_root :
        (m : Parents N) (n p : N)
        → Sound o pairs m
        → parent_of o n m ≡ some p
        → p ≡ n
        → Finds m n (read o n m)
    unfolding read
    at_root m n p s h e =
        subst
          (λ z. Finds m n (elim z as (λ _. Outcome Exception N × Parents N) [
            | none ↦ (raised (other "KeyError"), m)
            | some q ↦ (returned q, m)
          ]))
          (sym h)
          (
            subst (λ z. Leads o m z p) e (root (subst (λ z. parent_of o z m ≡ some p) (sym e) h)),
            Kept-refl m s,
          )

    smaller :
        (m : Parents N) (n p : N)
        → Sound o pairs m
        → parent_of o n m ≡ some p
        → p ≢ n
        → before p n ≡ true
    smaller m n p s h ne = elim (s.small n p h) [ inl e ↦ absurd (ne e) | inr b ↦ b ]

    find_within-Finds :
        (fuel : ℕ) (n : N) (m : Parents N)
        → Sound o pairs m
        → HasKey o m n
        → (rank n m < fuel) ⊎ (o.recursion_limit ≤ length m)
        → Finds m n (find_within o fuel n m)
    unfolding find_within read ◌>>=◌
    find_within-Finds zero n m s key (inl enough) = absurd (omega arith)
    find_within-Finds zero n m s key (inr small) = (refl, small)
    find_within-Finds (suc fuel) n m s key enough =
        let (p, e) = key_parent o m n key in
        subst
          (λ q. Finds m n (
            and_then
              (elim q as (λ _. Outcome Exception N × Parents N) [
                | none ↦ (raised (other "KeyError"), m)
                | some v ↦ (returned v, m)
              ])
              (λ parent.
                (if same parent n
                  then pure tt
                  else (find_within o fuel parent >>= λ r. assign o n r))
                >> read o n)))
          (sym e)
          (elim (Bool-cases (same p n)) [
            | inl b ↦
                subst
                  (λ c. Finds m n (
                    ((if c then pure tt else (find_within o fuel p >>= λ r. assign o n r))
                        >> read o n)
                      m))
                  (sym b) (at_root m n p s e (o.eq_of_same p n b))
            | inr b ↦
                let ne : p ≢ n = λ q. ground (arith, b, ap (λ x. same x n) q, o.same_refl n) in
                subst
                  (λ c. Finds m n (
                    ((if c then pure tt else (find_within o fuel p >>= λ r. assign o n r))
                        >> read o n)
                      m))
                  (sym b)
                  (after_deeper m n p (find_within o fuel p m) s e ne (
                    find_within-Finds fuel p m s (s.closed n p e) (
                      let (q, f) = key_parent o m p (s.closed n p e) in
                      elim enough [
                        | inl k ↦ inl (omega (arith, rank-lt n p q m (smaller m n p s e ne) f, k))
                        | inr k ↦ inr k
                      ])))
          ])

    -- `find` of a node of the dictionary returns the root of the node, and the roots stay as they are; or
    -- its calls do not fit on the stack.
    pub find-Finds :
        (n : N) (m : Parents N) → Sound o pairs m → HasKey o m n → Finds m n (find o n m)
    unfolding find
    find-Finds n m s key =
        find_within-Finds o.recursion_limit n m s key
          (elim (lt_or_le (length m) o.recursion_limit) [
            | inl k ↦ inl (omega (arith, rank-length n m, k))
            | inr k ↦ inr k
          ])
