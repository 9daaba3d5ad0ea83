-- ===== src/Lineage/Union.antt =====
-- `union` joins the components of two nodes, and keeps every component whole.
use data_processing.Prelude.{
  some, List, Bool, true, false, ◌≡◌, ◌≢◌, inl, inr, refl, sym, ap, ◌∙◌, subst, arith,
  if◌then◌else◌,
}
use data_processing.Effect.{Outcome, returned, raised, unfinished, and_then, ◌>>=◌}
use data_processing.Effect.Triple.{Post}
use data_processing.RemoteSync.Types.{Exception}
use data_processing.Lineage.{NodeOrder, Parents, parent_of, put, add, find, link, union, assign}
use data_processing.Lineage.Leads.{
  Connected, join, back, Leads, root, up, HasKey, key_parent, Sound, Leads-root, Leads-Connected,
}
use data_processing.Lineage.Compress.{
  parent_of-put, parent_of-put_other, HasKey-put, Sound-put, Sound-add, Leads-add, parent_of-add,
  add-keeps,
}
use data_processing.Lineage.Find.{Overflow, node_cases, not_root, Finds, Kept, find-Finds}

module _ {N : Type 0} (o : NodeOrder N) where
  open o use {same, before}

  -- The two nodes have one root.
  abbrev pub Joined : Parents N → N → N → Type 0
  Joined m a b = (r : N) × Leads o m a r × Leads o m b r

  -- The root `b` gets the root `a` as its parent.
  module _ (m : Parents N) (a b : N) (ra : parent_of o a m ≡ some a) (rb : parent_of o b m ≡ some b)
      (d : a ≢ b) where
    below_a : parent_of o b (put o b a m) ≡ some a
    below_a = parent_of-put o b a m

    a_root : Leads o (put o b a m) a a
    a_root = root (parent_of-put_other o b a a m (λ z. d (sym z)) ∙ ra)

    Leads-link :
        {x y : N}
        → Leads o m x y
        → (y ≢ b → Leads o (put o b a m) x y) × (y ≡ b → Leads o (put o b a m) x a)
    Leads-link (root {r = y} h) = (
      (λ n. root (parent_of-put_other o b a y m (λ z. n (sym z)) ∙ h)),
      (λ e. subst (λ z. Leads o (put o b a m) z a) (sym e) (up below_a d a_root)),
    )
    Leads-link (up {n = x} {p} {r = y} h ne l) =
        let deeper = Leads-link l in
        let other_key : b ≢ x =
          λ z. not_root o m x p h ne (subst (λ w. parent_of o w m ≡ some w) z rb) in
        let step = parent_of-put_other o b a x m other_key ∙ h in
        ((λ n. up step ne (deeper.0 n)), (λ e. up step ne (deeper.1 e)))

    Joined-link : (x y : N) → Joined m x y → Joined (put o b a m) x y
    Joined-link x y (r, lx, ly) = elim (node_cases o r b) [
      | inl e ↦ (a, (Leads-link lx).1 e, (Leads-link ly).1 e)
      | inr n ↦ (r, (Leads-link lx).0 n, (Leads-link ly).0 n)
    ]

    -- The two components are one.
    linked : (x y : N) → Leads o m x a → Leads o m y b → Joined (put o b a m) x y
    linked x y lx ly = (a, (Leads-link lx).0 d, (Leads-link ly).1 refl)

  module _ (pairs : List (N × N)) where
    -- What a step on the dictionary keeps.
    pub record Grown (m m' : Parents N) : Type 0 where
      pub sound : Sound o pairs m'
      pub joined : (x y : N) → Joined m x y → Joined m' x y
      pub keys : (k : N) → HasKey o m k → HasKey o m' k

    abbrev pub Joins : Parents N → N → N → Outcome Exception (Unit {0}) × Parents N → Type 0
    Joins m a b r = Post (λ _ m'. Grown m m' × Joined m' a b) (Overflow o) r

    -- The write of `link`: the later root gets the earlier one as its parent.
    put-Joins :
        (m : Parents N) (x y a b : N)
        → Sound o pairs m
        → Connected pairs b a
        → before a b ≡ true
        → Leads o m x a
        → Leads o m y b
        → Grown m (put o b a m) × Joined (put o b a m) x y
    put-Joins m x y a b s c lt lx ly =
        let ra = Leads-root o m lx in
        let rb = Leads-root o m ly in
        let d : a ≢ b = λ z. ground (arith, lt, ap (before a) z, o.before_irrefl a) in
        (
          record {
            sound = Sound-put o pairs b a m s (λ z. ground (arith, z, ra)) (inr lt) c;
            joined = Joined-link m a b ra rb d;
            keys = λ k h. HasKey-put o b a k m h;
          },
          linked m a b ra rb d x y lx ly,
        )

    pick :
        {R : Type 0} (P : R → Type 0) (t u : Bool) (r s q : R)
        → (t ≡ true → P r)
        → (t ≡ false → u ≡ true → P s)
        → (t ≡ false → u ≡ false → P q)
        → P (if t then r else if u then s else q)
    pick P true u r s q f g h = f refl
    pick P false true r s q f g h = g refl refl
    pick P false false r s q f g h = h refl refl

    Joined-sym : (m : Parents N) (x y : N) → Joined m x y → Joined m y x
    Joined-sym m x y (r, lx, ly) = (r, ly, lx)

    link-Joins :
        (m : Parents N) (x y a b : N)
        → Sound o pairs m
        → Connected pairs x y
        → Leads o m x a
        → Leads o m y b
        → Joins m x y (link o a b m)
    unfolding link assign
    link-Joins m x y a b s c lx ly =
        let ab : Connected pairs a b =
          join (back (Leads-Connected o pairs m s lx)) (join c (Leads-Connected o pairs m s ly)) in
        pick (Joins m x y) (same a b) (before a b) (returned tt, m) (returned tt, put o b a m)
          (returned tt, put o a b m)
          (λ e. (
            record { sound = s; joined = λ u v j. j; keys = λ k h. h },
            (b, subst (λ z. Leads o m x z) (o.eq_of_same a b e) lx, ly),
          ))
          (λ e lt. put-Joins m x y a b s (back ab) lt lx ly)
          (λ e ge.
            let q = put-Joins m y x b a s ab (o.before_total a b e ge) ly lx in
            (q.0, Joined-sym (put o a b m) y x q.1))

    pub Grown-refl : (m : Parents N) → Sound o pairs m → Grown m m
    Grown-refl m s = record { sound = s; joined = λ x y j. j; keys = λ k h. h }

    -- One step after another.
    pub Grown-trans : (m m' m'' : Parents N) → Grown m m' → Grown m' m'' → Grown m m''
    Grown-trans m m' m'' g h = record {
      sound = h.sound;
      joined = λ x y j. h.joined x y (g.joined x y j);
      keys = λ k q. h.keys k (g.keys k q);
    }

    pub Kept-Grown : (m m' : Parents N) → Kept o pairs m m' → Grown m m'
    Kept-Grown m m' k = record {
      sound = k.sound;
      joined = λ x y (r, lx, ly). (r, k.leads x r lx, k.leads y r ly);
      keys = k.keys;
    }

    pub Grown-add : (n : N) (m : Parents N) → Sound o pairs m → Grown m (add o n m)
    Grown-add n m s = record {
      sound = Sound-add o pairs n m s;
      joined = λ x y (r, lx, ly). (r, Leads-add o n m lx, Leads-add o n m ly);
      keys =
          λ k h. let (p, e) = key_parent o m k h in λ z. ground (arith, z, add-keeps o n k p m e);
    }

    after_second :
        (m0 m : Parents N) (a b ra : N) (second : Outcome Exception N × Parents N)
        → Grown m0 m
        → Connected pairs a b
        → Leads o m a ra
        → Finds o pairs m b second
        → Joins m0 a b (and_then second (λ rb. link o ra rb))
    after_second m0 m a b ra (returned rb, m') g c la (lb, k) =
        after_link _ (link-Joins m' a b ra rb k.sound c (k.leads a ra la) (k.leads b rb lb))
      where
        after_link :
            (r : Outcome Exception (Unit {0}) × Parents N) → Joins m' a b r → Joins m0 a b r
        after_link (returned u, t) q =
            (Grown-trans m0 m' t (Grown-trans m0 m m' g (Kept-Grown m m' k)) q.0, q.1)
        after_link (raised e, t) q = q
        after_link (unfinished, t) q = absurd q
    after_second m0 m a b ra (raised e, m') g c la q = q
    after_second m0 m a b ra (unfinished, m') g c la q = absurd q

    after_first :
        (m0 m : Parents N) (a b : N) (first : Outcome Exception N × Parents N)
        → Grown m0 m
        → Connected pairs a b
        → HasKey o m b
        → Finds o pairs m a first
        → Joins m0 a b (and_then first (λ ra. find o b >>= λ rb. link o ra rb))
    unfolding ◌>>=◌
    after_first m0 m a b (returned ra, m') g c kb (la, k) =
        after_second m0 m' a b ra (find o b m') (Grown-trans m0 m m' g (Kept-Grown m m' k)) c
          (k.leads a ra la) (find-Finds o pairs b m' k.sound (k.keys b kb))
    after_first m0 m a b (raised e, m') g c kb q = q
    after_first m0 m a b (unfinished, m') g c kb q = absurd q

    pub union-Joins :
        (m : Parents N) (a b : N)
        → Sound o pairs m
        → Connected pairs a b
        → Joins m a b (union o a b m)
    unfolding union ◌>>=◌
    union-Joins m a b s c =
        let g1 = Grown-add a m s in
        let m1 = add o a m in
        let g2 = Grown-add b m1 g1.sound in
        let m2 = add o b m1 in
        after_first m m2 a b (find o a m2) (Grown-trans m m1 m2 g1 g2) c (parent_of-add o b m1)
          (find-Finds o pairs a m2 g2.sound (g2.keys a (parent_of-add o a m)))
