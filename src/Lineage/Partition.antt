-- ===== src/Lineage/Partition.antt =====
-- The partition that the unions of pairs give.
use mathlib.Core.List.{Memᴰ}
use mathlib.Core.List.Memᴰ
use data_processing.Prelude.{
  List, [], ◌∷◌, inl, inr, refl, sym, subst, arith, All, All-append, ◌++◌,
}
use data_processing.Effect.{Outcome, Step, returned, raised, unfinished, and_then, ◌>>=◌}
use data_processing.Effect.Triple.{Post, Post-weaken}
use data_processing.RemoteSync.Types.{Exception}
use data_processing.Lineage.{NodeOrder, Parents, parent_of, add, union, union_all, add_all}
use data_processing.Lineage.Find.{Overflow}
use data_processing.Lineage.Leads.{Connected, pair, HasKey, Sound}
use data_processing.Lineage.Compress.{parent_of-add}
use data_processing.Lineage.Union.{Joined, Grown, Grown-add, Grown-refl, Grown-trans, union-Joins}

pub All-mem : {A : Type 0} (P : A → Type 0) (xs : List A) (x : A) → All P xs → Memᴰ x xs → P x
All-mem P [] x h m = absurd (Memᴰ.not-nil m)
All-mem P (y ∷ ys) x h m = elim (Memᴰ.cases_cons m) [
  | inl e ↦ subst P (sym e) h.0
  | inr t ↦ All-mem P ys x h.1 t
]

mem-All : {A : Type 0} (P : A → Type 0) (xs : List A) → ((x : A) → Memᴰ x xs → P x) → All P xs
mem-All P [] h = tt
mem-All P (x ∷ xs) h = (h x (Memᴰ.head refl), mem-All P xs (λ y m. h y (Memᴰ.tail m)))

module _ {N : Type 0} (o : NodeOrder N) (pairs : List (N × N)) where
  abbrev pub AllJoined : List (N × N) → Parents N → Type 0
  AllJoined todo m = All (λ p. Joined o m p.0 p.1) todo

  pub AllJoined-keep :
      (todo : List (N × N)) (m m' : Parents N)
      → ((x y : N) → Joined o m x y → Joined o m' x y)
      → AllJoined todo m
      → AllJoined todo m'
  AllJoined-keep [] m m' k h = tt
  AllJoined-keep (p ∷ todo) m m' k h = (k p.0 p.1 h.0, AllJoined-keep todo m m' k h.1)

  abbrev pub Extended : Parents N → List (N × N) → Outcome Exception (Unit {0}) × Parents N → Type 0
  Extended m todo r = Post (λ _ m'. Grown o pairs m m' × AllJoined todo m') (Overflow o) r

  after_rest :
      (m0 m : Parents N) (done todo : List (N × N)) (r : Outcome Exception (Unit {0}) × Parents N)
      → Grown o pairs m0 m
      → AllJoined done m
      → Extended m todo r
      → Extended m0 (done ++ todo) r
  after_rest m0 m done todo (returned u, t) g j (h, q) = (
    Grown-trans o pairs m0 m t g h,
    All-append (λ p. Joined o t p.0 p.1) done todo (AllJoined-keep done m t h.joined j) q,
  )
  after_rest m0 m done todo (raised e, t) g j q = q
  after_rest m0 m done todo (unfinished, t) g j q = absurd q

  -- One step that joins pairs after another.
  pub Extended-then :
      (m0 m : Parents N) (done todo : List (N × N)) (r : Outcome Exception (Unit {0}) × Parents N)
      (f : Step Exception (Parents N) (Unit {0}))
      → Grown o pairs m0 m
      → Extended m done r
      → ((t : Parents N) → Sound o pairs t → Extended t todo (f t))
      → Extended m0 (done ++ todo) (and_then r (λ _. f))
  Extended-then m0 m done todo (returned u, t) f g (h, j) later =
      after_rest m0 t done todo (f t) (Grown-trans o pairs m0 m t g h) j (later t h.sound)
  Extended-then m0 m done todo (raised e, t) f g q later = q
  Extended-then m0 m done todo (unfinished, t) f g q later = absurd q

  pub union-Extended :
      (a b : N) (m : Parents N)
      → Sound o pairs m
      → Connected pairs a b
      → Extended m ((a, b) ∷ []) (union o a b m)
  union-Extended a b m s c =
      Post-weaken (union o a b m) (λ _ t (g, j). (g, (j, tt))) (λ _ _ q. q)
        (union-Joins o pairs m a b s c)

  pub union_all-Extended :
      (todo : List (N × N)) (m : Parents N)
      → Sound o pairs m
      → All (λ p. Connected pairs p.0 p.1) todo
      → Extended m todo (union_all o todo m)
  unfolding union_all ◌>>=◌
  union_all-Extended [] m s c = (Grown-refl o pairs m s, tt)
  union_all-Extended ((a, b) ∷ todo) m s c =
      Extended-then m m ((a, b) ∷ []) todo (union o a b m) (union_all o todo)
        (Grown-refl o pairs m s) (union-Extended a b m s c.0)
        (λ t s'. union_all-Extended todo t s' c.1)

  pub add_all-Grown :
      (nodes : List N) (m : Parents N) → Sound o pairs m → Grown o pairs m (add_all o nodes m)
  unfolding add_all
  add_all-Grown [] m s = Grown-refl o pairs m s
  add_all-Grown (n ∷ nodes) m s =
      let g = Grown-add o pairs n m s in
      Grown-trans o pairs m (add o n m) (add_all o nodes (add o n m)) g
        (add_all-Grown nodes (add o n m) g.sound)

  pub add_all-keys :
      (nodes : List N) (m : Parents N) → Sound o pairs m → All (HasKey o (add_all o nodes m)) nodes
  unfolding add_all
  add_all-keys [] m s = tt
  add_all-keys (n ∷ nodes) m s =
      let g = Grown-add o pairs n m s in
      (
        (add_all-Grown nodes (add o n m) g.sound).keys n (parent_of-add o n m),
        add_all-keys nodes (add o n m) g.sound,
      )

  pub empty-Sound : Sound o pairs []
  unfolding parent_of
  empty-Sound = record {
    closed = λ k v h. absurd (ground (arith, h));
    small = λ k v h. absurd (ground (arith, h));
    linked = λ k v h. absurd (ground (arith, h));
  }

  pub pairs-Connected : All (λ p. Connected pairs p.0 p.1) pairs
  pairs-Connected = mem-All (λ p. Connected pairs p.0 p.1) pairs (λ p m. pair m)
