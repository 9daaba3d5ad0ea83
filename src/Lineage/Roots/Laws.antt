-- ===== src/Lineage/Roots/Laws.antt =====
-- The loops of `lineage_components` end, and keep a sound dictionary with the rows' pairs joined.
use data_processing.Prelude.{List, [], ◌∷◌, ◌++◌, ◌≡◌, refl, ap, map, All}
use data_processing.Effect.{
  Outcome, Step, returned, raised, unfinished, and_then, pure, ◌>>=◌, ◌>>◌,
}
use data_processing.Effect.Triple.{Post}
use data_processing.RemoteSync.Types.{Exception}
use data_processing.Lineage.{NodeOrder, Parents, add, find, union}
use data_processing.Lineage.Leads.{Connected, Leads, HasKey, Sound}
use data_processing.Lineage.Find.{Overflow, Finds, Kept, find-Finds}
use data_processing.Lineage.Union.{Grown-add, Grown-refl, Grown-trans}
use data_processing.Lineage.Partition.{Extended, Extended-then, union-Extended, union_all-Extended}
use data_processing.Lineage.Roots.{
  Node, Catalog, DependencePolicy, connect_edges, find_all, join_rows, edges, dependence,
  occurrence_anchor, work_anchor, representation_anchor,
}

All-left : {A : Type 0} (P : A → Type 0) (xs ys : List A) → All P (xs ++ ys) → All P xs
All-left P [] ys h = tt
All-left P (x ∷ xs) ys h = (h.0, All-left P xs ys h.1)

All-right : {A : Type 0} (P : A → Type 0) (xs ys : List A) → All P (xs ++ ys) → All P ys
All-right P [] ys h = h
All-right P (x ∷ xs) ys h = All-right P xs ys h.1

module _ (o : NodeOrder Node) (pairs : List (Node × Node)) where
  abbrev AreConnected : List (Node × Node) → Type 0
  AreConnected todo = All (λ p. Connected pairs p.0 p.1) todo

  connect_edges-Extended :
      (todo : List (Node × Node)) (m : Parents Node)
      → Sound o pairs m
      → AreConnected todo
      → Extended o pairs m todo (connect_edges o todo m)
  unfolding connect_edges ◌>>=◌
  connect_edges-Extended [] m s c = (Grown-refl o pairs m s, tt)
  connect_edges-Extended ((a, b) ∷ todo) m s c =
      let g1 = Grown-add o pairs a m s in
      let g2 = Grown-add o pairs b (add o a m) g1.sound in
      let m2 = add o b (add o a m) in
      Extended-then o pairs m m2 ((a, b) ∷ []) todo (union o a b m2) (connect_edges o todo)
        (Grown-trans o pairs m (add o a m) m2 g1 g2) (union-Extended o pairs a b m2 g2.sound c.0)
        (λ t s'. connect_edges-Extended todo t s' c.1)

  -- A loop over the first pairs, and then the others.
  unfoldable pub Loops : List (Node × Node) → Step Exception (Parents Node) (Unit {0}) → Type 0
  Loops todo f = (m : Parents Node) → Sound o pairs m → Extended o pairs m todo (f m)

  Loops-then :
      (done todo : List (Node × Node)) (f g : Step Exception (Parents Node) (Unit {0}))
      → Loops done f
      → Loops todo g
      → Loops (done ++ todo) (f >> g)
  unfolding Loops ◌>>=◌
  Loops-then done todo f g hf hg m s =
      Extended-then o pairs m m done todo (f m) g (Grown-refl o pairs m s) (hf m s) hg

  pub join_rows-Loops :
      (policy : DependencePolicy) (c : Catalog)
      → AreConnected (dependence policy c)
      → Loops (dependence policy c) (join_rows o policy c)
  unfolding join_rows dependence Loops
  join_rows-Loops policy c h =
      let p1 = map occurrence_anchor c.occurrences in
      let p2 = map work_anchor c.works in
      let p3 = map representation_anchor c.representations in
      let p4 = edges policy c.relationships in
      let P : Node × Node → Type 0 = λ p. Connected pairs p.0 p.1 in
      let h2 = All-right P p1 (p2 ++ (p3 ++ p4)) h in
      let h3 = All-right P p2 (p3 ++ p4) h2 in
      Loops-then p1 (p2 ++ (p3 ++ p4)) _ _
        (λ m s. union_all-Extended o pairs p1 m s (All-left P p1 (p2 ++ (p3 ++ p4)) h))
        (Loops-then p2 (p3 ++ p4) _ _
          (λ m s. union_all-Extended o pairs p2 m s (All-left P p2 (p3 ++ p4) h2))
          (Loops-then p3 p4 _ _ (λ m s. union_all-Extended o pairs p3 m s (All-left P p3 p4 h3))
            (λ m s. connect_edges-Extended p4 m s (All-right P p3 p4 h3))))

  -- The loop over the nodes.
  abbrev pub Rooted : List (Node × Node) → Parents Node → Type 0
  Rooted roots m = All (λ p. Leads o m p.0 p.1) roots

  Rooted-keep :
      (m m' : Parents Node) (roots : List (Node × Node))
      → Kept o pairs m m'
      → Rooted roots m
      → Rooted roots m'
  Rooted-keep m m' [] k h = tt
  Rooted-keep m m' ((x, r) ∷ roots) k h = (k.leads x r h.0, Rooted-keep m m' roots k h.1)

  abbrev pub Roots :
      Parents Node → List Node → Outcome Exception (List (Node × Node)) × Parents Node → Type 0
  Roots m ns r =
      Post (λ roots m'. Kept o pairs m m' × Rooted roots m' × (map (λ p. p.0) roots ≡ ns))
        (Overflow o) r

  Kept-trans :
      (m m' m'' : Parents Node) → Kept o pairs m m' → Kept o pairs m' m'' → Kept o pairs m m''
  Kept-trans m m' m'' g h = record {
    sound = h.sound;
    leads = λ x y l. h.leads x y (g.leads x y l);
    keys = λ k q. h.keys k (g.keys k q);
  }

  after_later :
      (m0 m : Parents Node) (n a : Node) (ns : List Node)
      (r : Outcome Exception (List (Node × Node)) × Parents Node)
      → Kept o pairs m0 m
      → Leads o m n a
      → Roots m ns r
      → Roots m0 (n ∷ ns) (and_then r (λ later. pure ((n, a) ∷ later)))
  after_later m0 m n a ns (returned roots, t) k l (k', h, e) =
      (Kept-trans m0 m t k k', (k'.leads n a l, h), ap (λ z. n ∷ z) e)
  after_later m0 m n a ns (raised e, t) k l q = q
  after_later m0 m n a ns (unfinished, t) k l q = absurd q

  after_find :
      (m0 : Parents Node) (n : Node) (ns : List Node) (r : Outcome Exception Node × Parents Node)
      → Finds o pairs m0 n r
      → ((t : Parents Node) → Kept o pairs m0 t → Roots t ns (find_all o ns t))
      → Roots m0 (n ∷ ns) (and_then r (λ a. find_all o ns >>= λ later. pure ((n, a) ∷ later)))
  unfolding ◌>>=◌
  after_find m0 n ns (returned a, m) (l, k) f =
      after_later m0 m n a ns (find_all o ns m) k (k.leads n a l) (f m k)
  after_find m0 n ns (raised e, t) q f = q
  after_find m0 n ns (unfinished, t) q f = absurd q

  pub find_all-Roots :
      (ns : List Node) (m : Parents Node)
      → Sound o pairs m
      → All (HasKey o m) ns
      → Roots m ns (find_all o ns m)
  unfolding find_all ◌>>=◌
  find_all-Roots [] m s h = (record { sound = s; leads = λ x y l. l; keys = λ k q. q }, tt, refl)
  find_all-Roots (n ∷ ns) m s h =
      after_find m n ns (find o n m) (find-Finds o pairs n m s h.0)
        (λ t k. find_all-Roots ns t k.sound (keep t k ns h.1))
    where
      keep :
          (t : Parents Node)
          → Kept o pairs m t
          → (ks : List Node) → All (HasKey o m) ks
          → All (HasKey o t) ks
      keep t k [] q = tt
      keep t k (x ∷ ks) q = (k.keys x q.0, keep t k ks q.1)
