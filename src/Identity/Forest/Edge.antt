-- ===== src/Identity/Forest/Edge.antt =====
-- One edge joins its ends, and nothing else that was apart and is not connected.
use mathlib.Core.List.{Memᴰ}
use mathlib.Core.List.Memᴰ
use data_processing.Prelude.{
  ℕ, suc, some, List, [], ◌∷◌, ◌≡◌, ◌≢◌, ◌≤◌, ◌<◌, ◌+◌, ◌==◌, refl, sym, ap, ◌∙◌, subst, inl, inr,
  if◌then◌else◌, arith, length, Bool-cases, ==_iff,
}
use data_processing.Effect.{Outcome, returned, raised, unfinished, ◌>>=◌}
use data_processing.RemoteSync.Types.{Exception}
use data_processing.Lineage.{Parents, parent_of, put, add, assign}
use data_processing.Lineage.Leads.{Connected, pair, back, join, HasKey, key_parent}
use data_processing.Identity.{contains}
use data_processing.Identity.Forest.{ids, keys, find_root, hang, join_ends}
use data_processing.Identity.Forest.Ranked.{Ranked, Ranked-hang, merged, raised_rank}
use data_processing.Identity.Forest.Find.{Finds, find_root-Finds, keys-put}
use data_processing.Identity.Forest.Nodes.{
  add_node, nodes_after, keys-add, HasKey→contains, contains→HasKey, contains-add_node,
}

-- What `find` leaves, where it returns.
pub record Found (pairs : List (ℕ × ℕ)) (R rank : ℕ → ℕ) (bound fuel a : ℕ) (m : Parents ℕ)
    : Type 0 where
  pub after : Parents ℕ
  pub result : find_root fuel a m ≡ (returned (R a), after)
  pub ranked : Ranked pairs R rank bound after
  pub at_root : parent_of ids (R a) after ≡ some (R a)
  pub nodes : keys after ≡ add_node a (keys m)

module _ (pairs : List (ℕ × ℕ)) (R rank : ℕ → ℕ) (bound : ℕ) where
  of_Finds :
      (fuel a : ℕ) (m : Parents ℕ) (o : Outcome Exception ℕ × Parents ℕ)
      → find_root fuel a m ≡ o
      → Finds pairs R rank bound a (keys (add ids a m)) o
      → Found pairs R rank bound fuel a m
  of_Finds fuel a m (returned root, m') e f = record {
    after = m';
    result = e ∙ ap (λ r. (returned r, m')) f.0;
    ranked = f.1;
    at_root = subst (λ r. parent_of ids r m' ≡ some r) f.0 f.2;
    nodes = f.3 ∙ keys-add a m;
  }
  of_Finds fuel a m (raised x, m') e f = absurd f
  of_Finds fuel a m (unfinished, m') e f = absurd f

  pub find_root-Found :
      (fuel a : ℕ) (m : Parents ℕ)
      → Ranked pairs R rank bound m
      → bound < fuel
      → Found pairs R rank bound fuel a m
  find_root-Found fuel a m w l =
      of_Finds fuel a m (find_root fuel a m) refl (find_root-Finds pairs R rank bound fuel a m w l)

  -- A root stays a root.
  stays_root :
      (r : ℕ) (m m' : Parents ℕ)
      → Ranked pairs R rank bound m
      → Ranked pairs R rank bound m'
      → parent_of ids r m ≡ some r
      → HasKey ids m' r
      → parent_of ids r m' ≡ some r
  stays_root r m m' w w' e h =
      let (v, f) = key_parent ids m' r h in ground (arith, f, w.fixed r e, w'.lower r v f, h)

-- What edges leave of the trees.
pub record Partition (pairs : List (ℕ × ℕ)) (R : ℕ → ℕ) (bound : ℕ) (edges : List (ℕ × ℕ))
    (before after : Parents ℕ) : Type 0 where
  pub roots : ℕ → ℕ
  pub ranks : ℕ → ℕ
  pub ranked : Ranked pairs roots ranks (bound + length edges) after
  pub joined : (x y : ℕ) → Memᴰ (x, y) edges → roots x ≡ roots y
  pub coarser : (x y : ℕ) → R x ≡ R y → roots x ≡ roots y
  pub nodes : keys after ≡ nodes_after edges (keys before)

-- What a step leaves.
abbrev pub Joins :
    List (ℕ × ℕ)
    → (ℕ → ℕ)
    → ℕ
    → List (ℕ × ℕ)
    → Parents ℕ
    → Outcome Exception (Unit {0}) × Parents ℕ
    → Type 0
Joins pairs R bound edges m (returned u, m') = Partition pairs R bound edges m m'
Joins pairs R bound edges m (raised x, m') = ⊥
Joins pairs R bound edges m (unfinished, m') = ⊥

pair-Memᴰ : (x y a b : ℕ) → Memᴰ {A = ℕ × ℕ} (x, y) ((a, b) ∷ []) → (x ≡ a) × (y ≡ b)
pair-Memᴰ x y a b h =
    let e : ◌≡◌ {A = ℕ × ℕ} (x, y) (a, b) = Memᴰ.eq_of_singleton h in
    (ap (λ (p : ℕ × ℕ). p.0) e, ap (λ (p : ℕ × ℕ). p.1) e)

pub Ranked-wider :
    (pairs : List (ℕ × ℕ)) (R rank : ℕ → ℕ) (bound more : ℕ) (m : Parents ℕ)
    → Ranked pairs R rank bound m
    → bound ≤ more
    → Ranked pairs R rank more m
Ranked-wider pairs R rank bound more m w l = record {
  closed = w.closed;
  same_root = w.same_root;
  fixed = w.fixed;
  absent = w.absent;
  lower = w.lower;
  bounded = λ k. omega (arith, w.bounded k, l);
  linked = w.linked;
}

module _ (pairs : List (ℕ × ℕ)) (R rank : ℕ → ℕ) (bound a b : ℕ) (m t : Parents ℕ) where
  already_joined :
      Ranked pairs R rank bound t
      → R a ≡ R b
      → keys t ≡ add_node b (add_node a (keys m))
      → Partition pairs R bound ((a, b) ∷ []) m t
  unfolding nodes_after
  already_joined w e k = record {
    roots = R;
    ranks = rank;
    ranked =
        Ranked-wider pairs R rank bound (bound + length {A = ℕ × ℕ} ((a, b) ∷ [])) t w
          (omega arith);
    joined = λ x y h. let (p, q) = pair-Memᴰ x y a b h in ap R p ∙ e ∙ ap R (sym q);
    coarser = λ x y h. h;
    nodes = k;
  }

  ends_linked : Ranked pairs R rank bound t → Memᴰ (a, b) pairs → Connected pairs (R a) (R b)
  ends_linked w c = join (back (w.linked a)) (join (pair c) (w.linked b))

  newly_joined :
      Ranked pairs R rank bound t
      → parent_of ids (R a) t ≡ some (R a)
      → parent_of ids (R b) t ≡ some (R b)
      → R a ≢ R b
      → Memᴰ (a, b) pairs
      → keys t ≡ add_node b (add_node a (keys m))
      → Partition pairs R bound ((a, b) ∷ []) m (put ids (R b) (R a) t)
  unfolding nodes_after
  newly_joined w ra rb ne c k = record {
    roots = merged R (R a) (R b);
    ranks = raised_rank R rank (R b);
    ranked =
        Ranked-wider pairs (merged R (R a) (R b)) (raised_rank R rank (R b)) (suc bound)
          (bound + length {A = ℕ × ℕ} ((a, b) ∷ [])) (put ids (R b) (R a) t)
          (Ranked-hang pairs R rank bound t (R a) (R b) w ra rb ne (ends_linked w c)) (omega arith);
    joined = λ x y h.
        let (p, q) = pair-Memᴰ x y a b h in unfold merged in ground (arith, ap R p, ap R q);
    coarser = λ x y h. unfold merged in ground (arith, h);
    nodes = keys-put (R b) (R a) t (λ z. ground (arith, z, rb)) ∙ k;
  }

  hang-Joins :
      Ranked pairs R rank bound t
      → parent_of ids (R a) t ≡ some (R a)
      → parent_of ids (R b) t ≡ some (R b)
      → Memᴰ (a, b) pairs
      → keys t ≡ add_node b (add_node a (keys m))
      → Joins pairs R bound ((a, b) ∷ []) m (hang (R a) (R b) t)
  unfolding hang assign
  hang-Joins w ra rb c k = elim (Bool-cases (R a == R b)) [
    | inl e ↦
        subst
          (λ q.
            Joins pairs R bound ((a, b) ∷ []) m
              (if q then (returned tt, t) else assign ids (R b) (R a) t))
          (sym e) (already_joined w ((==_iff (R a) (R b)).0 e) k)
    | inr e ↦
        subst
          (λ q.
            Joins pairs R bound ((a, b) ∷ []) m
              (if q then (returned tt, t) else assign ids (R b) (R a) t))
          (sym e) (newly_joined w ra rb (λ z. ground (arith, e, z)) c k)
  ]

module _ (pairs : List (ℕ × ℕ)) where
  pub join_ends-Joins :
      (R rank : ℕ → ℕ) (bound fuel a b : ℕ) (m : Parents ℕ)
      → Ranked pairs R rank bound m
      → bound < fuel
      → Memᴰ (a, b) pairs
      → Joins pairs R bound ((a, b) ∷ []) m (join_ends fuel a b m)
  unfolding join_ends ◌>>=◌
  join_ends-Joins R rank bound fuel a b m w l c =
      let fa = find_root-Found pairs R rank bound fuel a m w l in
      let fb = find_root-Found pairs R rank bound fuel b fa.after fa.ranked l in
      let key : HasKey ids fb.after (R a) = contains→HasKey (R a) fb.after (
        ground (
          arith,
          ap (λ ns. contains ns (R a)) fb.nodes,
          contains-add_node b (R a) (keys fa.after),
          HasKey→contains (R a) fa.after (λ z. ground (arith, z, fa.at_root)),
        )) in
      let ra =
        stays_root pairs R rank bound (R a) fa.after fb.after fa.ranked fb.ranked fa.at_root key in
      let run : join_ends fuel a b m ≡ hang (R a) (R b) fb.after =
        ground (arith, fa.result, fb.result) in
      subst (λ o. Joins pairs R bound ((a, b) ∷ []) m o) (sym run)
        (hang-Joins pairs R rank bound a b m fb.after fb.ranked ra fb.at_root c
          (fb.nodes ∙ ap (add_node b) fa.nodes))
