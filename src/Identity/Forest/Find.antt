-- ===== src/Identity/Forest/Find.antt =====
-- `find` ends at the root of the node's tree, and keeps the trees' nodes and roots.
use data_processing.Prelude.{
  ℕ, zero, suc, some, List, [], ◌∷◌, ◌≡◌, ◌≢◌, ◌<◌, ◌==◌, refl, sym, ap, ◌∙◌, subst, inl, inr,
  arith, Bool-cases, ==_iff,
}
use data_processing.Effect.{Outcome, returned, ◌>>=◌}
use data_processing.Effect.Triple.{Post, Post-weaken}
use data_processing.RemoteSync.Types.{Exception}
use data_processing.Lineage.{Parents, parent_of, put, add, read, assign}
use data_processing.Lineage.Leads.{HasKey, key_parent}
use data_processing.Lineage.Compress.{parent_of-add}
use data_processing.Identity.Forest.{ids, keys, climb, find_root}
use data_processing.Identity.Forest.Ranked.{Ranked, Ranked-add, Ranked-halve, parent_after}

pub keys-put : (s f : ℕ) (m : Parents ℕ) → HasKey ids m s → keys (put ids s f m) ≡ keys m
unfolding parent_of put
keys-put s f [] h = absurd (h refl)
keys-put s f ((j, q) ∷ m) h = ground (arith, keys-put s f m, h)

-- A node that is its own parent is returned.
climb-root :
    (fuel a : ℕ) (m : Parents ℕ)
    → parent_of ids a m ≡ some a
    → climb (suc fuel) a m ≡ (returned a, m)
unfolding climb read ◌>>=◌
climb-root fuel a m e = ground (arith, e)

-- One turn of the loop.
climb-up :
    (fuel a p g : ℕ) (m : Parents ℕ)
    → parent_of ids a m ≡ some p
    → p ≢ a
    → parent_of ids p m ≡ some g
    → climb (suc fuel) a m ≡ climb fuel g (put ids a g m)
unfolding climb read assign ◌>>=◌
climb-up fuel a p g m e ne f = ground (arith, e, ne, f, parent_after a g a m)

module _ (pairs : List (ℕ × ℕ)) (R rank : ℕ → ℕ) (bound : ℕ) where
  -- What `find` gives for a node.
  abbrev pub Finds : ℕ → List ℕ → Outcome Exception ℕ × Parents ℕ → Type 0
  Finds a nodes r =
      Post
        (λ root m.
          (root ≡ R a)
          × Ranked pairs R rank bound m
          × (parent_of ids root m ≡ some root)
          × (keys m ≡ nodes))
        (λ _ _. ⊥) r

  climb-Finds :
      (fuel a : ℕ) (m : Parents ℕ)
      → Ranked pairs R rank bound m
      → HasKey ids m a
      → rank a < fuel
      → Finds a (keys m) (climb fuel a m)
  climb-Finds zero a m w h l = absurd (omega (arith, l))
  climb-Finds (suc fuel) a m w h l =
      let (p, e) = key_parent ids m a h in
      elim (Bool-cases (p == a)) [
        | inl q ↦
            let e' : parent_of ids a m ≡ some a = e ∙ ap some ((==_iff p a).0 q) in
            subst (λ r. Finds a (keys m) r) (sym (climb-root fuel a m e'))
              (sym (w.fixed a e').0, w, e', refl)
        | inr q ↦
            let ne : p ≢ a = λ z. ground (arith, q, z) in
            let (g, f) = key_parent ids m p (w.closed a p e) in
            let w' = Ranked-halve pairs R rank bound m a p g w e ne f in
            let key : HasKey ids (put ids a g m) g =
              λ z. ground (arith, z, parent_after a g g m, w.closed p g f) in
            let lower : rank g < fuel =
              ground (arith, l, w.lower a p e ne, w.lower p g f, ap rank) in
            subst (λ r. Finds a (keys m) r) (sym (climb-up fuel a p g m e ne f))
              (Post-weaken (climb fuel g (put ids a g m))
                (λ root m' post. (
                  post.0 ∙ w.same_root p g f ∙ w.same_root a p e,
                  post.1,
                  post.2,
                  post.3 ∙ keys-put a g m h,
                ))
                (λ x m' z. z) (climb-Finds fuel g (put ids a g m) w' key lower))
      ]

  pub find_root-Finds :
      (fuel a : ℕ) (m : Parents ℕ)
      → Ranked pairs R rank bound m
      → bound < fuel
      → Finds a (keys (add ids a m)) (find_root fuel a m)
  unfolding find_root
  find_root-Finds fuel a m w l =
      climb-Finds fuel a (add ids a m) (Ranked-add pairs R rank bound m a w) (parent_of-add ids a m)
        (omega (arith, l, w.bounded a))
