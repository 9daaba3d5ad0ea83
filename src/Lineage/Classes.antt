-- ===== src/Lineage/Classes.antt =====
-- The roots of connected nodes.
use data_processing.Prelude.{List, ◌≡◌, ◌⊎◌, inl, inr, ◌↔◌, refl, sym, ◌∙◌, subst, true}
use data_processing.Lineage.{NodeOrder, Parents}
use data_processing.Lineage.Leads.{
  Connected, pair, self, back, join, Leads, Sound, Leads-unique, Leads-Connected, Leads-small,
}
use data_processing.Lineage.Union.{Joined}
use data_processing.Lineage.Partition.{AllJoined, All-mem}

module _ {N : Type 0} (o : NodeOrder N) (m : Parents N) where
  open o use {before}

  Together : N → N → Type 0
  Together x y = (x ≡ y) ⊎ Joined o m x y

  Together-sym : (x y : N) → Together x y → Together y x
  unfolding Together
  Together-sym x y (inl e) = inl (sym e)
  Together-sym x y (inr (r, lx, ly)) = inr (r, ly, lx)

  Together-trans : (x y z : N) → Together x y → Together y z → Together x z
  unfolding Together
  Together-trans x y z (inl e) t = subst (λ w. (w ≡ z) ⊎ Joined o m w z) (sym e) t
  Together-trans x y z (inr j) (inl e) = inr (subst (λ w. Joined o m x w) e j)
  Together-trans x y z (inr (r, lx, ly)) (inr (s, ky, kz)) =
      inr (r, lx, subst (λ w. Leads o m z w) (Leads-unique o m ky ly) kz)

  Connected-Together :
      (pairs : List (N × N)) {x y : N}
      → AllJoined o pairs pairs m
      → Connected pairs x y
      → Together x y
  unfolding Together
  Connected-Together pairs j (pair {a} {b} h) =
      inr (All-mem (λ p. Joined o m p.0 p.1) pairs (a, b) j h)
  Connected-Together pairs j self = inl refl
  Connected-Together pairs j (back {a} {b} c) = Together-sym a b (Connected-Together pairs j c)
  Connected-Together pairs j (join {a} {b} {c} p q) =
      Together-trans a b c (Connected-Together pairs j p) (Connected-Together pairs j q)

  -- Of two nodes with roots, the roots are one exactly where the nodes are connected.
  pub Leads-Connected_iff :
      (pairs : List (N × N)) (x y r s : N)
      → Sound o pairs m
      → AllJoined o pairs pairs m
      → Leads o m x r
      → Leads o m y s
      → (r ≡ s) ↔ Connected pairs x y
  unfolding Together
  Leads-Connected_iff pairs x y r s h j lx ly = (
    (λ e.
        join (Leads-Connected o pairs m h lx)
          (back (subst (λ z. Connected pairs y z) (sym e) (Leads-Connected o pairs m h ly)))),
    (λ c. elim (Connected-Together pairs j c) [
      | inl e ↦ Leads-unique o m (subst (λ z. Leads o m z r) e lx) ly
      | inr (t, kx, ky) ↦ Leads-unique o m lx kx ∙ Leads-unique o m ky ly
    ]),
  )

  -- The root is the first of the connected nodes.
  pub Leads-first :
      (pairs : List (N × N)) (x y r : N)
      → Sound o pairs m
      → AllJoined o pairs pairs m
      → Leads o m x r
      → Connected pairs x y
      → (r ≡ y) ⊎ (before r y ≡ true)
  unfolding Together
  Leads-first pairs x y r h j lx c = elim (Connected-Together pairs j c) [
    | inl e ↦ subst (λ z. (r ≡ z) ⊎ (before r z ≡ true)) e (Leads-small o pairs m h lx)
    | inr (t, kx, ky) ↦
        subst (λ z. (z ≡ y) ⊎ (before z y ≡ true)) (Leads-unique o m kx lx)
          (Leads-small o pairs m h ky)
  ]
